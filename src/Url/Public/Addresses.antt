-- ===== src/Url/Public/Addresses.antt =====
-- Which addresses `validate_public_url` accepts.
use webintel.Prelude.{
  ◌≡◌, refl, ap, inl, inr, true, false, not, ◌||◌, List, [], ◌∷◌, ◌++◌, some, Text, arith, text_Eq,
  Bool-cases, All, All-append, contains, Bool, any, subst, ◌∙◌, none,
}
use webintel.Prelude.Result.{ok, or_raise, >>=-eq-ok, raise_if-eq-ok, or_raise-eq-ok}
use webintel.Py.Tables.{Python, IpAddress, address_Eq, address_eq, address_eq_iff}
use webintel.Url.Host.{ensure_public_address}
use webintel.Url.Public.{add_new, collect}

-- No address stands twice.
abbrev pub IsDistinct : List IpAddress → Type 0
IsDistinct [] = Unit
IsDistinct (a ∷ l) = (contains l a ≡ false) × IsDistinct l

contains-append :
    (l : List IpAddress) (a b : IpAddress)
    → contains (l ++ b ∷ []) a ≡ (contains l a || address_eq b a)
contains-append [] a b = ground arith
contains-append (c ∷ l) a b = ground (arith, contains-append l a b)

append-IsDistinct :
    (l : List IpAddress) (a : IpAddress)
    → contains l a ≡ false
    → IsDistinct l
    → IsDistinct (l ++ a ∷ [])
append-IsDistinct [] a h k = (refl, tt)
append-IsDistinct (b ∷ l) a h (f, k) =
    ground (
      arith,
      h,
      contains-append l b a,
      address_eq_iff a b,
      address_eq_iff b a,
      append-IsDistinct l a,
    )

add_new-IsDistinct : (l : List IpAddress) (a : IpAddress) → IsDistinct l → IsDistinct (add_new l a)
add_new-IsDistinct l a h = elim (Bool-cases (contains l a)) [
  | inl old ↦ rw old h
  | inr new ↦ rw new (append-IsDistinct l a new h)
]

module _ (py : Python) where
  abbrev pub IsGlobal : IpAddress → Type 0
  IsGlobal a = py.is_global a ≡ true

  ensure-IsGlobal : (a : IpAddress) {u : Unit {0}} → ensure_public_address py a ≡ ok u → IsGlobal a
  unfolding ensure_public_address
  ensure-IsGlobal a h = ground (arith, raise_if-eq-ok (not (py.is_global a)) _ h)

  add_new-IsGlobal :
      (l : List IpAddress) (a : IpAddress)
      → All IsGlobal l
      → IsGlobal a
      → All IsGlobal (add_new l a)
  add_new-IsGlobal l a h k = elim (Bool-cases (contains l a)) [
    | inl old ↦ rw old h
    | inr new ↦ rw new (All-append IsGlobal l (a ∷ []) h (k, tt))
  ]

  -- Every value of the resolver is an address, a global one.
  abbrev pub AreGlobal : List Text → Type 0
  AreGlobal values = All (λ v. (a : IpAddress) × (py.ip_address v ≡ some a) × IsGlobal a) values

  -- From distinct global addresses, the loop returns only if every value of the resolver is a
  -- global address; what it returns is
  -- distinct and global.
  pub collect_sound :
      (l : List IpAddress) (values : List Text) {found : List IpAddress}
      → All IsGlobal l
      → IsDistinct l
      → collect py l values ≡ ok found
      → AreGlobal values × All IsGlobal found × IsDistinct found
  unfolding collect
  collect_sound l [] h k e = ground arith
  collect_sound l (v ∷ vs) {found} h k e =
      let (a, parsed, e₁) = >>=-eq-ok (or_raise (py.ip_address v) _) _ e in
      let (u, checked, e₂) = >>=-eq-ok (ensure_public_address py a) _ e₁ in
      let global : IsGlobal a = ensure-IsGlobal a checked in
      let (rest, all, distinct) =
        collect_sound (add_new l a) vs {found = found} (add_new-IsGlobal l a h global)
          (add_new-IsDistinct l a k) e₂ in
      (((a, or_raise-eq-ok (py.ip_address v) _ parsed, global), rest), all, distinct)

  ensure-of_IsGlobal : (a : IpAddress) → IsGlobal a → ensure_public_address py a ≡ ok tt
  unfolding ensure_public_address
  ensure-of_IsGlobal a h = rw h

  -- The value is read as this address.
  abbrev pub reads_as : IpAddress → Text → Bool
  reads_as a value = elim (py.ip_address value) [ none ↦ false | some b ↦ address_eq b a ]

  contains-add_new :
      (l : List IpAddress) (a b : IpAddress)
      → contains (add_new l b) a ≡ (contains l a || address_eq b a)
  contains-add_new l a b = elim (Bool-cases (contains l b)) [
    | inl old ↦ rw old (known-or l a b old)
    | inr new ↦ rw new (contains-append l a b)
  ]
    where
      known-or :
          (l : List IpAddress) (a b : IpAddress)
          → contains l b ≡ true
          → contains l a ≡ (contains l a || address_eq b a)
      known-or l a b old = elim (Bool-cases (address_eq b a)) [
        | inl same ↦
            let here : contains l a ≡ true =
              subst (λ x. contains l x ≡ true) ((address_eq_iff b a).0 same) old in
            rw here refl
        | inr other ↦ rw other (ground arith)
      ]

  reads_as-parsed :
      (v : Text) (b a : IpAddress) → py.ip_address v ≡ some b → reads_as a v ≡ address_eq b a
  reads_as-parsed v b a e = ap (λ o. elim o [ none ↦ false | some c ↦ address_eq c a ]) e

  or_assoc : (x y z : Bool) → ((x || y) || z) ≡ (x || (y || z))
  or_assoc x y z = ground arith

  -- Where all are global addresses the loop returns, and an address is in what it returns exactly if
  -- it was there before or a value of the resolver is read as it.
  pub collect_complete :
      (l : List IpAddress) (values : List Text)
      → AreGlobal values
      → (found : List IpAddress) × (collect py l values ≡ ok found)
        × ((a : IpAddress) → contains found a ≡ (contains l a || any (reads_as a) values))
  unfolding collect
  collect_complete l [] h = (l, refl, λ a. ground arith)
  collect_complete l (v ∷ vs) ((b, parsed, global), h) =
      let (found, returned, members) = collect_complete (add_new l b) vs h in
      (
        found,
        rw (parsed, ensure-of_IsGlobal b global) returned,
        λ a.
            members a
            ∙ rw (contains-add_new l a b, reads_as-parsed v b a parsed)
                (or_assoc (contains l a) (address_eq b a) (any (reads_as a) vs)),
      )
