-- ===== src/Py/Posix/Laws.antt =====
-- Splitting at slashes, joining, and what `normpath` makes of the components of a rooted path.
use mathlib.Core.List.{reverse-cons}
use webintel.Prelude.{
  ℕ, ◌≡◌, ◌≢◌, refl, ap, sym, ◌∙◌, Bool, true, false, not, List, [], ◌∷◌, ◌++◌, reverse,
  append_assoc, append-nil, arith, ◌==◌, nat_Eq, text_Eq, Text, All, text_eq_iff, inl, inr,
  Bool-cases, is_empty,
}
use webintel.Py.Str.{split, join, cons_first, rstrip, rcons}
use webintel.Py.Posix.{dot, dot_dot, push_component, components, initial_slashes, or_dot, normpath}

abbrev pub NoSlash : Text → Type 0
NoSlash s = All (λ c. c ≢ b'/') s

module _ (P : ℕ → Type 0) where
  All-cons_first : (c : ℕ) (ss : List Text) → P c → All (All P) ss → All (All P) (cons_first c ss)
  All-cons_first c [] p h = ((p, tt), tt)
  All-cons_first c (s ∷ ss) p (h, hs) = ((p, h), hs)

pub split-NoSlash : (s : Text) → All NoSlash (split b'/' s)
unfolding split
split-NoSlash [] = (tt, tt)
split-NoSlash (c ∷ s) = elim (Bool-cases (c == b'/')) [
  | inl e ↦ rw e (tt, split-NoSlash s)
  | inr e ↦
      rw e (All-cons_first (λ d. d ≢ b'/') c (split b'/' s) (ground (arith, e)) (split-NoSlash s))
]

split-NoSlash_self : (s : Text) → NoSlash s → split b'/' s ≡ s ∷ []
unfolding split
split-NoSlash_self [] h = refl
split-NoSlash_self (c ∷ s) (p, h) =
    let e : (c == b'/') ≡ false = ground (arith, p) in rw (e, split-NoSlash_self s h)

split-slash : (s t : Text) → NoSlash s → split b'/' (s ++ b'/' ∷ t) ≡ s ∷ split b'/' t
unfolding split
split-slash [] t h = refl
split-slash (c ∷ s) t (p, h) =
    let e : (c == b'/') ≡ false = ground (arith, p) in rw (e, split-slash s t h)

pub split-join :
    (c : Text) (cs : List Text) → All NoSlash (c ∷ cs) → split b'/' (join b'/' (c ∷ cs)) ≡ c ∷ cs
unfolding join
split-join c [] (h, _) = split-NoSlash_self c h
split-join c (d ∷ cs) (h, hs) =
    split-slash c (join b'/' (d ∷ cs)) h ∙ ap (λ l. c ∷ l) (split-join d cs hs)

abbrev pub IsPlain : Text → Type 0
IsPlain c = (c ≢ []) × (c ≢ dot) × (c ≢ dot_dot)

push_component-plain :
    (kept : List Text) (c : Text) → IsPlain c → push_component true kept c ≡ c ∷ kept
unfolding push_component
push_component-plain kept c h =
    ground (arith, h, text_eq_iff c [], text_eq_iff c dot, text_eq_iff c dot_dot)

components-plain_from :
    (kept comps : List Text)
    → All IsPlain comps
    → components true kept comps ≡ reverse kept ++ comps
unfolding components
components-plain_from kept [] h = sym (append-nil _)
components-plain_from kept (c ∷ cs) (p, h) =
    ap (λ k. components true k cs) (push_component-plain kept c p)
    ∙ components-plain_from (c ∷ kept) cs h
    ∙ simp (reverse-cons, append_assoc)

-- Components that are plain are all kept.
pub components-plain : (comps : List Text) → All IsPlain comps → components true [] comps ≡ comps
components-plain comps h = components-plain_from [] comps h

module _ (P : Text → Type 0) where
  All-reverse_onto : (kept acc : List Text) → All P kept → All P acc → All P (reverse kept ++ acc)
  All-reverse_onto [] acc h k = k
  All-reverse_onto (c ∷ kept) acc (p, h) k =
      simp (reverse-cons, append_assoc) (All-reverse_onto kept (c ∷ acc) h (p, k))

  push_component-All :
      (kept : List Text) (c : Text)
      → All (λ d. IsPlain d × P d) kept
      → P c
      → All (λ d. IsPlain d × P d) (push_component true kept c)
  unfolding push_component
  push_component-All [] c h p =
      ground (arith, text_eq_iff c [], text_eq_iff c dot, text_eq_iff c dot_dot)
  push_component-All (d ∷ kept) c h p =
      ground (
        arith,
        h,
        text_eq_iff c [],
        text_eq_iff c dot,
        text_eq_iff c dot_dot,
        text_eq_iff d dot_dot,
      )

module _ (P : Text → Type 0) where
  -- In a rooted path every kept component is plain, and is one of the path's.
  pub components-All :
      (kept comps : List Text)
      → All (λ d. IsPlain d × P d) kept
      → All P comps
      → All (λ d. IsPlain d × P d) (components true kept comps)
  unfolding components
  components-All kept [] h k =
      rw (← append-nil (reverse kept)) (All-reverse_onto (λ d. IsPlain d × P d) kept [] h tt)
  components-All kept (c ∷ cs) h (p, k) =
      components-All (push_component true kept c) cs (push_component-All P kept c h p) k

pub rstrip-append :
    (p : ℕ → Bool) (a : Text) (x : ℕ) (b : Text)
    → rstrip p (x ∷ b) ≡ x ∷ b
    → rstrip p (a ++ x ∷ b) ≡ a ++ x ∷ b
unfolding rstrip
rstrip-append p [] x b h = h
rstrip-append p (c ∷ []) x b h = ap (rcons p c) h
rstrip-append p (c ∷ d ∷ a) x b h = ap (rcons p c) (rstrip-append p (d ∷ a) x b h)

-- `normpath` by its parts, for a path that begins with the slashes `c ∷ initial`.
pub normpath-rooted :
    (path : Text) (c : ℕ) (initial : Text)
    → initial_slashes path ≡ c ∷ initial
    → normpath path ≡ c ∷ initial ++ join b'/' (components true [] (split b'/' path))
unfolding normpath
normpath-rooted path c initial e =
    ap (λ (i : Text). or_dot (i ++ join b'/' (components (not (is_empty i)) [] (split b'/' path))))
      e
