-- ===== src/Url/Normalize/Netloc.antt =====
-- What `urlsplit` reads of a network location made of a host name and a port.
use webintel.Prelude.{
  ℕ, ◌≤◌, ◌≡◌, refl, sym, subst, ap, ap₂, ◌∙◌, inl, inr, Bool, true, false, ◌||◌, [], ◌∷◌, ◌++◌,
  ◌==◌, nat_Eq, text_Eq, Text, Option, some, none, All, All-append, Bool-cases, all, any, is_empty,
  arith, contains, append-nil, if◌then◌else◌,
}
use webintel.Py.Str.{is_digit, partition, rpartition, decimal, ascii_int}
use webintel.Py.Str.Decimal.{decimal-digits, decimal_ne, ascii_int-decimal}
use webintel.Py.Split.{
  SplitResult, is_delimiter, is_unsafe, has_balanced_brackets, host_info, hostname, lower_host,
  port, has_userinfo, in_range,
}
use webintel.Py.Split.Laws.{partition-none, partition-append, rpartition-none}
use webintel.Py.Tables.{Python}
use webintel.Url.Host.Names.{is_host_char, IsHostChar}
use webintel.Url.Normalize.{port_suffix, is_default_port}

-- The characters of a host name and of ":" and a port.
abbrev pub IsNetlocChar : ℕ → Type 0
IsNetlocChar c = (is_host_char c || c == b':') ≡ true

pub any-none :
    (p : ℕ → Bool) (P : ℕ → Type 0)
    → ((c : ℕ) → P c → p c ≡ false)
    → (s : Text) → All P s
    → any p s ≡ false
any-none p P f [] h = refl
any-none p P f (c ∷ s) (h, k) = rw (f c h, any-none p P f s k) refl

pub contains-none :
    (a : ℕ) (P : ℕ → Type 0)
    → ((c : ℕ) → P c → (c == a) ≡ false)
    → (s : Text) → All P s
    → contains s a ≡ false
contains-none a P f [] h = refl
contains-none a P f (c ∷ s) (h, k) = rw (f c h, contains-none a P f s k) refl

host-netloc : (s : Text) → All IsHostChar s → All IsNetlocChar s
host-netloc [] h = tt
host-netloc (c ∷ s) (h, k) = (ground (arith, h), host-netloc s k)

digits-netloc : (s : Text) → all is_digit s ≡ true → All IsNetlocChar s
digits-netloc [] h = tt
digits-netloc (c ∷ s) h = (ground (arith, h), digits-netloc s (ground (arith, h)))

-- The port that is written, and how.
abbrev pub shown : Text → Option ℕ → Option ℕ
shown scheme number = if is_default_port scheme number then none else number

abbrev pub suffix : Option ℕ → Text
suffix none = []
suffix (some n) = b':' ∷ decimal n

pub port_suffix-shown :
    (scheme : Text) (number : Option ℕ) → port_suffix scheme number ≡ suffix (shown scheme number)
unfolding port_suffix
port_suffix-shown scheme none = refl
port_suffix-shown scheme (some n) = elim (Bool-cases (is_default_port scheme (some n))) [
  | inl e ↦ rw e refl
  | inr e ↦ rw e refl
]

pub port_suffix_again :
    (scheme : Text) (number : Option ℕ)
    → port_suffix scheme (shown scheme number) ≡ port_suffix scheme number
unfolding port_suffix
port_suffix_again scheme none = refl
port_suffix_again scheme (some n) = elim (Bool-cases (is_default_port scheme (some n))) [
  | inl e ↦ rw e refl
  | inr e ↦ rw e (rw e refl)
]

suffix-All : (o : Option ℕ) → All IsNetlocChar (suffix o)
suffix-All none = tt
suffix-All (some n) = (refl, digits-netloc (decimal n) (decimal-digits n))

abbrev pub IsPort : Option ℕ → Type 0
IsPort none = Unit
IsPort (some n) = n ≤ 65535

module _ (host : Text) (o : Option ℕ) (plain : All IsHostChar host) where
  abbrev netloc : Text
  netloc = host ++ suffix o

  pub netloc-All : All IsNetlocChar netloc
  netloc-All = All-append IsNetlocChar host (suffix o) (host-netloc host plain) (suffix-All o)

  pub netloc-delimited : any is_delimiter netloc ≡ false
  netloc-delimited = any-none is_delimiter IsNetlocChar (λ c h. ground (arith, h)) netloc netloc-All

  pub netloc-unsafe : any is_unsafe netloc ≡ false
  netloc-unsafe = any-none is_unsafe IsNetlocChar (λ c h. ground (arith, h)) netloc netloc-All

  lacks : (a : ℕ) → ((c : ℕ) → IsNetlocChar c → (c == a) ≡ false) → contains netloc a ≡ false
  lacks a f = contains-none a IsNetlocChar f netloc netloc-All

  pub netloc-balanced : has_balanced_brackets netloc ≡ true
  unfolding has_balanced_brackets
  netloc-balanced =
      rw (lacks b'[' (λ c h. ground (arith, h)), lacks b']' (λ c h. ground (arith, h))) refl

  rpartition-at : rpartition b'@' netloc ≡ ([], false, netloc)
  rpartition-at = rpartition-none b'@' netloc (lacks b'@' (λ c h. ground (arith, h)))

  partition-bracket : partition b'[' netloc ≡ (netloc, false, [])
  partition-bracket = partition-none b'[' netloc (lacks b'[' (λ c h. ground (arith, h)))

  pub no_colon : contains host b':' ≡ false
  no_colon = contains-none b':' IsHostChar (λ c h. ground (arith, h)) host plain

  no_percent : contains host b'%' ≡ false
  no_percent = contains-none b'%' IsHostChar (λ c h. ground (arith, h)) host plain

  host_info-netloc : host_info netloc ≡ ((partition b':' netloc).0, (partition b':' netloc).2)
  unfolding host_info
  host_info-netloc = rw (rpartition-at, partition-bracket) refl

  module _ (r : SplitResult) (here : r.netloc ≡ netloc) where
    pub netloc-userinfo : has_userinfo r ≡ false
    unfolding has_userinfo
    netloc-userinfo = ap (λ n. (rpartition b'@' n).1) here ∙ ap (λ p. p.1) rpartition-at

partition-suffix :
    (host : Text) (o : Option ℕ)
    → contains host b':' ≡ false
    → ((partition b':' (host ++ suffix o)).0 ≡ host)
      × ((partition b':' (host ++ suffix o)).2 ≡ elim o [ none ↦ [] | some n ↦ decimal n ])
partition-suffix host none h = rw (append-nil host, partition-none b':' host h) (refl, refl)
partition-suffix host (some n) h = rw (partition-append b':' host (decimal n) h) (refl, refl)

port-written :
    (r : SplitResult) (w : Text)
    → (host_info r.netloc).1 ≡ w
    → port r ≡ (if is_empty w then some none else in_range (ascii_int w))
unfolding port
port-written r w e = ap (λ v. if is_empty v then some none else in_range (ascii_int v)) e

port_of_decimal :
    (n : ℕ)
    → n ≤ 65535
    → (if is_empty (decimal n) then some none else in_range (ascii_int (decimal n))) ≡ some (some n)
port_of_decimal n h = rw (decimal_ne n, ascii_int-decimal n) (ground (arith, h))

some-injective {ℓ} : {A : Type ℓ} {a b : A} → some a ≡ some b → a ≡ b
some-injective h = cc

in_range-IsPort : (m o : Option ℕ) → in_range m ≡ some o → IsPort o
in_range-IsPort none o h = absurd (ground (arith, h))
in_range-IsPort (some n) none h = tt
in_range-IsPort (some n) (some m) h = ground (arith, h)

-- The host name, in lower case, and the port are read back.
module _ (host : Text) (plain : All IsHostChar host) (r : SplitResult) (o : Option ℕ)
    (here : r.netloc ≡ host ++ suffix o) where
  host_info-here : host_info r.netloc ≡ (host, elim o [ none ↦ [] | some n ↦ decimal n ])
  host_info-here =
      ap host_info here
      ∙ host_info-netloc host o plain
      ∙ ap₂ (λ a b. (a, b)) (partition-suffix host o (no_colon host o plain)).0
          (partition-suffix host o (no_colon host o plain)).1

  lower_host-plain : (py : Python) → py.lower host ≡ host → lower_host py host ≡ host
  unfolding lower_host
  lower_host-plain py low =
      rw (partition-none b'%' host (no_percent host o plain)) (rw (low, append-nil host) refl)

  pub hostname-netloc :
      (py : Python) → is_empty host ≡ false → py.lower host ≡ host → hostname py r ≡ some host
  unfolding hostname
  hostname-netloc py ne low =
      let same : (host_info r.netloc).0 ≡ host = ap (λ p. p.0) host_info-here in
      rw (same, ne, lower_host-plain py low) refl

-- A port that was read is one.
pub port-IsPort : (r : SplitResult) (o : Option ℕ) → port r ≡ some o → IsPort o
port-IsPort r o h = elim (Bool-cases (is_empty (host_info r.netloc).1)) [
  | inl e ↦ subst IsPort (empty_port e) tt
  | inr e ↦
      in_range-IsPort (ascii_int (host_info r.netloc).1) o
        (rw e at (sym (port-written r _ refl) ∙ h))
]
  where
    empty_port : is_empty (host_info r.netloc).1 ≡ true → none ≡ o
    empty_port e = some-injective (rw e at (sym (port-written r _ refl) ∙ h))

pub port-netloc :
    (host : Text)
    → All IsHostChar host
    → (r : SplitResult) (o : Option ℕ) → r.netloc ≡ host ++ suffix o
    → IsPort o
    → port r ≡ some o
port-netloc host plain r none here small =
    port-written r [] (ap (λ p. p.1) (host_info-here host plain r none here))
port-netloc host plain r (some n) here small =
    port-written r (decimal n) (ap (λ p. p.1) (host_info-here host plain r (some n) here))
    ∙ port_of_decimal n small

pub shown-IsPort : (scheme : Text) (o : Option ℕ) → IsPort o → IsPort (shown scheme o)
shown-IsPort scheme none h = tt
shown-IsPort scheme (some n) h = elim (Bool-cases (is_default_port scheme (some n))) [
  | inl e ↦ rw e tt
  | inr e ↦ rw e h
]
