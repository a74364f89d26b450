-- ===== src/Url/Normalize/Parts.antt =====
-- The path of a URL that has a network location: it is rooted, and what it does not contain.
use webintel.Prelude.{
  ℕ, ◌≡◌, ◌≢◌, refl, sym, subst, ap, ◌∙◌, inl, inr, Bool, true, false, not, ◌&&◌, [], ◌∷◌, ◌==◌,
  nat_Eq, Text, some, none, All, Bool-cases, keep, is_empty, arith, leb, if◌then◌else◌,
}
use webintel.Py.Str.{partition, rpartition, lstrip}
use webintel.Py.Str.Chars.{partition-All, partition-before}
use webintel.Py.Tables.{Python}
use webintel.Py.Split.{
  SplitResult, split_scheme, split_netloc, netloc_and_rest, urlsplit, is_unsafe, is_delimiter,
  hostname, host_info, lower_host,
}
use webintel.Py.Split.Laws.{IsTail, IsRooted}
use webintel.Url.Percent.Chars.{IsPathChar}
use webintel.Url.Normalize.{host_of}

abbrev IsSafe : ℕ → Type 0
IsSafe c = is_unsafe c ≡ false

keep-IsSafe : (s : Text) → All IsSafe (keep (λ c. not (is_unsafe c)) s)
keep-IsSafe [] = tt
keep-IsSafe (c ∷ s) = elim (Bool-cases (is_unsafe c)) [
  | inl e ↦ rw e (keep-IsSafe s)
  | inr e ↦ rw e (e, keep-IsSafe s)
]

pick-All :
    (b : Bool) (x y : Text × Text)
    → All IsSafe x.1
    → All IsSafe y.1
    → All IsSafe (if b then x else y).1
pick-All true x y h k = h
pick-All false x y h k = k

split_scheme-All : (s : Text) → All IsSafe s → All IsSafe (split_scheme s).1
unfolding split_scheme
split_scheme-All s h = pick-All _ _ _ (partition-All IsSafe b':' s h).1 h

split_netloc-All : (s : Text) → All IsSafe s → All IsSafe (split_netloc s).1
unfolding split_netloc
split_netloc-All [] h = tt
split_netloc-All (c ∷ s) (h, k) = elim (Bool-cases (is_delimiter c)) [
  | inl e ↦ rw e (h, k)
  | inr e ↦ rw e (split_netloc-All s k)
]

netloc_and_rest-All : (s : Text) → All IsSafe s → All IsSafe (netloc_and_rest s).1
unfolding netloc_and_rest
netloc_and_rest-All [] h = h
netloc_and_rest-All (a ∷ []) h = h
netloc_and_rest-All (a ∷ b ∷ s) (h, (k, l)) = elim (Bool-cases (a == b'/' && b == b'/')) [
  | inl e ↦ rw e (split_netloc-All s l)
  | inr e ↦ rw e (h, (k, l))
]

split_netloc-IsTail : (s : Text) → IsTail (split_netloc s).1
unfolding split_netloc
split_netloc-IsTail [] = tt
split_netloc-IsTail (c ∷ s) = elim (Bool-cases (is_delimiter c)) [
  | inl e ↦ rw e e
  | inr e ↦ rw e (split_netloc-IsTail s)
]

netloc_and_rest-IsTail :
    (s : Text) → is_empty (netloc_and_rest s).0 ≡ false → IsTail (netloc_and_rest s).1
unfolding netloc_and_rest
netloc_and_rest-IsTail [] h = tt
netloc_and_rest-IsTail (a ∷ []) h = absurd (ground (arith, h))
netloc_and_rest-IsTail (a ∷ b ∷ s) h = elim (Bool-cases (a == b'/' && b == b'/')) [
  | inl e ↦ rw e (split_netloc-IsTail s)
  | inr e ↦ absurd (ground (arith, rw e at h))
]

-- The path of what follows the network location.
abbrev path_in : Text → Text
path_in rest = (partition b'?' (partition b'#' rest).0).0

before-hit : (c x : ℕ) (s : Text) → (x == c) ≡ true → (partition c (x ∷ s)).0 ≡ []
unfolding partition
before-hit c x s e = rw e refl

before-miss :
    (c x : ℕ) (s : Text) → (x == c) ≡ false → (partition c (x ∷ s)).0 ≡ x ∷ (partition c s).0
unfolding partition
before-miss c x s e = rw e refl

abbrev query_cut : Text → Text
query_cut t = (partition b'?' t).0

nil-IsRooted : (a : ℕ) → IsRooted (partition a []).0
unfolding partition
nil-IsRooted a = tt

path_in-cons : (c : ℕ) (s : Text) → is_delimiter c ≡ true → IsRooted (path_in (c ∷ s))
path_in-cons c s h = elim (Bool-cases (c == b'#')) [
  | inl e ↦ subst IsRooted (sym (ap query_cut (before-hit b'#' c s e))) (nil-IsRooted b'?')
  | inr e ↦
      subst IsRooted (sym (ap query_cut (before-miss b'#' c s e))) (elim (Bool-cases (c == b'?')) [
        | inl f ↦ subst IsRooted (sym (before-hit b'?' c (partition b'#' s).0 f)) tt
        | inr f ↦
            subst IsRooted (sym (before-miss b'?' c (partition b'#' s).0 f))
              (ground (arith, h, e, f))
      ])
]

path_in-IsRooted : (rest : Text) → IsTail rest → IsRooted (path_in rest)
unfolding partition
path_in-IsRooted [] h = tt
path_in-IsRooted (c ∷ s) h = path_in-cons c s h

abbrev IsMarkless : ℕ → Type 0
IsMarkless c = (IsSafe c × (c ≢ b'#')) × (c ≢ b'?')

path_chars : (s : Text) → All IsMarkless s → All IsPathChar s
path_chars [] h = tt
path_chars (c ∷ s) (((a, b), d), h) = ((d, (b, a)), path_chars s h)

path_in-All : (rest : Text) → All IsSafe rest → All IsPathChar (path_in rest)
path_in-All rest h = path_chars (path_in rest) (
    partition-before (λ c. IsSafe c × (c ≢ b'#')) b'?' (partition b'#' rest).0
      (partition-before IsSafe b'#' rest h))

-- What is split, and the parts that it is split into.
abbrev cleaned : Text → Text
cleaned raw = keep (λ c. not (is_unsafe c)) (lstrip (λ c. leb c 32) raw)

abbrev rest_in : Text → Text × Text
rest_in raw = netloc_and_rest (split_scheme (cleaned raw)).1

chosen : (b : Bool) (v r : SplitResult) → (if b then some v else none) ≡ some r → v ≡ r
chosen true v r h = cc
chosen false v r h = cc

urlsplit-parts :
    (py : Python) (raw : Text) (r : SplitResult)
    → urlsplit py raw ≡ some r
    → (r.netloc ≡ (rest_in raw).0) × (r.path ≡ path_in (rest_in raw).1)
unfolding urlsplit
urlsplit-parts py raw r h =
    let same = chosen _ _ r h in (ap (λ q. q.netloc) (sym same), ap (λ q. q.path) (sym same))

-- A path behind a network location is empty or begins with a slash.
pub urlsplit-IsRooted :
    (py : Python) (raw : Text) (r : SplitResult)
    → urlsplit py raw ≡ some r
    → is_empty r.netloc ≡ false
    → IsRooted r.path × All IsPathChar r.path
urlsplit-IsRooted py raw r h ne =
    let (n, p) = urlsplit-parts py raw r h in
    let s = (split_scheme (cleaned raw)).1 in
    let safe = split_scheme-All (cleaned raw) (keep-IsSafe (lstrip (λ c. leb c 32) raw)) in
    rw p (
      path_in-IsRooted (rest_in raw).1 (netloc_and_rest-IsTail s (rw n at ne)),
      path_in-All (rest_in raw).1 (netloc_and_rest-All s safe),
    )

hostname_nil : (py : Python) (r : SplitResult) → r.netloc ≡ [] → host_of (hostname py r) ≡ none
unfolding hostname host_info lower_host partition rpartition
hostname_nil py r e =
    ap
      (λ n.
        host_of (if is_empty (host_info n).0 then none else some (lower_host py (host_info n).0)))
      e

empty-nil : (s : Text) → is_empty s ≡ true → s ≡ []
empty-nil [] h = refl
empty-nil (c ∷ s) h = cc

-- A URL that has a host name has a network location.
pub hostname_ne :
    (py : Python) (r : SplitResult) (host : Text)
    → host_of (hostname py r) ≡ some host
    → is_empty r.netloc ≡ false
hostname_ne py r host h = elim (Bool-cases (is_empty r.netloc)) [
  | inl e ↦ absurd (some_ne (sym h ∙ hostname_nil py r (empty-nil r.netloc e)))
  | inr e ↦ e
]
  where
    some_ne : {a : Text} → some a ≢ none
    some_ne h = cc
