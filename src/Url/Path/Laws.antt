-- ===== src/Url/Path/Laws.antt =====
-- The normal form of a path is its own normal form.
use webintel.Prelude.{
  ℕ, ◌≡◌, ◌≢◌, false, List, [], ◌∷◌, ◌++◌, arith, ◌==◌, nat_Eq, text_Eq, Text, All, inl, inr,
  Bool-cases,
}
use webintel.Py.Str.{split, join, cons_first}
use webintel.Py.Posix.Laws.{NoSlash, IsPlain}
use webintel.Url.Percent.Laws.{IsCanonical, nil, plain, escape, hex_digit_above}

-- A component of a normal path.
abbrev pub IsPart : Text → Type 0
IsPart c = IsPlain c × (NoSlash c × IsCanonical c)

pub data IsNormalPath : Text → Type 0 where
  root : IsNormalPath []
  one_slash :
      (c : Text) (cs : List Text) → All IsPart (c ∷ cs) → IsNormalPath (b'/' ∷ join b'/' (c ∷ cs))
  two_slashes :
      (c : Text) (cs : List Text)
      → All IsPart (c ∷ cs)
      → IsNormalPath (b'/' ∷ b'/' ∷ join b'/' (c ∷ cs))

pub IsCanonical-append : {s t : Text} → IsCanonical s → IsCanonical t → IsCanonical (s ++ t)
IsCanonical-append nil k = k
IsCanonical-append (plain ne h) k = plain ne (IsCanonical-append h k)
IsCanonical-append (escape x y p a b hh hl re h) k =
    escape x y p a b hh hl re (IsCanonical-append h k)

cons_first-IsCanonical :
    {c : ℕ} (ss : List Text) → c ≢ b'%' → All IsCanonical ss → All IsCanonical (cons_first c ss)
cons_first-IsCanonical [] ne h = (plain ne nil, tt)
cons_first-IsCanonical (s ∷ ss) ne (h, hs) = (plain ne h, hs)

cons_escape-IsCanonical :
    (p a b h l : ℕ) (ss : List Text)
    → ((s : Text) → IsCanonical s → IsCanonical (p ∷ a ∷ b ∷ s))
    → All IsCanonical ss
    → All IsCanonical (cons_first p (cons_first a (cons_first b ss)))
cons_escape-IsCanonical p a b h l [] f k = (f [] nil, tt)
cons_escape-IsCanonical p a b h l (s ∷ ss) f (k, ks) = (f s k, ks)

split-cons_ne : (c : ℕ) (s : Text) → c ≢ b'/' → split b'/' (c ∷ s) ≡ cons_first c (split b'/' s)
unfolding split
split-cons_ne c s ne = let e : (c == b'/') ≡ false = ground (arith, ne) in rw e

pub split-IsCanonical : {s : Text} → IsCanonical s → All IsCanonical (split b'/' s)
unfolding split
split-IsCanonical nil = (nil, tt)
split-IsCanonical (plain {c} {s} ne h) = elim (Bool-cases (c == b'/')) [
  | inl e ↦ rw e (nil, split-IsCanonical h)
  | inr e ↦ rw e (cons_first-IsCanonical (split b'/' s) ne (split-IsCanonical h))
]
split-IsCanonical (escape {p} {a} {b} {s} x y ep ea eb hx hy re h) =
    rw (split-cons_ne p (a ∷ b ∷ s) (omega arith)) (
      rw (split-cons_ne a (b ∷ s) (omega (arith, hex_digit_above x))) (
        rw (split-cons_ne b s (omega (arith, hex_digit_above y))) (
          cons_escape-IsCanonical p a b x y (split b'/' s) (λ t k. escape x y ep ea eb hx hy re k)
            (split-IsCanonical h))))

pub join-IsCanonical :
    (c : Text) (cs : List Text) → All IsPart (c ∷ cs) → IsCanonical (join b'/' (c ∷ cs))
unfolding join
join-IsCanonical c [] ((_, (_, k)), _) = k
join-IsCanonical c (d ∷ cs) ((_, (_, k)), h) =
    IsCanonical-append k (plain (omega arith) (join-IsCanonical d cs h))
