-- ===== src/Py/Str/Chars.antt =====
-- A property of every character of a text, through Python's operations on texts.
use webintel.Prelude.{
  ℕ, ◌≢◌, inl, inr, Bool, List, [], ◌∷◌, ◌==◌, nat_Eq, Text, All, All-append, Bool-cases, arith,
}
use webintel.Py.Str.{rstrip, rcons, split, cons_first, join, partition}

module _ (P : ℕ → Type 0) where
  rcons-All : (p : ℕ → Bool) (c : ℕ) (s : Text) → P c → All P s → All P (rcons p c s)
  rcons-All p c [] h k = elim (Bool-cases (p c)) [ inl e ↦ rw e tt | inr e ↦ rw e (h, tt) ]
  rcons-All p c (d ∷ s) h k = (h, k)

  pub rstrip-All : (p : ℕ → Bool) (s : Text) → All P s → All P (rstrip p s)
  unfolding rstrip
  rstrip-All p [] h = tt
  rstrip-All p (c ∷ s) (h, k) = rcons-All p c (rstrip p s) h (rstrip-All p s k)

  cons_first-All : (c : ℕ) (ss : List Text) → P c → All (All P) ss → All (All P) (cons_first c ss)
  cons_first-All c [] h k = ((h, tt), tt)
  cons_first-All c (s ∷ ss) h (k, ks) = ((h, k), ks)

  pub split-All : (c : ℕ) (s : Text) → All P s → All (All P) (split c s)
  unfolding split
  split-All c [] h = (tt, tt)
  split-All c (x ∷ s) (h, k) = elim (Bool-cases (x == c)) [
    | inl e ↦ rw e (tt, split-All c s k)
    | inr e ↦ rw e (cons_first-All x (split c s) h (split-All c s k))
  ]

  pub join-All : (c : ℕ) (ss : List Text) → P c → All (All P) ss → All P (join c ss)
  unfolding join
  join-All c [] h k = tt
  join-All c (s ∷ []) h (k, ks) = k
  join-All c (s ∷ t ∷ ss) h (k, ks) =
      All-append P s (c ∷ join c (t ∷ ss)) k (h, join-All c (t ∷ ss) h ks)

  -- The two sides of a separator.
  pub partition-All :
      (c : ℕ) (s : Text) → All P s → All P (partition c s).0 × All P (partition c s).2
  unfolding partition
  partition-All c [] h = (tt, tt)
  partition-All c (x ∷ s) (h, k) =
      let (a, b) = partition-All c s k in
      elim (Bool-cases (x == c)) [ inl e ↦ rw e (tt, k) | inr e ↦ rw e ((h, a), b) ]

  -- The text before a separator does not contain it.
  pub partition-before : (c : ℕ) (s : Text) → All P s → All (λ x. P x × (x ≢ c)) (partition c s).0
  unfolding partition
  partition-before c [] h = tt
  partition-before c (x ∷ s) (h, k) = elim (Bool-cases (x == c)) [
    | inl e ↦ rw e tt
    | inr e ↦ rw e ((h, ground (arith, e)), partition-before c s k)
  ]
