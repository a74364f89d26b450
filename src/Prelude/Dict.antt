-- ===== src/Prelude/Dict.antt =====
-- Python's `dict` as the program uses it: entries in order of first insertion, and an assignment
-- to a key that is present keeps its place.
use webintel.Prelude.Tests.{Eq, ◌==◌, if◌then◌else◌, is_some, Bool-cases}
use mathlib.Core.Path.{◌≡◌, refl}
use mathlib.Core.Logic.{inl, inr}
use mathlib.Core.Bool.{Bool, true, false, ◌||◌}
use mathlib.Core.Option.{Option, none, some}
use mathlib.Core.List.{List, [], ◌∷◌, ◌++◌}
use native.Mathlib.Omega.{arith}
use webintel.Prelude.Lists.{All}

abbrev pub Dict {ℓ κ} : Type ℓ → Type κ → Type (ℓ ⊔ κ)
Dict K V = List (K × V)

module _ {ℓ κ} {K : Type ℓ} {V : Type κ} where
  -- d.keys(), d.values()
  abbrev pub keys : Dict K V → List K
  keys [] = []
  keys ((k, v) ∷ d) = k ∷ keys d

  abbrev pub values : Dict K V → List V
  values [] = []
  values ((k, v) ∷ d) = v ∷ values d

module _ {ℓ κ} {K : Type ℓ} {V : Type κ} ⦃e : Eq K⦄ where
  -- d.get(k)
  unfoldable pub get : Dict K V → K → Option V
  get [] k = none
  get ((j, v) ∷ d) k = if j == k then some v else get d k

  -- k in d
  unfoldable pub has : Dict K V → K → Bool
  has [] k = false
  has ((j, v) ∷ d) k = j == k || has d k

  -- d[k] = v
  unfoldable pub set : Dict K V → K → V → Dict K V
  set [] k v = (k, v) ∷ []
  set ((j, w) ∷ d) k v = if j == k then (j, v) ∷ d else (j, w) ∷ set d k v

  -- d.setdefault(k, v), for its effect on d
  unfoldable pub set_default : Dict K V → K → V → Dict K V
  unfolding has
  set_default d k v = if has d k then d else d ++ (k, v) ∷ []

  -- No key stands twice.
  abbrev pub HasDistinctKeys : Dict K V → Type 0
  HasDistinctKeys [] = Unit
  HasDistinctKeys ((k, v) ∷ d) = (has d k ≡ false) × HasDistinctKeys d

  pub get-set :
      (d : Dict K V) (k j : K) (v : V) → get (set d k v) j ≡ (if k == j then some v else get d j)
  unfolding get set
  get-set [] k j v = refl
  get-set ((i, w) ∷ d) k j v =
      ground (arith, e.equal_iff k j, e.equal_iff i k, e.equal_iff i j, get-set d k j v)

  pub has-set : (d : Dict K V) (k j : K) (v : V) → has (set d k v) j ≡ (k == j || has d j)
  unfolding has set
  has-set [] k j v = refl
  has-set ((i, w) ∷ d) k j v =
      ground (arith, e.equal_iff k j, e.equal_iff i k, e.equal_iff i j, has-set d k j v)

  pub has-append : (d : Dict K V) (k j : K) (v : V) → has (d ++ (k, v) ∷ []) j ≡ (k == j || has d j)
  unfolding has
  has-append [] k j v = refl
  has-append ((i, w) ∷ d) k j v =
      ground (arith, e.equal_iff k j, e.equal_iff i j, has-append d k j v)

  pub set-HasDistinctKeys :
      (d : Dict K V) (k : K) (v : V) → HasDistinctKeys d → HasDistinctKeys (set d k v)
  unfolding set has
  set-HasDistinctKeys [] k v h = (refl, tt)
  set-HasDistinctKeys ((i, w) ∷ d) k v (f, h) =
      ground (arith, has-set d k i v, e.equal_iff i k, e.equal_iff k i, set-HasDistinctKeys d k v h)

  append-HasDistinctKeys :
      (d : Dict K V) (k : K) (v : V)
      → has d k ≡ false
      → HasDistinctKeys d
      → HasDistinctKeys (d ++ (k, v) ∷ [])
  unfolding has
  append-HasDistinctKeys [] k v f h = (refl, tt)
  append-HasDistinctKeys ((i, w) ∷ d) k v f (g, h) =
      ground
        (arith, has-append d k i v, e.equal_iff i k, e.equal_iff k i, append-HasDistinctKeys d k v)

  pub set_default-HasDistinctKeys :
      (d : Dict K V) (k : K) (v : V) → HasDistinctKeys d → HasDistinctKeys (set_default d k v)
  unfolding set_default
  set_default-HasDistinctKeys d k v h = elim (Bool-cases (has d k)) [
    | inl old ↦ rw old h
    | inr new ↦ rw new (append-HasDistinctKeys d k v new h)
  ]

  pub has-set_default :
      (d : Dict K V) (k j : K) (v : V) → has (set_default d k v) j ≡ (k == j || has d j)
  unfolding set_default
  has-set_default d k j v = elim (Bool-cases (has d k)) [
    | inl old ↦ rw old (ground (arith, e.equal_iff k j, old))
    | inr new ↦ rw new (has-append d k j v)
  ]

  pub get-append_self :
      (d : Dict K V) (k : K) (v : V) → has d k ≡ false → get (d ++ (k, v) ∷ []) k ≡ some v
  unfolding get has
  get-append_self [] k v h = ground (arith, e.equal_iff k k)
  get-append_self ((i, w) ∷ d) k v h = ground (arith, e.equal_iff i k, get-append_self d k v)

  pub has-eq-is_some : (d : Dict K V) (k : K) → has d k ≡ is_some (get d k)
  unfolding get has
  has-eq-is_some [] k = refl
  has-eq-is_some ((i, w) ∷ d) k = ground (arith, has-eq-is_some d k)

  -- What holds of each key that the dictionary has holds of all its keys.
  pub keys-All {μ} :
      (P : K → Type μ) (d : Dict K V) → ((k : K) → has d k ≡ true → P k) → All P (keys d)
  unfolding has
  keys-All P [] f = tt
  keys-All P ((k, v) ∷ d) f =
      (f k (ground (arith, e.equal_iff k k)), keys-All P d (λ j h. f j (ground (arith, h))))
