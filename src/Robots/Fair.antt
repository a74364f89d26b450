-- ===== src/Robots/Fair.antt =====
-- The locks of the origins are fair, and none of their waiting tasks is forgotten.
use webintel.Prelude.{
  ℕ, ◌≡◌, refl, ap, ◌∙◌, subst, true, false, List, [], ◌∷◌, ◌++◌, Text, ◌==◌, nat_Eq, nat_eq_iff,
  text_Eq, text_eq_iff, Bool-cases, Option-cases, ◌⊎◌, inl, inr, arith, contains,
}
use webintel.Prelude.Dict
use webintel.Robots.Tasks.{
  waiting, loading, done, queue_as, System, Step, hit, enter, wait, find, acquire, loaded, failed,
  Reach, Reach-IsSafe,
}
use webintel.Robots.Queues.{Once, Reach-IsQueued}

-- A queue stays, or gets one more task at its end, or loses its first one.
abbrev pub KeepsOrder : List ℕ → List ℕ → Type 0
KeepsOrder l m = (m ≡ l) ⊎ ((k : ℕ) × (m ≡ l ++ k ∷ [])) ⊎ ((k : ℕ) × (l ≡ k ∷ m))

module _ (Policy : Type 0) (origin : ℕ → Text) where
  queue-KeepsOrder :
      (waiters : Text → List ℕ) (i : ℕ) (m : List ℕ) (o : Text)
      → KeepsOrder (waiters (origin i)) m
      → KeepsOrder (waiters o) (queue_as (origin i) m waiters o)
  queue-KeepsOrder waiters i m o k = elim (Bool-cases (origin i == o)) [
    | inl same ↦
        rw same (subst (λ t. KeepsOrder (waiters t) m) ((text_eq_iff (origin i) o).0 same) k)
    | inr ne ↦ rw ne (inl refl)
  ]

  Step-KeepsOrder :
      {s t : System Policy}
      → Step Policy origin s t
      → (o : Text) → KeepsOrder (s.waiters o) (t.waiters o)
  Step-KeepsOrder (hit i p a g e) o = inl (rw e refl)
  Step-KeepsOrder (enter i a g l w e) o = inl (rw e refl)
  Step-KeepsOrder {s} (wait i a g l e) o =
      rw e (queue-KeepsOrder s.waiters i (s.waiters (origin i) ++ i ∷ []) o (inr (inl (i, refl))))
  Step-KeepsOrder {s} (find i rest p a l w g e) o =
      rw e (queue-KeepsOrder s.waiters i rest o (inr (inr (i, w))))
  Step-KeepsOrder {s} (acquire i rest a l w g e) o =
      rw e (queue-KeepsOrder s.waiters i rest o (inr (inr (i, w))))
  Step-KeepsOrder (loaded i p a e) o = inl (rw e refl)
  Step-KeepsOrder (failed i a e) o = inl (rw e refl)

  -- The first task of a queue whose lock is free takes the lock or finds the policy.
  pub Proceeds : System Policy → ℕ → List ℕ → Type 0
  Proceeds s first rest =
      (t : System Policy) × Step Policy origin s t
      × (t.waiters (origin first) ≡ rest)
      × ((t.pc first ≡ loading) ⊎ ((policy : Policy) × (t.pc first ≡ done policy)))

  pub IsHeld : System Policy → Text → Type 0
  IsHeld s o = (j : ℕ) × (s.pc j ≡ loading) × (origin j ≡ o)

  free-Proceeds :
      (s : System Policy) (i : ℕ) (rest : List ℕ)
      → s.pc i ≡ waiting
      → s.locked (origin i) ≡ false
      → s.waiters (origin i) ≡ i ∷ rest
      → Proceeds s i rest
  unfolding Proceeds
  free-Proceeds s i rest p l w = elim (Option-cases (Dict.get s.policies (origin i))) [
    | inl g ↦ (
      _,
      acquire i rest p l w g refl,
      ground (arith, text_eq_iff (origin i) (origin i)),
      inl (ground (arith, nat_eq_iff i i)),
    )
    | inr (policy, g) ↦ (
      _,
      find i rest policy p l w g refl,
      ground (arith, text_eq_iff (origin i) (origin i)),
      inr (policy, ground (arith, nat_eq_iff i i)),
    )
  ]

  -- A task that waits stands in the queue of its origin, and that queue is not stuck.
  pub IsMoving : System Policy → ℕ → Type 0
  IsMoving s i =
      (first : ℕ) × (rest : List ℕ) × (s.waiters (origin i) ≡ first ∷ rest)
      × (contains (first ∷ rest) i ≡ true)
      × (s.pc first ≡ waiting)
      × (origin first ≡ origin i)
      × (IsHeld s (origin i) ⊎ Proceeds s first rest)

  waiting-IsMoving :
      (s : System Policy) (i : ℕ) (queue : List ℕ)
      → Reach Policy origin s
      → s.waiters (origin i) ≡ queue
      → contains queue i ≡ true
      → IsMoving s i
  unfolding IsMoving IsHeld
  waiting-IsMoving s i [] r w c = absurd (ground (arith, c))
  waiting-IsMoving s i (first ∷ rest) r w c =
      let q = Reach-IsQueued Policy origin r in
      let own : contains (s.waiters (origin i)) first ≡ true =
        ground (arith, ap (λ l. contains l first) w, nat_eq_iff first first) in
      let p : s.pc first ≡ waiting = q.waits (origin i) first own in
      let same : origin first ≡ origin i = q.of_origin (origin i) first own in
      (
        first,
        rest,
        w,
        c,
        p,
        same,
        elim (Bool-cases (s.locked (origin i))) [
          | inl locked ↦ inl ((Reach-IsSafe Policy origin r).owned (origin i) locked)
          | inr free ↦
              inr (free-Proceeds s first rest p (ap s.locked same ∙ free) (ap s.waiters same ∙ w))
        ],
      )

  -- In every reachable state, a task that waits stands once in the queue of its origin; either some
  -- task of this origin holds the lock and loads, or the first task of the queue can step, to hold the
  -- lock or to return, and then leaves the rest of the queue. No step of any task changes the queue
  -- but by one more task at its end or by its first one leaving, so that nobody is overtaken.
  pub no_deadlock :
      {s : System Policy}
      → Reach Policy origin s
      → (i : ℕ) → s.pc i ≡ waiting
      → IsMoving s i
        × Once (s.waiters (origin i))
        × ((t : System Policy)
            → Step Policy origin s t
            → KeepsOrder (s.waiters (origin i)) (t.waiters (origin i)))
  no_deadlock {s} r i p =
      let q = Reach-IsQueued Policy origin r in
      (
        waiting-IsMoving s i (s.waiters (origin i)) r refl (q.placed i p),
        q.once (origin i),
        λ t st. Step-KeepsOrder st (origin i),
      )
