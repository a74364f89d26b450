-- ===== src/Robots/Queues.antt =====
-- The queue of a lock holds the tasks that wait for it.
use webintel.Prelude.{
  ℕ, ◌≡◌, ◌≢◌, refl, sym, ap, ◌∙◌, subst, true, false, ◌||◌, List, [], ◌∷◌, ◌++◌, Text, ◌==◌,
  nat_eq, nat_Eq, nat_eq_iff, text_Eq, text_eq_iff, Bool-cases, inl, inr, arith, contains,
}
use webintel.Robots.Tasks.{
  Pc, begin, waiting, loading, raised, done, update, queue_as, System, Step, hit, enter, wait, find,
  acquire, loaded, failed, Reach, here, next,
}

-- No task stands twice.
abbrev pub Once : List ℕ → Type 0
Once [] = Unit
Once (i ∷ l) = (contains l i ≡ false) × Once l

contains-append : (l : List ℕ) (i j : ℕ) → contains (l ++ i ∷ []) j ≡ (contains l j || nat_eq i j)
contains-append [] i j = ground arith
contains-append (k ∷ l) i j = ground (arith, contains-append l i j)

append-Once : (l : List ℕ) (i : ℕ) → contains l i ≡ false → Once l → Once (l ++ i ∷ [])
append-Once [] i h k = (refl, tt)
append-Once (j ∷ l) i h (f, k) =
    ground (arith, h, contains-append l i j, nat_eq_iff j i, nat_eq_iff i j, append-Once l i)

module _ (Policy : Type 0) (origin : ℕ → Text) where
  -- The queues hold the waiting tasks of their origins, each once.
  pub record IsQueued (pc : ℕ → Pc Policy) (waiters : Text → List ℕ) : Type 0 where
    pub placed : (i : ℕ) → pc i ≡ waiting → contains (waiters (origin i)) i ≡ true
    pub waits : (o : Text) (i : ℕ) → contains (waiters o) i ≡ true → pc i ≡ waiting
    pub of_origin : (o : Text) (i : ℕ) → contains (waiters o) i ≡ true → origin i ≡ o
    pub once : (o : Text) → Once (waiters o)

  other-IsQueued :
      (pc : ℕ → Pc Policy) (waiters : Text → List ℕ) (i : ℕ) (q : Pc Policy)
      → pc i ≢ waiting
      → q ≢ waiting
      → IsQueued pc waiters
      → IsQueued (update pc i q) waiters
  other-IsQueued pc waiters i q was is h = record {
    placed = λ j a. ground (arith, h.placed j, nat_eq_iff i j);
    waits = λ o j a. ground (arith, h.waits o j a, nat_eq_iff i j);
    of_origin = h.of_origin;
    once = h.once;
  }

  -- What a task that begins to wait, or that takes the lock, leaves of its queue.
  module _ (pc : ℕ → Pc Policy) (waiters : Text → List ℕ) (i : ℕ) (h : IsQueued pc waiters) where
    queue_of :
        (j : ℕ)
        → (origin i == origin j) ≡ true
        → contains (waiters (origin i)) j ≡ contains (waiters (origin j)) j
    queue_of j same = ap (λ t. contains (waiters t) j) ((text_eq_iff (origin i) (origin j)).0 same)

    not_own : (o : Text) (j : ℕ) → (origin i == o) ≡ false → origin j ≡ o → nat_eq i j ≡ false
    not_own o j ne e = elim (Bool-cases (nat_eq i j)) [
      | inl same ↦ absurd (
          ground
            (arith, ne, (text_eq_iff (origin i) o).1 (ap origin ((nat_eq_iff i j).0 same) ∙ e)))
      | inr other ↦ other
    ]

    wait-IsQueued :
        pc i ≡ begin
        → IsQueued
            (update pc i waiting)
            (queue_as (origin i) (waiters (origin i) ++ i ∷ []) waiters)
    wait-IsQueued p = record {
      placed = λ j a. elim (Bool-cases (origin i == origin j)) [
        | inl same ↦ rw same (
            contains-append (waiters (origin i)) i j
            ∙ ground (arith, h.placed j, queue_of j same, a))
        | inr ne ↦ rw ne (ground (arith, h.placed j, not_own (origin j) j ne refl, a))
      ];
      waits = λ o j a. elim (Bool-cases (origin i == o)) [
        | inl same ↦
            ground
              (arith, h.waits (origin i) j, contains-append (waiters (origin i)) i j, rw same at a)
        | inr ne ↦ ground (arith, h.waits o j (rw ne at a))
      ];
      of_origin = λ o j a. elim (Bool-cases (origin i == o)) [
        | inl same ↦ elim (Bool-cases (nat_eq i j)) [
          | inl me ↦ ap origin (sym ((nat_eq_iff i j).0 me)) ∙ (text_eq_iff (origin i) o).0 same
          | inr other ↦
              h.of_origin (origin i) j
                (ground (arith, contains-append (waiters (origin i)) i j, rw same at a, other))
              ∙ (text_eq_iff (origin i) o).0 same
        ]
        | inr ne ↦ h.of_origin o j (rw ne at a)
      ];
      once = λ o. elim (Bool-cases (origin i == o)) [
        | inl same ↦ rw same (append-Once (waiters (origin i)) i fresh (h.once (origin i)))
        | inr ne ↦ rw ne (h.once o)
      ];
    }
      where
        fresh : contains (waiters (origin i)) i ≡ false
        fresh = elim (Bool-cases (contains (waiters (origin i)) i)) [
          | inl c ↦ absurd (ground (arith, h.waits (origin i) i c, p))
          | inr other ↦ other
        ]

    take-IsQueued :
        (rest : List ℕ) (q : Pc Policy)
        → waiters (origin i) ≡ i ∷ rest
        → q ≢ waiting
        → IsQueued (update pc i q) (queue_as (origin i) rest waiters)
    take-IsQueued rest q w is = record {
      placed = λ j a. elim (Bool-cases (origin i == origin j)) [
        | inl same ↦ rw same (
            ground (
              arith,
              is,
              h.placed j,
              queue_of j same,
              ap (λ l. contains l j) w,
              nat_eq_iff i j,
              nat_eq_iff j i,
              a,
            ))
        | inr ne ↦ rw ne (ground (arith, h.placed j, not_own (origin j) j ne refl, a))
      ];
      waits = λ o j a. elim (Bool-cases (origin i == o)) [
        | inl same ↦ still j (rw same at a)
        | inr ne ↦
            ground (arith, h.waits o j (rw ne at a), not_own o j ne (h.of_origin o j (rw ne at a)))
      ];
      of_origin = λ o j a. elim (Bool-cases (origin i == o)) [
        | inl same ↦
            h.of_origin (origin i) j (behind j (rw same at a)) ∙ (text_eq_iff (origin i) o).0 same
        | inr ne ↦ h.of_origin o j (rw ne at a)
      ];
      once = λ o. elim (Bool-cases (origin i == o)) [
        | inl same ↦ rw same (subst Once w (h.once (origin i))).1
        | inr ne ↦ rw ne (h.once o)
      ];
    }
      where
        behind : (j : ℕ) → contains rest j ≡ true → contains (waiters (origin i)) j ≡ true
        behind j c = ground (arith, ap (λ l. contains l j) w, c)

        still : (j : ℕ) → contains rest j ≡ true → update pc i q j ≡ waiting
        still j c = elim (Bool-cases (nat_eq i j)) [
          | inl me ↦ absurd (
              ground (
                arith,
                c,
                ap (contains rest) ((nat_eq_iff i j).0 me),
                (subst Once w (h.once (origin i))).0,
              ))
          | inr other ↦ ground (arith, other, h.waits (origin i) j (behind j c))
        ]

  Step-IsQueued :
      {s t : System Policy}
      → Step Policy origin s t
      → IsQueued s.pc s.waiters
      → IsQueued t.pc t.waiters
  Step-IsQueued {s} (hit i p a g e) h =
      rw e (other-IsQueued s.pc s.waiters i (done p) (λ k. ground (arith, a, k)) (λ k. cc) h)
  Step-IsQueued {s} (enter i a g l w e) h =
      rw e (other-IsQueued s.pc s.waiters i loading (λ k. ground (arith, a, k)) (λ k. cc) h)
  Step-IsQueued {s} (wait i a g l e) h = rw e (wait-IsQueued s.pc s.waiters i h a)
  Step-IsQueued {s} (find i rest p a l w g e) h =
      rw e (take-IsQueued s.pc s.waiters i h rest (done p) w (λ k. cc))
  Step-IsQueued {s} (acquire i rest a l w g e) h =
      rw e (take-IsQueued s.pc s.waiters i h rest loading w (λ k. cc))
  Step-IsQueued {s} (loaded i p a e) h =
      rw e (other-IsQueued s.pc s.waiters i (done p) (λ k. ground (arith, a, k)) (λ k. cc) h)
  Step-IsQueued {s} (failed i a e) h =
      rw e (other-IsQueued s.pc s.waiters i raised (λ k. ground (arith, a, k)) (λ k. cc) h)

  pub Reach-IsQueued : {s : System Policy} → Reach Policy origin s → IsQueued s.pc s.waiters
  Reach-IsQueued (here e) =
      rw e (record {
        placed = λ i a. cc;
        waits = λ o i a. cc;
        of_origin = λ o i a. cc;
        once = λ o. tt;
      })
  Reach-IsQueued (next r st) = Step-IsQueued st (Reach-IsQueued r)
