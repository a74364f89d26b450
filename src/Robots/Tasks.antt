-- ===== src/Robots/Tasks.antt =====
-- RobotsPolicy._policy_for as concurrent tasks run it: each call waits for the lock of its origin,
-- and is atomic between two waits. `locks.setdefault` makes one lock for each origin. An
-- asyncio.Lock is fair: a task takes it at once only if it is free and nobody waits, and else the
-- tasks take it in the order in which they began to wait. No task is cancelled.
use webintel.Prelude.{
  ℕ, ◌≡◌, ◌≢◌, refl, sym, ap, ◌∙◌, Bool, true, false, [], none, some, Text, ◌==◌, nat_eq,
  nat_eq_iff, text_Eq, text_eq_iff, if◌then◌else◌, Bool-cases, inl, inr, arith, List, ◌∷◌, ◌++◌,
  ◌⊎◌, nat_Eq,
}
use webintel.Prelude.Dict
use webintel.Prelude.Dict.{Dict}

abbrev pub update {ℓ} : {A : Type ℓ} → (ℕ → A) → ℕ → A → ℕ → A
update f i a j = if nat_eq i j then a else f j

abbrev pub lock_as : Bool → Text → (Text → Bool) → Text → Bool
lock_as b o locked t = if o == t then b else locked t

abbrev pub queue_as : Text → List ℕ → (Text → List ℕ) → Text → List ℕ
queue_as o queue waiters t = if o == t then queue else waiters t

module _ (Policy : Type 0) where
  -- Where a task is: at the call, before the lock, within `_load`, behind the return or the raise.
  pub data Pc : Type 0 where
    begin waiting loading raised : Pc
    done : Policy → Pc

  pub record System : Type 0 where
    pub policies : Dict Text Policy
    pub locked : Text → Bool
    -- The tasks that wait for the lock of an origin, the first one first.
    pub waiters : Text → List ℕ
    pub pc : ℕ → Pc

module _ (Policy : Type 0) (origin : ℕ → Text) where
  -- One task runs from one wait to the next.
  pub data Step (s t : System Policy) : Type 0 where
    hit :
        (i : ℕ) (policy : Policy)
        → s.pc i ≡ begin
        → Dict.get s.policies (origin i) ≡ some policy
        → t ≡ record s { pc = update s.pc i (done policy) }
        → Step s t
    enter :
        (i : ℕ)
        → s.pc i ≡ begin
        → Dict.get s.policies (origin i) ≡ none
        → s.locked (origin i) ≡ false
        → s.waiters (origin i) ≡ []
        → t ≡ record s { pc = update s.pc i loading; locked = lock_as true (origin i) s.locked }
        → Step s t
    wait :
        (i : ℕ)
        → s.pc i ≡ begin
        → Dict.get s.policies (origin i) ≡ none
        → (s.locked (origin i) ≡ true) ⊎ (s.waiters (origin i) ≢ [])
        → t ≡ record s {
          pc = update s.pc i waiting;
          waiters = queue_as (origin i) (s.waiters (origin i) ++ i ∷ []) s.waiters;
        }
        → Step s t
    find :
        (i : ℕ) (rest : List ℕ) (policy : Policy)
        → s.pc i ≡ waiting
        → s.locked (origin i) ≡ false
        → s.waiters (origin i) ≡ i ∷ rest
        → Dict.get s.policies (origin i) ≡ some policy
        → t ≡ record s {
          pc = update s.pc i (done policy);
          waiters = queue_as (origin i) rest s.waiters;
        }
        → Step s t
    acquire :
        (i : ℕ) (rest : List ℕ)
        → s.pc i ≡ waiting
        → s.locked (origin i) ≡ false
        → s.waiters (origin i) ≡ i ∷ rest
        → Dict.get s.policies (origin i) ≡ none
        → t ≡ record s {
          pc = update s.pc i loading;
          locked = lock_as true (origin i) s.locked;
          waiters = queue_as (origin i) rest s.waiters;
        }
        → Step s t
    loaded :
        (i : ℕ) (policy : Policy)
        → s.pc i ≡ loading
        → t ≡ record s {
          policies = Dict.set s.policies (origin i) policy;
          pc = update s.pc i (done policy);
          locked = lock_as false (origin i) s.locked;
        }
        → Step s t
    failed :
        (i : ℕ)
        → s.pc i ≡ loading
        → t ≡ record s { pc = update s.pc i raised; locked = lock_as false (origin i) s.locked }
        → Step s t

  abbrev pub init : System Policy
  init = record { policies = []; locked = λ t. false; waiters = λ t. []; pc = λ i. begin }

  pub data Reach : System Policy → Type 0 where
    here : {s : System Policy} → s ≡ init → Reach s
    next : {s t : System Policy} → Reach s → Step s t → Reach t

  pub record IsSafe (s : System Policy) : Type 0 where
    pub one : (i j : ℕ) → s.pc i ≡ loading → s.pc j ≡ loading → origin i ≡ origin j → i ≡ j
    pub held : (i : ℕ) → s.pc i ≡ loading → s.locked (origin i) ≡ true
    pub owned : (t : Text) → s.locked t ≡ true → (i : ℕ) × (s.pc i ≡ loading) × (origin i ≡ t)
    pub fresh : (i : ℕ) → s.pc i ≡ loading → Dict.get s.policies (origin i) ≡ none
    pub agreed :
        (i : ℕ) (policy : Policy)
        → s.pc i ≡ done policy
        → Dict.get s.policies (origin i) ≡ some policy

  init-IsSafe : (s : System Policy) → s ≡ init → IsSafe s
  init-IsSafe s e = rw e (record {
    one = λ i j h. cc;
    held = λ i h. cc;
    owned = λ t h. cc;
    fresh = λ i h. cc;
    agreed = λ i policy h. cc;
  })

  hit-IsSafe :
      (s : System Policy) (i : ℕ) (q : Pc Policy) (waiters : Text → List ℕ)
      → s.pc i ≢ loading
      → q ≢ loading
      → ((policy : Policy) → q ≡ done policy → Dict.get s.policies (origin i) ≡ some policy)
      → IsSafe s
      → IsSafe (record s { pc = update s.pc i q; waiters = waiters })
  hit-IsSafe s i q waiters was is good h = record {
    one = λ j k a b o. ground (arith, h.one j k, nat_eq_iff i j, nat_eq_iff i k);
    held = λ j a. ground (arith, h.held j, nat_eq_iff i j);
    owned = λ t a. let (k, b, o) = h.owned t a in (k, ground (arith, nat_eq_iff i k), o);
    fresh = λ j a. ground (arith, h.fresh j, nat_eq_iff i j);
    agreed = λ j policy a. ground (arith, good policy, h.agreed j policy, nat_eq_iff i j);
  }

  acquire-IsSafe :
      (s : System Policy) (i : ℕ) (waiters : Text → List ℕ)
      → s.pc i ≢ loading
      → s.locked (origin i) ≡ false
      → Dict.get s.policies (origin i) ≡ none
      → IsSafe s
      → IsSafe (record s {
        pc = update s.pc i loading;
        locked = lock_as true (origin i) s.locked;
        waiters = waiters;
      })
  acquire-IsSafe s i waiters was free new h = record {
    one =
        λ j k a b o. ground (arith, h.one j k, h.held j, h.held k, nat_eq_iff i j, nat_eq_iff i k);
    held = λ j a. ground (arith, h.held j, nat_eq_iff i j, text_eq_iff (origin i) (origin j));
    owned = λ t a. elim (Bool-cases (origin i == t)) [
      | inl same ↦ (i, ground (arith, nat_eq_iff i i), (text_eq_iff (origin i) t).0 same)
      | inr ne ↦ let (k, b, o) = h.owned t (rw ne at a) in (k, ground (arith, nat_eq_iff i k), o)
    ];
    fresh = λ j a. ground (arith, h.fresh j, nat_eq_iff i j);
    agreed = λ j policy a. ground (arith, h.agreed j policy, nat_eq_iff i j);
  }

  -- The lock is released; the policy of the origin may have been stored.
  release-IsSafe :
      (s : System Policy) (i : ℕ) (q : Pc Policy) (policies : Dict Text Policy)
      → s.pc i ≡ loading
      → q ≢ loading
      → ((t : Text) → t ≢ origin i → Dict.get policies t ≡ Dict.get s.policies t)
      → ((policy : Policy) → q ≡ done policy → Dict.get policies (origin i) ≡ some policy)
      → IsSafe s
      → IsSafe (record {
        policies = policies;
        pc = update s.pc i q;
        locked = lock_as false (origin i) s.locked;
        waiters = s.waiters;
      })
  release-IsSafe s i q policies was is others own h = record {
    one = λ j k a b o. ground (arith, h.one j k, nat_eq_iff i j, nat_eq_iff i k);
    held = λ j a.
        ground (arith, h.held j, h.one i j, nat_eq_iff i j, text_eq_iff (origin i) (origin j));
    owned = λ t a. elim (Bool-cases (origin i == t)) [
      | inl same ↦ absurd (ground (arith, a, same))
      | inr ne ↦
          let (k, b, o) = h.owned t (rw ne at a) in
          (k, ground (arith, nat_eq_iff i k, text_eq_iff (origin i) t), o)
    ];
    fresh = λ j a.
        others (origin j) (λ e. ground (arith, h.one i j, nat_eq_iff i j, sym e))
        ∙ ground (arith, h.fresh j, nat_eq_iff i j);
    agreed = λ j policy a. elim (Bool-cases (nat_eq i j)) [
      | inl same ↦
          let e : i ≡ j = (nat_eq_iff i j).0 same in
          ap (λ k. Dict.get policies (origin k)) (sym e) ∙ own policy (rw same at a)
      | inr ne ↦
          let known : Dict.get s.policies (origin j) ≡ some policy =
            h.agreed j policy (rw ne at a) in
          others (origin j) (λ e. ground (arith, h.fresh i, ap (Dict.get s.policies) e, known))
          ∙ known
    ];
  }

  Step-IsSafe : {s t : System Policy} → Step s t → IsSafe s → IsSafe t
  Step-IsSafe {s} (hit i policy p g e) h = rw e (
      hit-IsSafe s i (done policy) s.waiters (λ k. ground (arith, p, k)) (λ k. cc)
        (λ q k. ground (arith, k, g)) h)
  Step-IsSafe {s} (enter i p g l w e) h =
      rw e (acquire-IsSafe s i s.waiters (λ k. ground (arith, p, k)) l g h)
  Step-IsSafe {s} (wait i p g l e) h =
      rw e (hit-IsSafe s i waiting _ (λ k. ground (arith, p, k)) (λ k. cc) (λ q k. cc) h)
  Step-IsSafe {s} (find i rest policy p l w g e) h = rw e (
      hit-IsSafe s i (done policy) _ (λ k. ground (arith, p, k)) (λ k. cc)
        (λ q k. ground (arith, k, g)) h)
  Step-IsSafe {s} (acquire i rest p l w g e) h =
      rw e (acquire-IsSafe s i _ (λ k. ground (arith, p, k)) l g h)
  Step-IsSafe {s} (loaded i policy p e) h = rw e (
      release-IsSafe s i (done policy) (Dict.set s.policies (origin i) policy) p (λ k. cc)
        (λ t ne.
          Dict.get-set s.policies (origin i) t policy
          ∙ ground (arith, text_eq_iff (origin i) t, ne))
        (λ q k.
          Dict.get-set s.policies (origin i) (origin i) policy
          ∙ ground (arith, text_eq_iff (origin i) (origin i), k))
        h)
  Step-IsSafe {s} (failed i p e) h =
      rw e (release-IsSafe s i raised s.policies p (λ k. cc) (λ t ne. refl) (λ q k. cc) h)

  pub Reach-IsSafe : {s : System Policy} → Reach s → IsSafe s
  Reach-IsSafe {s} (here e) = init-IsSafe s e
  Reach-IsSafe (next r st) = Step-IsSafe st (Reach-IsSafe r)
