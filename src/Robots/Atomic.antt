-- ===== src/Robots/Atomic.antt =====
-- RobotsPolicy._policy_for as its callers see it: one call is one step, whatever other tasks do.
use webintel.Prelude.{
  ℕ, ◌≡◌, refl, sym, ap, ◌∙◌, Bool, true, false, Option, none, some, Text, ◌==◌, nat_eq, nat_eq_iff,
  text_Eq, if◌then◌else◌, Bool-cases, inl, inr,
}
use mathlib.Core.Path.{fun_ext}
use webintel.Prelude.Dict
use webintel.Robots.Tasks.{
  Pc, begin, waiting, loading, raised, done, update, System, Step, hit, enter, wait, find, acquire,
  loaded, failed, Reach, here, next, IsSafe, Reach-IsSafe,
}

module _ (Policy : Type 0) where
  -- What a call has come to.
  pub data Outcome : Type 0 where
    pending failure : Outcome
    returned : Policy → Outcome

  -- The policies that are known, and what each call has come to.
  pub record Service : Type 0 where
    pub policies : Text → Option Policy
    pub outcome : ℕ → Outcome

  abbrev pub outcome_of : Pc Policy → Outcome
  outcome_of begin = pending
  outcome_of waiting = pending
  outcome_of loading = pending
  outcome_of raised = failure
  outcome_of (done policy) = returned policy

  -- A caller does not see the locks, nor whether a call waits or loads.
  abbrev pub service_of : System Policy → Service
  service_of s = record {
    policies = λ o. Dict.get s.policies o;
    outcome = λ i. outcome_of (s.pc i);
  }

  apply_if :
      (b : Bool) (p q : Pc Policy)
      → outcome_of (if b then p else q) ≡ (if b then outcome_of p else outcome_of q)
  apply_if true p q = refl
  apply_if false p q = refl

  outcome-update :
      (pc : ℕ → Pc Policy) (i : ℕ) (q : Pc Policy)
      → (λ j. outcome_of (update pc i q j)) ≡ update (λ j. outcome_of (pc j)) i (outcome_of q)
  outcome-update pc i q = fun_ext (λ j. apply_if (nat_eq i j) q (pc j))

  outcome-same :
      (pc : ℕ → Pc Policy) (i : ℕ) (q : Pc Policy)
      → outcome_of q ≡ outcome_of (pc i)
      → ◌≡◌ {A = ℕ → Outcome} (λ j. outcome_of (update pc i q j)) (λ j. outcome_of (pc j))
  outcome-same pc i q h = fun_ext (λ j. elim (Bool-cases (nat_eq i j)) [
    | inl at_i ↦ rw at_i (h ∙ ap (λ k. outcome_of (pc k)) ((nat_eq_iff i j).0 at_i))
    | inr other ↦ rw other refl
  ])

module _ (Policy : Type 0) (origin : ℕ → Text) where
  -- A pending call ends: with the policy that is known, with a new one, which is known from then on,
  -- or with an error, if none is known.
  pub data AtomicStep (s t : Service Policy) : Type 0 where
    stays : t ≡ s → AtomicStep s t
    known :
        (i : ℕ) (policy : Policy)
        → s.outcome i ≡ pending
        → s.policies (origin i) ≡ some policy
        → t ≡ record s { outcome = update s.outcome i (returned policy) }
        → AtomicStep s t
    learnt :
        (i : ℕ) (policy : Policy)
        → s.outcome i ≡ pending
        → s.policies (origin i) ≡ none
        → t ≡ record {
          policies = λ o. if origin i == o then some policy else s.policies o;
          outcome = update s.outcome i (returned policy);
        }
        → AtomicStep s t
    refused :
        (i : ℕ)
        → s.outcome i ≡ pending
        → s.policies (origin i) ≡ none
        → t ≡ record s { outcome = update s.outcome i failure }
        → AtomicStep s t

  pub data AtomicReach : Service Policy → Type 0 where
    at_first :
        {s : Service Policy}
        → s ≡ record { policies = λ o. none; outcome = λ i. pending }
        → AtomicReach s
    later : {s t : Service Policy} → AtomicReach s → AtomicStep s t → AtomicReach t

  Step-AtomicStep :
      {s t : System Policy}
      → IsSafe Policy origin s
      → Step Policy origin s t
      → AtomicStep (service_of Policy s) (service_of Policy t)
  Step-AtomicStep {s} h (hit i p a g e) = known i p (ap (outcome_of Policy) a) g (
      rw e (
        ap (λ f. record (service_of Policy s) { outcome = f })
          (outcome-update Policy s.pc i (done p))))
  Step-AtomicStep {s} h (enter i a g l w e) = stays (
      rw e (
        ap (λ f. record (service_of Policy s) { outcome = f })
          (outcome-same Policy s.pc i loading (ap (outcome_of Policy) (sym a)))))
  Step-AtomicStep {s} h (wait i a g l e) = stays (
      rw e (
        ap (λ f. record (service_of Policy s) { outcome = f })
          (outcome-same Policy s.pc i waiting (ap (outcome_of Policy) (sym a)))))
  Step-AtomicStep {s} h (find i rest p a l w g e) = known i p (ap (outcome_of Policy) a) g (
      rw e (
        ap (λ f. record (service_of Policy s) { outcome = f })
          (outcome-update Policy s.pc i (done p))))
  Step-AtomicStep {s} h (acquire i rest a l w g e) = stays (
      rw e (
        ap (λ f. record (service_of Policy s) { outcome = f })
          (outcome-same Policy s.pc i loading (ap (outcome_of Policy) (sym a)))))
  Step-AtomicStep {s} h (loaded i p a e) = learnt i p (ap (outcome_of Policy) a) (h.fresh i a) (
      rw e (λ x. record {
        policies = fun_ext (λ o. Dict.get-set s.policies (origin i) o p) x;
        outcome = outcome-update Policy s.pc i (done p) x;
      }))
  Step-AtomicStep {s} h (failed i a e) = refused i (ap (outcome_of Policy) a) (h.fresh i a) (
      rw e (
        ap (λ f. record (service_of Policy s) { outcome = f })
          (outcome-update Policy s.pc i raised)))

  Reach-AtomicReach :
      {s : System Policy} → Reach Policy origin s → AtomicReach (service_of Policy s)
  unfolding Dict.get
  Reach-AtomicReach {s} (here e) = at_first (rw e refl)
  Reach-AtomicReach (next r st) =
      later (Reach-AtomicReach r) (Step-AtomicStep (Reach-IsSafe Policy origin r) st)

  -- Concurrent calls of `_policy_for` refine calls that take one step each: every state that tasks
  -- can reach is, as its callers see it, one that these calls reach, and every further step of a task
  -- is, as they see it, one such step or none.
  pub tasks-refine :
      {s : System Policy}
      → Reach Policy origin s
      → AtomicReach (service_of Policy s)
        × ((t : System Policy)
            → Step Policy origin s t
            → AtomicStep (service_of Policy s) (service_of Policy t))
  tasks-refine r = (Reach-AtomicReach r, λ t st. Step-AtomicStep (Reach-IsSafe Policy origin r) st)
