-- ===== src/Robots/Safety.antt =====
-- What holds of every interleaving of tasks that ask for policies.
use webintel.Prelude.{ℕ, ◌≡◌, ap, ◌∙◌, none, some, Text, text_Eq, text_eq_iff, arith}
use webintel.Prelude.Dict
use webintel.Robots.Tasks.{
  loading, done, System, Step, hit, enter, wait, find, acquire, loaded, failed, Reach, IsSafe,
  Reach-IsSafe,
}

module _ (Policy : Type 0) (origin : ℕ → Text) where
  Step-keeps :
      {s t : System Policy}
      → IsSafe Policy origin s
      → Step Policy origin s t
      → (o : Text) (policy : Policy) → Dict.get s.policies o ≡ some policy
      → Dict.get t.policies o ≡ some policy
  Step-keeps h (hit i p a g e) o policy k = rw e k
  Step-keeps h (enter i a g l w e) o policy k = rw e k
  Step-keeps h (wait i a g l e) o policy k = rw e k
  Step-keeps h (find i rest p a l w g e) o policy k = rw e k
  Step-keeps h (acquire i rest a l w g e) o policy k = rw e k
  Step-keeps h (failed i a e) o policy k = rw e k
  Step-keeps {s} h (loaded i p a e) o policy k =
      let new : Dict.get s.policies (origin i) ≡ none = h.fresh i a in
      rw e (
        Dict.get-set s.policies (origin i) o p
        ∙ ground (arith, text_eq_iff (origin i) o, ap (Dict.get s.policies), new, k))

  -- Whatever the order in which the tasks run: two tasks are never loading the policy of one origin,
  -- calls for one origin return one policy, and a policy that is stored is never replaced.
  pub one_policy :
      {s : System Policy}
      → Reach Policy origin s
      → ((i j : ℕ) → s.pc i ≡ loading → s.pc j ≡ loading → origin i ≡ origin j → i ≡ j)
        × ((i j : ℕ) (p q : Policy)
            → s.pc i ≡ done p
            → s.pc j ≡ done q
            → origin i ≡ origin j
            → p ≡ q)
        × ((t : System Policy)
            → Step Policy origin s t
            → (o : Text) (policy : Policy) → Dict.get s.policies o ≡ some policy
            → Dict.get t.policies o ≡ some policy)
  one_policy {s} r =
      let h = Reach-IsSafe Policy origin r in
      (
        h.one,
        λ i j p q a b o. ground (arith, h.agreed i p a, h.agreed j q b, ap (Dict.get s.policies) o),
        λ t st. Step-keeps h st,
      )
