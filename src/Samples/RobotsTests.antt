-- ===== src/Samples/RobotsTests.antt =====
-- The theorems on the robots policy at sample parsers and tasks.
use webintel.Prelude.{
  ℕ, ◌≡◌, refl, false, inl, ◌∷◌, true, List, [], ◌++◌, none, some, Text, codes, is_empty, text_Eq,
  text_eq,
}
use webintel.Prelude.Dict
use webintel.Robots.{RobotParser, RobotsPolicy, check}
use webintel.Robots.Atomic.{AtomicReach, AtomicStep, service_of, tasks-refine}
use webintel.Robots.Cache.{Repeats, check_lem}
use webintel.Robots.Tasks.{
  System, Step, Reach, init, here, next, enter, wait, begin, loading, waiting, done, update,
  lock_as, queue_as,
}
use webintel.Robots.Safety.{one_policy}
use webintel.Robots.Queues.{Once}
use webintel.Robots.Fair.{IsMoving, KeepsOrder, no_deadlock}
use webintel.Fetch.Page.Guarded.{IsGuarded}
use webintel.Samples.{sample_python, sample_network, sample_config, sample_fetcher, start_url}

-- A policy is the lines of its file; an empty file allows all.
abbrev sample_parser : RobotParser
sample_parser = record {
  Policy = List Text;
  new = λ url. [];
  parse = λ policy lines. policy ++ lines;
  can_fetch = λ policy user_agent url. is_empty policy;
  crawl_delay = λ policy user_agent. none;
}

abbrev sample_policy : RobotsPolicy sample_python sample_network sample_config sample_parser
sample_policy = record { fetcher = sample_fetcher; user_agent = codes "bot"; policies = [] }

check_lem_example :
    IsGuarded
      (check sample_python sample_network sample_config sample_parser sample_policy
        start_url).1.fetcher.outside.log
    × Repeats sample_python sample_network sample_config sample_parser
        (λ s. check sample_python sample_network sample_config sample_parser s start_url)
        (check sample_python sample_network sample_config sample_parser sample_policy start_url)
check_lem_example =
    check_lem sample_python sample_network sample_config sample_parser sample_policy start_url tt

-- All tasks want the policy of one origin; task 0 loads it, and task 1 waits.
abbrev one_origin : ℕ → Text
one_origin i = codes "http://a"

abbrev loads : System ℕ
loads = record (init ℕ one_origin) {
  pc = update (λ i. begin) 0 loading;
  locked = lock_as true (codes "http://a") (λ t. false);
}

abbrev waits : System ℕ
waits = record loads {
  pc = update loads.pc 1 waiting;
  waiters = queue_as (codes "http://a") (1 ∷ []) (λ t. []);
}

abbrev waits-Reach : Reach ℕ one_origin waits
unfolding Dict.get text_eq
waits-Reach =
    next (next (here refl) (enter 0 refl refl refl refl refl)) (wait 1 refl refl (inl refl) refl)

one_policy_example :
    ((i j : ℕ) → waits.pc i ≡ loading → waits.pc j ≡ loading → one_origin i ≡ one_origin j → i ≡ j)
    × ((i j : ℕ) (p q : ℕ)
        → waits.pc i ≡ done p
        → waits.pc j ≡ done q
        → one_origin i ≡ one_origin j
        → p ≡ q)
    × ((t : System ℕ)
        → Step ℕ one_origin waits t
        → (o : Text) (policy : ℕ) → Dict.get waits.policies o ≡ some policy
        → Dict.get t.policies o ≡ some policy)
one_policy_example = one_policy ℕ one_origin waits-Reach

no_deadlock_example :
    IsMoving ℕ one_origin waits 1
    × Once (waits.waiters (codes "http://a"))
    × ((t : System ℕ)
        → Step ℕ one_origin waits t
        → KeepsOrder (waits.waiters (codes "http://a")) (t.waiters (codes "http://a")))
no_deadlock_example = no_deadlock ℕ one_origin waits-Reach 1 refl

tasks-refine_example :
    AtomicReach ℕ one_origin (service_of ℕ waits)
    × ((t : System ℕ)
        → Step ℕ one_origin waits t
        → AtomicStep ℕ one_origin (service_of ℕ waits) (service_of ℕ t))
tasks-refine_example = tasks-refine ℕ one_origin waits-Reach
