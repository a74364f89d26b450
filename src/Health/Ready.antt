-- ===== src/Health/Ready.antt =====
-- When the service says that it is ready.
use webintel.Prelude.{◌≡◌, ◌↔◌, true, false, Text, none, some, arith}
use webintel.Prelude.Result.{Result, ok, err}
use webintel.Health.{up, down, CheckResult, Probe, Readiness, readiness_timeout, readiness}

abbrev pub Reports : CheckResult → Result Text (Unit {0}) → Type 0
Reports check (ok u) = (check.status ≡ up) × (check.detail ≡ none)
Reports check (err name) = (check.status ≡ down) × (check.detail ≡ some name)

-- What the checks say: of each probe what it did, if both have ended; else of both that the time ran
-- out, also of one that has ended.
abbrev pub Explains : Readiness → Probe → Probe → Type 0
Explains r (some postgresql) (some redis) = Reports r.postgresql postgresql × Reports r.redis redis
Explains r _ _ = (r.postgresql ≡ readiness_timeout) × (r.redis ≡ readiness_timeout)

abbrev pub BothReturned : Probe → Probe → Type 0
BothReturned (some (ok u)) (some (ok v)) = Unit {0}
BothReturned _ _ = ⊥

-- The answer has success and status 200 exactly when both probes have returned in time, and no
-- success and 503 otherwise. If both have ended in time, each check says what its probe did; if one
-- is still running, both checks say that the time ran out, also that of a probe that has ended.
pub readiness_lem :
    (postgresql redis : Probe)
    → (((readiness postgresql redis).success ≡ true) ↔ BothReturned postgresql redis)
      × (((readiness postgresql redis).status_code ≡ 200)
          ↔ ((readiness postgresql redis).success ≡ true))
      × (((readiness postgresql redis).status_code ≡ 503)
          ↔ ((readiness postgresql redis).success ≡ false))
      × Explains (readiness postgresql redis) postgresql redis
unfolding readiness
readiness_lem (some (ok u)) (some (ok v)) = ground arith
readiness_lem (some (ok u)) (some (err n)) = ground arith
readiness_lem (some (err m)) (some (ok v)) = ground arith
readiness_lem (some (err m)) (some (err n)) = ground arith
readiness_lem (some (ok u)) none = ground arith
readiness_lem (some (err m)) none = ground arith
readiness_lem none redis = ground arith
