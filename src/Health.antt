-- ===== src/Health.antt =====
-- app/api/routes/health.py
use webintel.Prelude.{
  ℕ, Bool, true, false, List, [], ◌∷◌, Option, none, some, Text, codes, all, if◌then◌else◌,
}
use webintel.Prelude.Result.{Result, ok, err}
pub mod Ready

pub data CheckStatus : Type 0 where
  up down : CheckStatus

pub record CheckResult : Type 0 where
  pub status : CheckStatus
  pub detail : Option Text

-- check_postgresql and check_redis: the probe returns, or raises an exception with this class name.
unfoldable pub check_postgresql : Result Text (Unit {0}) → CheckResult
check_postgresql (ok u) = record { status = up; detail = none }
check_postgresql (err name) = record { status = down; detail = some name }

unfoldable pub check_redis : Result Text (Unit {0}) → CheckResult
check_redis (ok u) = record { status = up; detail = none }
check_redis (err name) = record { status = down; detail = some name }

-- What a probe has done by the end of the time: it has returned or raised, or it is still running
-- (`none`).
abbrev pub Probe : Type 0
Probe = Option (Result Text (Unit {0}))

-- asyncio.wait_for(asyncio.gather(...), timeout): `none` is the TimeoutError, raised when one of the
-- two is still running, also where the other has ended.
abbrev gathered : Probe → Probe → Option (Result Text (Unit {0}) × Result Text (Unit {0}))
gathered (some postgresql) (some redis) = some (postgresql, redis)
gathered _ _ = none

pub record HealthData : Type 0 where
  pub success : Bool
  pub status : Text
  pub service : Text
  pub version : Text

-- health
unfoldable pub health : Text → Text → HealthData
health app_name app_version = record {
  success = true;
  status = codes "ok";
  service = app_name;
  version = app_version;
}

pub record Readiness : Type 0 where
  pub status_code : ℕ
  pub success : Bool
  pub status : Text
  pub postgresql : CheckResult
  pub redis : CheckResult

abbrev pub is_up : CheckStatus → Bool
is_up up = true
is_up down = false

abbrev pub readiness_timeout : CheckResult
readiness_timeout = record { status = down; detail = some (codes "readiness timeout") }

abbrev respond : CheckResult → CheckResult → Readiness
respond postgresql redis =
    let is_ready = all (λ (check : CheckResult). is_up check.status) (postgresql ∷ redis ∷ []) in
    record {
      status_code = if is_ready then 200 else 503;
      success = is_ready;
      status = if is_ready then codes "ready" else codes "not_ready";
      postgresql = postgresql;
      redis = redis;
    }

-- readiness
unfoldable pub readiness : Probe → Probe → Readiness
unfolding check_postgresql check_redis
readiness postgresql redis = elim (gathered postgresql redis) [
  | some (p, r) ↦ respond (check_postgresql p) (check_redis r)
  | none ↦ respond readiness_timeout readiness_timeout
]
