-- ===== src/Samples/HealthTests.antt =====
-- The theorems on the health routes and the settings at sample values.
use webintel.Prelude.{◌≡◌, ◌↔◌, true, false, some, codes}
use webintel.Prelude.Result.{ok, err}
use webintel.Health.{readiness}
use webintel.Health.Ready.{BothReturned, Explains, readiness_lem}

readiness_lem_example :
    (((readiness (some (ok tt)) (some (err (codes "ConnectionError")))).success ≡ true)
      ↔ BothReturned (some (ok tt)) (some (err (codes "ConnectionError"))))
    × (((readiness (some (ok tt)) (some (err (codes "ConnectionError")))).status_code ≡ 200)
        ↔ ((readiness (some (ok tt)) (some (err (codes "ConnectionError")))).success ≡ true))
    × (((readiness (some (ok tt)) (some (err (codes "ConnectionError")))).status_code ≡ 503)
        ↔ ((readiness (some (ok tt)) (some (err (codes "ConnectionError")))).success ≡ false))
    × Explains
        (readiness (some (ok tt)) (some (err (codes "ConnectionError"))))
        (some (ok tt))
        (some (err (codes "ConnectionError")))
readiness_lem_example = readiness_lem (some (ok tt)) (some (err (codes "ConnectionError")))
