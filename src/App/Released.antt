-- ===== src/App/Released.antt =====
-- What the application made it also closes.
use webintel.Prelude.{ℕ, ◌+◌, ◌≡◌, refl, List, [], ◌∷◌, codes, arith, if◌then◌else◌, sym, ap, ◌∙◌}
use webintel.Prelude.Result.{Result, ok, err}
use webintel.App.{
  Resource, resource_eq, database_engine, redis, session, Platform, Event, acquired, released,
  logged, State, Answer, noted, lifespan, shut_down, try_finally, cleaned,
}

-- How often a resource was made, and how often it was closed.
abbrev pub made : Resource → List Event → ℕ
made r [] = 0
made r (acquired q ∷ log) = (if resource_eq q r then 1 else 0) + made r log
made r (released q ∷ log) = made r log
made r (logged m ∷ log) = made r log

abbrev pub closed : Resource → List Event → ℕ
closed r [] = 0
closed r (acquired q ∷ log) = closed r log
closed r (released q ∷ log) = (if resource_eq q r then 1 else 0) + closed r log
closed r (logged m ∷ log) = closed r log

module _ (platform : Platform) where
  -- From one state to another each resource was closed as often as it was made.
  abbrev pub AllClosed : State platform → State platform → Type 0
  AllClosed s t = (r : Resource) → made r t.log + closed r s.log ≡ closed r t.log + made r s.log

  noted-ok :
      (e : Event) (s : State platform) (answer : Result platform.Error (Unit {0}) × platform.World)
      → answer.0 ≡ ok tt
      → noted platform e s answer ≡ (ok tt, record { world = answer.1; log = e ∷ s.log })
  noted-ok e s (ok u, w) h = refl
  noted-ok e s (err x, w) h = cc

  shut_down-closes :
      (s : State platform)
      → ((w : platform.World) (r : Resource) → (platform.release w r).0 ≡ ok tt)
      → ((shut_down platform s).0 ≡ ok tt)
        × ((shut_down platform s).1.log
            ≡ logged (codes "application_stopped")
              ∷ released database_engine
              ∷ released redis
              ∷ s.log)
  shut_down-closes s closing =
      rw (noted-ok (released redis) s (platform.release s.world redis) (closing s.world redis)) (
        rw
          (noted-ok (released database_engine) _ (platform.release _ database_engine)
            (closing _ database_engine))
          (refl, refl))

  finally-closes :
      {A : Type 0} (answer : Answer platform A)
      → ((w : platform.World) (r : Resource) → (platform.release w r).0 ≡ ok tt)
      → ((try_finally platform (shut_down platform) answer).0 ≡ answer.0)
        × ((try_finally platform (shut_down platform) answer).1.log
            ≡ logged (codes "application_stopped")
              ∷ released database_engine
              ∷ released redis
              ∷ answer.1.log)
  finally-closes (a, s) closing = done (shut_down platform s) (shut_down-closes s closing)
    where
      done :
          (c : Answer platform (Unit {0}))
          → (c.0 ≡ ok tt)
            × (c.1.log
                ≡ logged (codes "application_stopped")
                  ∷ released database_engine
                  ∷ released redis
                  ∷ s.log)
          → ((cleaned platform a c).0 ≡ a)
            × ((cleaned platform a c).1.log
                ≡ logged (codes "application_stopped")
                  ∷ released database_engine
                  ∷ released redis
                  ∷ s.log)
      done (ok u, t) (h, k) = (refl, k)
      done (err e, t) (h, k) = cc

  started : State platform → State platform
  started s =
      let first = platform.acquire s.world database_engine in
      record {
        world = (platform.acquire first.1 redis).1;
        log =
            logged (codes "application_started")
            ∷ acquired redis
            ∷ acquired database_engine
            ∷ s.log;
      }

  lifespan-started :
      {A : Type 0} (serve : State platform → Answer platform A) (s : State platform)
      → ((w : platform.World) (r : Resource) → (platform.acquire w r).0 ≡ ok tt)
      → lifespan platform serve s ≡ try_finally platform (shut_down platform) (serve (started s))
  unfolding lifespan started
  lifespan-started serve s making =
      rw
        (noted-ok (acquired database_engine) s (platform.acquire s.world database_engine)
          (making s.world database_engine))
        (rw (noted-ok (acquired redis) _ (platform.acquire _ redis) (making _ redis)) refl)

  started-log :
      (s : State platform)
      → (started s).log
        ≡ logged (codes "application_started") ∷ acquired redis ∷ acquired database_engine ∷ s.log
  unfolding started
  started-log s = refl

  log-AllClosed :
      (r : Resource) (before during after : List Event)
      → made r during
          + closed r (
              logged (codes "application_started")
              ∷ acquired redis
              ∷ acquired database_engine
              ∷ before)
        ≡ closed r during
          + made r (
              logged (codes "application_started")
              ∷ acquired redis
              ∷ acquired database_engine
              ∷ before)
      → after
        ≡ logged (codes "application_stopped") ∷ released database_engine ∷ released redis ∷ during
      → made r after + closed r before ≡ closed r after + made r before
  log-AllClosed database_engine before during after h e = rw e (omega (arith, h))
  log-AllClosed redis before during after h e = rw e (omega (arith, h))
  log-AllClosed session before during after h e = rw e (omega (arith, h))

-- If making and closing a resource never raises, and while it serves the application closes each
-- resource as often as it makes it, then so it is over the whole lifespan, also when serving raises:
-- the engine and the client of Redis are closed once more each. Serving starts once, from a state
-- whose log has the engine, the client of Redis and the message made in this order, and its outcome
-- is that of the lifespan; the log ends with the two closed in the opposite order, and the message.
pub lifespan_lem :
    (platform : Platform) {A : Type 0} (serve : State platform → Answer platform A)
    (s : State platform)
    → ((w : platform.World) (r : Resource) → (platform.acquire w r).0 ≡ ok tt)
    → ((w : platform.World) (r : Resource) → (platform.release w r).0 ≡ ok tt)
    → ((t : State platform) → AllClosed platform t (serve t).1)
    → AllClosed platform s (lifespan platform serve s).1
      × ((t : State platform) × (t.log
            ≡ logged (codes "application_started")
              ∷ acquired redis
              ∷ acquired database_engine
              ∷ s.log)
          × ((lifespan platform serve s).0 ≡ (serve t).0)
          × ((lifespan platform serve s).1.log
              ≡ logged (codes "application_stopped")
                ∷ released database_engine
                ∷ released redis
                ∷ (serve t).1.log))
lifespan_lem platform serve s making closing serving =
    let start = started platform s in
    let (result, log) = finally-closes platform (serve start) closing in
    let first = started-log platform s in
    rw (lifespan-started platform serve s making) (
      λ r.
          log-AllClosed platform r s.log (serve start).1.log _
            (ap (λ l. made r (serve start).1.log + closed r l) (sym first)
              ∙ serving start r
              ∙ ap (λ l. closed r (serve start).1.log + made r l) first)
            log,
      (start, first, result, log),
    )
