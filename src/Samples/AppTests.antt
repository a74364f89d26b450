-- ===== src/Samples/AppTests.antt =====
-- The theorem on the application's resources, where serving is one session.
use webintel.Prelude.{ℕ, ◌≡◌, refl, [], ◌∷◌, arith, Text, codes}
use webintel.Prelude.Result.{ok, err}
use webintel.App.{
  database_engine, redis, session, acquired, released, logged, Platform, State, Answer, lifespan,
  get_database_session,
}
use webintel.App.Released.{AllClosed, lifespan_lem}

abbrev sample_platform : Platform
sample_platform = record {
  World = ℕ;
  Error = Text;
  acquire = λ w r. (ok tt, w);
  release = λ w r. (ok tt, w);
}

abbrev sample_start : State sample_platform
sample_start = record { world = 0; log = [] }

abbrev sample_handler : State sample_platform → Answer sample_platform ℕ
sample_handler t = (err (codes "broken"), t)

sample_serving :
    (t : State sample_platform)
    → AllClosed sample_platform t (get_database_session sample_platform sample_handler t).1
unfolding get_database_session
sample_serving t database_engine = omega arith
sample_serving t redis = omega arith
sample_serving t session = omega arith

lifespan_lem_example :
    AllClosed sample_platform sample_start
      (lifespan sample_platform
        (get_database_session sample_platform sample_handler)
        sample_start).1
    × ((t : State sample_platform) × (t.log
          ≡ logged (codes "application_started") ∷ acquired redis ∷ acquired database_engine ∷ [])
        × ((lifespan sample_platform
              (get_database_session sample_platform sample_handler)
              sample_start).0
            ≡ (get_database_session sample_platform sample_handler t).0)
        × ((lifespan sample_platform
              (get_database_session sample_platform sample_handler)
              sample_start).1.log
            ≡ logged (codes "application_stopped")
              ∷ released database_engine
              ∷ released redis
              ∷ (get_database_session sample_platform sample_handler t).1.log))
lifespan_lem_example =
    lifespan_lem sample_platform (get_database_session sample_platform sample_handler) sample_start
      (λ w r. refl) (λ w r. refl) sample_serving
