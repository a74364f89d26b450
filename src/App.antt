-- ===== src/App.antt =====
-- How long the application holds its resources: lifespan in app/main.py and get_database_session
-- in app/db/session.py.
use webintel.Prelude.{Bool, true, false, List, [], ◌∷◌, Text, codes}
use webintel.Prelude.Result.{Result, ok, err}
pub mod Released

pub data Resource : Type 0 where
  database_engine redis session : Resource

abbrev pub resource_eq : Resource → Resource → Bool
resource_eq database_engine database_engine = true
resource_eq redis redis = true
resource_eq session session = true
resource_eq _ _ = false

-- The libraries: making a resource, and closing it, may raise.
pub record Platform : Type 1 where
  pub World : Type 0
  pub Error : Type 0
  pub acquire : World → Resource → Result Error (Unit {0}) × World
  pub release : World → Resource → Result Error (Unit {0}) × World

-- What happened, in order.
pub data Event : Type 0 where
  acquired released : Resource → Event
  logged : Text → Event

-- The outside, and the events, the newest first.
pub record State (platform : Platform) : Type 0 where
  pub world : platform.World
  pub log : List Event

module _ (platform : Platform) where
  abbrev pub Answer : Type 0 → Type 0
  Answer A = Result platform.Error A × State platform

  abbrev pub noted :
      Event → State platform → Result platform.Error (Unit {0}) × platform.World → Answer (Unit {0})
  noted e s (ok _, w) = (ok tt, record { world = w; log = e ∷ s.log })
  noted e s (err x, w) = (err x, record { world = w; log = s.log })

  abbrev pub hold : Resource → State platform → Answer (Unit {0})
  hold r s = noted (acquired r) s (platform.acquire s.world r)

  abbrev pub let_go : Resource → State platform → Answer (Unit {0})
  let_go r s = noted (released r) s (platform.release s.world r)

  -- logger.info(...)
  abbrev pub info : Text → State platform → Answer (Unit {0})
  info message s = (ok tt, record s { log = logged message ∷ s.log })

  -- The statements behind one: an exception skips them.
  abbrev pub and_then : {A : Type 0} → Answer (Unit {0}) → (State platform → Answer A) → Answer A
  and_then (ok _, s) next = next s
  and_then (err e, s) next = (err e, s)

  -- An exception of the clean-up replaces what the block gave.
  abbrev pub cleaned : {A : Type 0} → Result platform.Error A → Answer (Unit {0}) → Answer A
  cleaned a (ok _, s) = (a, s)
  cleaned a (err e, s) = (err e, s)

  -- try: body finally: clean_up
  abbrev pub try_finally : {A : Type 0} → (State platform → Answer (Unit {0})) → Answer A → Answer A
  try_finally clean_up (a, s) = cleaned a (clean_up s)

  -- The `finally` block of lifespan.
  abbrev pub shut_down : State platform → Answer (Unit {0})
  shut_down s =
      and_then (let_go redis s)
        λ s. and_then (let_go database_engine s) (info (codes "application_stopped"))

  -- lifespan, around the time that the application serves
  unfoldable pub lifespan : {A : Type 0} → (State platform → Answer A) → State platform → Answer A
  lifespan serve s = and_then (hold database_engine s) λ s.
      and_then (hold redis s)
        λ s. and_then (info (codes "application_started") s) λ s. try_finally shut_down (serve s)

  -- get_database_session, around the handling of a request
  unfoldable pub get_database_session :
      {A : Type 0} → (State platform → Answer A) → State platform → Answer A
  get_database_session handle s =
      and_then (hold session s) λ s. try_finally (let_go session) (handle s)
