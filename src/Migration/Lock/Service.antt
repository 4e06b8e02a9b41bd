-- ===== src/Migration/Lock/Service.antt =====
-- MigrationLockService.Acquire and postgresMigrationLock.Release with the metrics and the audit events,
-- app/services/runtime/migrationlock/service.go. Of the metrics the counters are modelled.
use goravel_mine.Base.{
  ℕ, ◌+◌, ◌⊎◌, inl, inr, Bool, true, false, ◌&&◌, Option, none, some, List, [], ◌∷◌, ◌++◌,
  if◌then◌else◌,
}
use goravel_mine.Base.Texts.{Text}
use goravel_mine.Base.Eq.{nat_eq, list_eq}
use mathlib.Core.List.{reverse}
use goravel_mine.Migration.Keys.{valid_scope, lock_keys}
use goravel_mine.Migration.Lock.{Host, Acquired, Outcome, acquired, timed_out, errored, acquire_all}

pub record Metrics : Type 0 where
  pub acquired_total : ℕ
  pub released_total : ℕ
  pub timeout_total : ℕ
  pub failure_total : ℕ

pub data Event : Type 0 where
  lock_wait lock_timeout lock_acquired lock_failed lock_released release_failed : Event

-- The state that a call changes.
pub record Service (W : Type 0) : Type 0 where
  pub world : W
  pub metrics : Metrics
  pub events : List Event

pub data Refusal : Type 0 where
  bad_scope no_session no_identity no_keys lock_timed_out lock_broken : Refusal

-- postgresMigrationLock
pub record MigrationLock : Type 0 where
  pub keys : List ℕ
  pub acquired_at : ℕ
  pub released : Bool

-- What a call of Acquire returns, and the state after it.
pub record Called (W : Type 0) : Type 0 where
  pub result : Refusal ⊎ MigrationLock
  pub service : Service W

abbrev pub count_acquired : Metrics → Metrics
count_acquired m = record m { acquired_total = m.acquired_total + 1 }

abbrev pub count_timeout : Metrics → Metrics
count_timeout m = record m { timeout_total = m.timeout_total + 1 }

abbrev pub count_failure : Metrics → Metrics
count_failure m = record m { failure_total = m.failure_total + 1 }

abbrev pub count_released : Metrics → Metrics
count_released m = record m { released_total = m.released_total + 1 }

module _ {W : Type 0} (h : Host W) where
  abbrev pub refused : Refusal → List Event → Service W → Called W
  refused r e s = record {
    result = inl r;
    service = record s { metrics = count_failure s.metrics; events = s.events ++ e };
  }

  -- The session is closed, whatever comes of it.
  abbrev pub closed : Service W → Service W
  closed s = record s { world = (h.close s.world).1 }

  abbrev pub after_acquire : List ℕ → Service W → Outcome → Called W
  after_acquire keys s acquired =
      let (t, w) = h.now s.world in
      record {
        result = inr (record { keys = keys; acquired_at = t; released = false });
        service = record {
          world = w;
          metrics = count_acquired s.metrics;
          events = s.events ++ lock_acquired ∷ [];
        };
      }
  after_acquire keys s timed_out =
      let s' = closed s in
      record {
        result = inl lock_timed_out;
        service = record s' {
          metrics = count_timeout s.metrics;
          events = s.events ++ lock_timeout ∷ [];
        };
      }
  after_acquire keys s errored = refused lock_broken (lock_failed ∷ []) (closed s)

  abbrev pub called_after : List ℕ → Service W → Option (Acquired W) → Option (Called W)
  called_after keys s none = none
  called_after keys s (some a) = some (after_acquire keys (record s { world = a.world }) a.outcome)

  abbrev pub after_keys : ℕ → ℕ → Service W → Option (List ℕ) → Option (Called W)
  after_keys interval timeout s none = some (refused no_keys [] (closed s))
  after_keys interval timeout s (some keys) =
      let s' : Service W = record s { events = s.events ++ lock_wait ∷ [] } in
      called_after keys s' (acquire_all h interval timeout keys s.world)

  abbrev pub after_identity :
      (Text → ℕ) → ℕ → Text → ℕ → Service W → Option Text × W → Option (Called W)
  after_identity fnv interval scope timeout s (none, w) =
      some (refused no_identity [] (closed (record s { world = w })))
  after_identity fnv interval scope timeout s (some database, w) =
      after_keys interval timeout (record s { world = w }) (lock_keys fnv database scope)

  abbrev pub after_session : (Text → ℕ) → ℕ → Text → ℕ → Service W → Bool × W → Option (Called W)
  after_session fnv interval scope timeout s (false, w) =
      some (refused no_session [] (record s { world = w }))
  after_session fnv interval scope timeout s (true, w) =
      after_identity fnv interval scope timeout (record s { world = w }) (h.identity w)

  -- Acquire; none is for rounds that run out of fuel.
  unfoldable pub acquire : (Text → ℕ) → ℕ → Text → ℕ → Service W → Option (Called W)
  acquire fnv interval scope timeout s =
      if valid_scope scope
      then after_session fnv interval scope timeout s (h.open_session s.world)
      else some (record { result = inl bad_scope; service = s })

  -- The loop of Release, which goes on behind an error
  unfoldable pub unlock_keys : List ℕ → W → Bool × W
  unlock_keys [] w = (true, w)
  unlock_keys (k ∷ keys) w =
      let (b, w1) = h.unlock w k in let (c, w2) = unlock_keys keys w1 in (b && c, w2)

  -- The metric and the event of Release
  abbrev pub recorded : Bool → W → Service W → Service W
  recorded true w s = record {
    world = w;
    metrics = count_released s.metrics;
    events = s.events ++ lock_released ∷ [];
  }
  recorded false w s = record {
    world = w;
    metrics = count_failure s.metrics;
    events = s.events ++ release_failed ∷ [];
  }

  -- Release: whether it succeeds, the lock and the state.
  unfoldable pub release : MigrationLock → Service W → Bool × MigrationLock × Service W
  release l s =
      if l.released
      then (true, l, s)
      else let (unlocked, w1) = unlock_keys (reverse l.keys) s.world in
        let (shut, w2) = h.close w1 in
        let (t, w3) = h.now w2 in
        (unlocked && shut, record l { released = true }, recorded (unlocked && shut) w3 s)
