-- ===== src/Migration/Lock.antt =====
-- MigrationLockService.Acquire and postgresMigrationLock.Release,
-- app/services/runtime/migrationlock/service.go. The database session, the clock and the timer are
-- parameters.
pub mod Service
pub mod Held
pub mod Rounds
pub mod Ends
pub mod Counts
use goravel_mine.Base.{
  ℕ, zero, suc, ◌+◌, ◌-◌, Bool, true, false, not, Option, none, some, List, [], ◌∷◌, ltb,
  if◌then◌else◌, ◌==◌,
}
use goravel_mine.Base.Texts.{Text}
use goravel_mine.Base.Eq.{nat_eq, list_eq}

pub data Attempt : Type 0 where
  locked busy broken : Attempt

-- What the service calls: the session factory, the session of the interface migrationLockSession, time.Now and
-- waitForMigrationLock. W is the state of all that.
pub record Host (W : Type 0) : Type 0 where
  pub open_session : W → Bool × W
  pub identity : W → Option Text × W
  pub try_lock : W → ℕ → Attempt × W
  pub unlock : W → ℕ → Bool × W
  pub close : W → Bool × W
  pub now : W → ℕ × W
  pub wait : W → ℕ → Bool × W

pub data Tried : Type 0 where
  all_locked blocked failed : Tried

pub data Outcome : Type 0 where
  acquired timed_out errored : Outcome

-- The duration that was waited, and the state.
pub record Acquired (W : Type 0) : Type 0 where
  pub outcome : Outcome
  pub waited : ℕ
  pub world : W

module _ {W : Type 0} (h : Host W) where
  -- releaseKeys, which drops the errors
  unfoldable pub unlock_all : W → List ℕ → W
  unlock_all w [] = w
  unlock_all w (k ∷ held) = unlock_all (h.unlock w k).1 held

  abbrev pub tried : (W → Tried × W) → List ℕ → Attempt × W → Tried × W
  tried rest held (broken, w) = (failed, unlock_all w held)
  tried rest held (busy, w) = (blocked, unlock_all w held)
  tried rest held (locked, w) = rest w

  -- One round over the keys; the ones held so far stand with the newest first, the order of their release.
  unfoldable pub try_keys : List ℕ → List ℕ → W → Tried × W
  try_keys [] held w = (all_locked, w)
  try_keys (k ∷ keys) held w = tried (try_keys keys (k ∷ held)) held (h.try_lock w k)

  abbrev pub finished : Outcome → ℕ → W → Option (Acquired W)
  finished o started w =
      let (t, w') = h.now w in some (record { outcome = o; waited = t - started; world = w' })

  -- The wait before the next round
  abbrev pub pause : ℕ → ℕ → W → Bool × W
  pause interval deadline w =
      let (t, w') = h.now w in
      h.wait w' (if ltb (deadline - t) interval then deadline - t else interval)

  abbrev pub retry : (W → Option (Acquired W)) → ℕ → Bool × W → Option (Acquired W)
  retry rest started (true, w) = rest w
  retry rest started (false, w) = finished errored started w

  -- `if timeout <= 0 || !s.now().Before(deadline)`
  abbrev pub expired : ℕ → ℕ → W → Bool × W
  expired timeout deadline w =
      if timeout == 0 then (true, w) else let (t, w') = h.now w in (not (ltb t deadline), w')

  abbrev pub on_expired : (W → Option (Acquired W)) → ℕ → Bool × W → Option (Acquired W)
  on_expired rest started (true, w) = finished timed_out started w
  on_expired rest started (false, w) = rest w

  abbrev pub after_round : (W → Option (Acquired W)) → ℕ → ℕ → ℕ → Tried × W → Option (Acquired W)
  after_round rest interval started timeout (all_locked, w) = finished acquired started w
  after_round rest interval started timeout (failed, w) = finished errored started w
  after_round rest interval started timeout (blocked, w) =
      on_expired (λ w'. retry rest started (pause interval (started + timeout) w')) started
        (expired timeout (started + timeout) w)

  -- The rounds of acquireAll, on fuel: none is for fuel that ran out.
  unfoldable pub acquire_rounds : ℕ → ℕ → ℕ → ℕ → List ℕ → W → Option (Acquired W)
  acquire_rounds zero interval started timeout keys w = none
  acquire_rounds (suc fuel) interval started timeout keys w =
      after_round (acquire_rounds fuel interval started timeout keys) interval started timeout
        (try_keys keys [] w)

  -- acquireAll: a negative timeout is 0. Each wait lets time pass, up to the deadline, so that two rounds more than
  -- the nanoseconds of the timeout are enough fuel.
  unfoldable pub acquire_all : ℕ → ℕ → List ℕ → W → Option (Acquired W)
  acquire_all interval timeout keys w =
      let (started, w') = h.now w in acquire_rounds (timeout + 2) interval started timeout keys w'
