-- ===== src/Migration/Lock/Rounds.antt =====
-- Which advisory locks acquireAll, app/services/runtime/migrationlock/service.go, takes: all or none.
use goravel_mine.Base.{
  ℕ, zero, suc, ◌+◌, ◌≤◌, ◌≡◌, refl, subst, ◌≢◌, inl, inr, Bool, true, false, Option, none, some,
  List, [], ◌∷◌, arith, ◌==◌, Bool-cases,
}
use goravel_mine.Base.Eq.{nat_eq, list_eq}
use goravel_mine.Migration.Lock.{
  Host, Attempt, locked, busy, broken, Tried, all_locked, blocked, failed, Outcome, acquired,
  timed_out, errored, Acquired, tried, try_keys, pause, retry, expired, on_expired, after_round,
  acquire_rounds, acquire_all,
}
use goravel_mine.Migration.Lock.Held.{
  times, Advisory, Exact, Track, moved-Track, now-Track, unlock_all-Track, refused-Track,
  granted-Track,
}

module _ {W : Type 0} (h : Host W) (a : Advisory h) where
  -- What acquireAll leaves, for each of its outcomes.
  unfoldable pub Kept : ℕ → (ℕ → ℕ) → (ℕ → ℕ) → Outcome → W → Type 0
  Kept f0 before all acquired w =
      ((j : ℕ) → all j ≤ a.holds w j) × Exact h a f0 (λ j. all j + before j) w
  Kept f0 before all timed_out w = Exact h a f0 before w
  Kept f0 before all errored w = Exact h a f0 before w

  unfoldable KeptBy : ℕ → (ℕ → ℕ) → (ℕ → ℕ) → Option (Acquired W) → Type 0
  KeptBy f0 before all none = Unit
  KeptBy f0 before all (some r) = Kept f0 before all r.outcome r.world

  -- What a round leaves: the keys that it was to take, or what was held before.
  unfoldable Left : ℕ → (ℕ → ℕ) → (ℕ → ℕ) → Tried × W → Type 0
  Left f0 before all (all_locked, w) =
      ((j : ℕ) → all j ≤ a.holds w j) × Track h a f0 (λ j. all j + before j) w
  Left f0 before all (blocked, w) = Track h a f0 before w
  Left f0 before all (failed, w) = Track h a f0 before w

  tried-Left :
      (rest : W → Tried × W) (held : List ℕ) (t : Attempt × W) (f0 : ℕ) (before all : ℕ → ℕ)
      → (t.0 ≢ locked → Track h a f0 (λ j. times j held + before j) t.1)
      → (t.0 ≡ locked → Left f0 before all (rest t.1))
      → Left f0 before all (tried h rest held t)
  unfolding Left
  tried-Left rest held (locked, w) f0 before all n y = y refl
  tried-Left rest held (busy, w) f0 before all n y =
      unlock_all-Track h a held f0 before w (n (λ q. cc))
  tried-Left rest held (broken, w) f0 before all n y =
      unlock_all-Track h a held f0 before w (n (λ q. cc))

  try_keys-Left :
      (keys held : List ℕ) (w : W) (f0 : ℕ) (before all : ℕ → ℕ)
      → ((j : ℕ) → times j held ≤ a.holds w j)
      → Track h a f0 (λ j. times j held + before j) w
      → ((j : ℕ) → all j ≡ times j keys + times j held)
      → Left f0 before all (try_keys h keys held w)
  unfolding try_keys Left times
  try_keys-Left [] held w f0 before all l (b, inl e) s = (λ j. omega (arith, l j, s j), (b, inl e))
  try_keys-Left [] held w f0 before all l (b, inr e) s =
      (λ j. omega (arith, l j, s j), (b, inr (λ j. omega (arith, e j, s j))))
  try_keys-Left (k ∷ keys) held w f0 before all l e s =
      tried-Left (try_keys h keys (k ∷ held)) held (h.try_lock w k) f0 before all
        (λ n. refused-Track h a f0 (λ j. times j held + before j) w k e n)
        (λ y.
          try_keys-Left keys (k ∷ held) (h.try_lock w k).1 f0 before all
            (λ j. omega (arith, a.granted w k j y, l j))
            (granted-Track h a f0 (λ j. times j held + before j)
              (λ j. times j (k ∷ held) + before j) w k (λ j. omega arith) y e)
            (λ j. omega (arith, s j)))

  expired-Track :
      (f0 : ℕ) (before : ℕ → ℕ) (timeout deadline : ℕ) (w : W)
      → Track h a f0 before w
      → Track h a f0 before (expired h timeout deadline w).1
  expired-Track f0 before timeout deadline w e = elim (Bool-cases (timeout == 0)) [
    | inl t ↦ rw t e
    | inr t ↦ rw t (now-Track h a f0 before w e)
  ]

  pause-Track :
      (f0 : ℕ) (before : ℕ → ℕ) (interval deadline : ℕ) (w : W)
      → Track h a f0 before w
      → Track h a f0 before (pause h interval deadline w).1
  pause-Track f0 before interval deadline w e =
      moved-Track h a f0 before (h.now w).1 _ (a.timer_faults (h.now w).1 _)
        (λ j. a.timer_keeps (h.now w).1 _ j) (now-Track h a f0 before w e)

  module _ (f0 : ℕ) (before all : ℕ → ℕ) where
    retry-KeptBy :
        (rest : W → Option (Acquired W)) (started : ℕ) (b : Bool × W)
        → Track h a f0 before b.1
        → ((w : W) → Track h a f0 before w → KeptBy f0 before all (rest w))
        → KeptBy f0 before all (retry h rest started b)
    unfolding KeptBy Kept
    retry-KeptBy rest started (true, w) e r = r w e
    retry-KeptBy rest started (false, w) e r = (now-Track h a f0 before w e).1

    on_expired-KeptBy :
        (rest : W → Option (Acquired W)) (started : ℕ) (b : Bool × W)
        → Track h a f0 before b.1
        → ((w : W) → Track h a f0 before w → KeptBy f0 before all (rest w))
        → KeptBy f0 before all (on_expired h rest started b)
    unfolding KeptBy Kept
    on_expired-KeptBy rest started (true, w) e r = (now-Track h a f0 before w e).1
    on_expired-KeptBy rest started (false, w) e r = r w e

    after_round-KeptBy :
        (rest : W → Option (Acquired W)) (interval started timeout : ℕ) (t : Tried × W)
        → Left f0 before all t
        → ((w : W) → Track h a f0 before w → KeptBy f0 before all (rest w))
        → KeptBy f0 before all (after_round h rest interval started timeout t)
    unfolding KeptBy Kept Left
    after_round-KeptBy rest interval started timeout (all_locked, w) l r = (
      λ j. let k = a.clock_keeps w j in omega (arith, k, l.0 j),
      (now-Track h a f0 (λ j. all j + before j) w l.1).1,
    )
    after_round-KeptBy rest interval started timeout (failed, w) l r =
        (now-Track h a f0 before w l).1
    after_round-KeptBy rest interval started timeout (blocked, w) l r =
        on_expired-KeptBy (λ w2. retry h rest started (pause h interval (started + timeout) w2))
          started (expired h timeout (started + timeout) w)
          (expired-Track f0 before timeout (started + timeout) w l)
          (λ w2 e2.
            retry-KeptBy rest started (pause h interval (started + timeout) w2)
              (pause-Track f0 before interval (started + timeout) w2 e2) r)

  -- At the start of a round no key is held.
  unheld-Track :
      (f0 : ℕ) (before : ℕ → ℕ) (w : W)
      → Track h a f0 before w
      → Track h a f0 (λ j. times j [] + before j) w
  unfolding times
  unheld-Track f0 before w (b, inl e) = (b, inl e)
  unheld-Track f0 before w (b, inr e) = (b, inr (λ j. omega (arith, e j)))

  acquire_rounds-KeptBy :
      (fuel interval started timeout : ℕ) (keys : List ℕ) (w : W) (f0 : ℕ) (before : ℕ → ℕ)
      → Track h a f0 before w
      → KeptBy f0 before (λ j. times j keys) (acquire_rounds h fuel interval started timeout keys w)
  unfolding acquire_rounds KeptBy times
  acquire_rounds-KeptBy zero interval started timeout keys w f0 before e = tt
  acquire_rounds-KeptBy (suc fuel) interval started timeout keys w f0 before e =
      after_round-KeptBy f0 before (λ j. times j keys)
        (acquire_rounds h fuel interval started timeout keys) interval started timeout
        (try_keys h keys [] w)
        (try_keys-Left keys [] w f0 before (λ j. times j keys) (λ j. omega arith)
          (unheld-Track f0 before w e) (λ j. omega arith))
        (λ v k. acquire_rounds-KeptBy fuel interval started timeout keys v f0 before k)

  -- Under what PostgreSQL documents of advisory locks: where acquireAll succeeds the session holds every key, whatever
  -- calls failed on the way. And unless a call returned an error, it takes all keys or none: where it succeeds the
  -- session holds each key once more, and where it times out or fails it holds what it held.
  pub acquire_all-Kept :
      (interval timeout : ℕ) (keys : List ℕ) (w : W) (r : Acquired W)
      → acquire_all h interval timeout keys w ≡ some r
      → Kept (a.faults w) (a.holds w) (λ j. times j keys) r.outcome r.world
  unfolding acquire_all KeptBy
  acquire_all-Kept interval timeout keys w r e =
      subst (KeptBy (a.faults w) (a.holds w) (λ j. times j keys)) e (
        acquire_rounds-KeptBy (timeout + 2) interval (h.now w).0 timeout keys (h.now w).1
          (a.faults w) (a.holds w)
          (now-Track h a (a.faults w) (a.holds w) w (omega arith, inr (λ j. refl))))
