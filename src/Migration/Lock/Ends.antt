-- ===== src/Migration/Lock/Ends.antt =====
-- acquireAll, app/services/runtime/migrationlock/service.go, ends, whatever the database does.
use goravel_mine.Base.{
  ℕ, zero, suc, ◌+◌, ◌-◌, ◌≤◌, ◌<◌, ◌≡◌, refl, inl, inr, Bool, true, false, Option, none, some,
  List, [], ◌∷◌, arith, ltb, if◌then◌else◌, ◌==◌, Bool-cases,
}
use goravel_mine.Base.Eq.{nat_eq, list_eq}
use goravel_mine.Migration.Lock.{
  Host, Attempt, locked, busy, broken, Tried, all_locked, blocked, failed, Acquired, unlock_all,
  tried, try_keys, pause, retry, expired, on_expired, after_round, acquire_rounds, acquire_all,
}

-- Time passes: no call turns it back, a reading of the clock is of a time within the call, and a timer that
-- fires does so when its duration is over.
pub record Clock {W : Type 0} (h : Host W) : Type 0 where
  pub time : W → ℕ
  pub try_later : (w : W) (k : ℕ) → time w ≤ time (h.try_lock w k).1
  pub unlock_later : (w : W) (k : ℕ) → time w ≤ time (h.unlock w k).1
  pub now_from : (w : W) → time w ≤ (h.now w).0
  pub now_until : (w : W) → (h.now w).0 ≤ time (h.now w).1
  pub wait_over : (w : W) (d : ℕ) → (h.wait w d).0 ≡ true → time w + d ≤ time (h.wait w d).1

-- A result.
unfoldable pub IsSome : {A : Type 0} → Option A → Type 0
IsSome none = ⊥
IsSome (some a) = Unit

some-IsSome : {A : Type 0} (a : A) → IsSome (some a)
unfolding IsSome
some-IsSome a = tt

module _ {W : Type 0} (h : Host W) (c : Clock h) where
  unlock_all-later : (held : List ℕ) (w : W) → c.time w ≤ c.time (unlock_all h w held)
  unfolding unlock_all
  unlock_all-later [] w = omega arith
  unlock_all-later (k ∷ held) w =
      omega (arith, c.unlock_later w k, unlock_all-later held (h.unlock w k).1)

  try_keys-later : (keys held : List ℕ) (w : W) → c.time w ≤ c.time (try_keys h keys held w).1
  unfolding try_keys
  try_keys-later [] held w = omega arith
  try_keys-later (k ∷ keys) held w =
      one (h.try_lock w k) (c.try_later w k) (try_keys-later keys (k ∷ held))
    where
      one :
          (a : Attempt × W)
          → c.time w ≤ c.time a.1
          → ((v : W) → c.time v ≤ c.time (try_keys h keys (k ∷ held) v).1)
          → c.time w ≤ c.time (tried h (try_keys h keys (k ∷ held)) held a).1
      one (locked, w') l r = omega (arith, l, r w')
      one (busy, w') l r = omega (arith, l, unlock_all-later held w')
      one (broken, w') l r = omega (arith, l, unlock_all-later held w')

  -- A pause brings the deadline nearer.
  retry-IsSome :
      (rest : W → Option (Acquired W)) (started : ℕ) (b : Bool × W) (from : ℕ)
      → (b.0 ≡ true → from ≤ c.time b.1)
      → ((w : W) → from ≤ c.time w → IsSome (rest w))
      → IsSome (retry h rest started b)
  retry-IsSome rest started (true, w) from l r = r w (l refl)
  retry-IsSome rest started (false, w) from l r = some-IsSome _

  -- Where the rounds go on, time is before the deadline.
  on_expired-IsSome :
      (rest : W → Option (Acquired W)) (started deadline from : ℕ) (b : Bool × W)
      → (b.0 ≡ false → from < deadline)
      → from ≤ c.time b.1
      → ((w : W) → from < deadline → from ≤ c.time w → IsSome (rest w))
      → IsSome (on_expired h rest started b)
  on_expired-IsSome rest started deadline from (true, w) n l r = some-IsSome _
  on_expired-IsSome rest started deadline from (false, w) n l r = r w (n refl) l

  expired-later :
      (timeout deadline : ℕ) (w : W)
      → ((expired h timeout deadline w).0 ≡ false → c.time w < deadline)
        × (c.time w ≤ c.time (expired h timeout deadline w).1)
  expired-later timeout deadline w = elim (Bool-cases (timeout == 0)) [
    | inl e ↦ (λ n. absurd (ground (arith, e, n)), ground (arith, e))
    | inr e ↦
        (λ n. ground (arith, e, n, c.now_from w), ground (arith, e, c.now_from w, c.now_until w))
  ]

  pause-later :
      (interval deadline from : ℕ) (w : W)
      → 0 < interval
      → from < deadline
      → from ≤ c.time w
      → (pause h interval deadline w).0 ≡ true
      → from < c.time (pause h interval deadline w).1
  pause-later interval deadline from w i b l e =
      let t = (h.now w).0 in
      let over =
        c.wait_over (h.now w).1 (if ltb (deadline - t) interval then deadline - t else interval)
          e in
      ground (arith, over, i, b, l, c.now_from w, c.now_until w)

  -- Each round that goes on waits for an interval, or up to the deadline, and is the last one then.
  acquire_rounds-IsSome :
      (fuel interval started timeout : ℕ) (keys : List ℕ) (w : W)
      → 0 < interval
      → started + timeout + 2 ≤ fuel + c.time w
      → 0 < fuel
      → IsSome (acquire_rounds h fuel interval started timeout keys w)
  unfolding acquire_rounds
  acquire_rounds-IsSome zero interval started timeout keys w i f p = absurd (omega arith)
  acquire_rounds-IsSome (suc fuel) interval started timeout keys w i f p =
      round (try_keys h keys [] w) (try_keys-later keys [] w)
        (λ v. acquire_rounds-IsSome fuel interval started timeout keys v i)
    where
      round :
          (t : Tried × W)
          → c.time w ≤ c.time t.1
          → ((v : W)
              → started + timeout + 2 ≤ fuel + c.time v
              → 0 < fuel
              → IsSome (acquire_rounds h fuel interval started timeout keys v))
          → IsSome (
              after_round h
                (acquire_rounds h fuel interval started timeout keys)
                interval
                started
                timeout
                t)
      round (all_locked, w') l rest = some-IsSome _
      round (failed, w') l rest = some-IsSome _
      round (blocked, w') l rest =
          let x = expired-later timeout (started + timeout) w' in
          on_expired-IsSome _ started (started + timeout) (c.time w') _ x.0 x.1 (λ w2 before later.
            retry-IsSome (acquire_rounds h fuel interval started timeout keys) started _
              (c.time w' + 1)
              (λ e.
                omega
                  (arith, pause-later interval (started + timeout) (c.time w') w2 i before later e))
              (λ w3 later'. rest w3 (omega (arith, f, l, later')) (omega (arith, f, l, before))))

  -- acquireAll returns: a waiting caller is not kept for longer than the rounds up to its deadline.
  pub acquire_all-IsSome :
      (interval timeout : ℕ) (keys : List ℕ) (w : W)
      → 0 < interval
      → IsSome (acquire_all h interval timeout keys w)
  unfolding acquire_all
  acquire_all-IsSome interval timeout keys w i =
      acquire_rounds-IsSome (timeout + 2) interval (h.now w).0 timeout keys (h.now w).1 i
        (omega (arith, c.now_until w)) (omega arith)
