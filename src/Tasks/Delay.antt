-- ===== src/Tasks/Delay.antt =====
-- ScheduledTaskRetryPolicy.Delay of app/services/runtime/scheduledtask/policy.go. An int64 stands by its 64
-- bits.
use goravel_mine.Base.{ℕ, zero, suc, ◌+◌, ◌-◌, ◌*◌, ◌≡◌, refl, ap, ◌∙◌, arith, if◌then◌else◌, u64}
use goravel_mine.Base.Eq.{nat_eq, list_eq}
use goravel_mine.Queue.Retry.{RetryPolicy, int64_positive, doubled, capped, second}

-- The loop and the cap are those of the queue's ShouldRetry.
unfoldable pub delay : RetryPolicy → ℕ → ℕ
delay p attempt =
    capped p
      (doubled (attempt - 1) (if int64_positive p.initial_delay then p.initial_delay else second))

doubled-zero : (n : ℕ) → doubled n 0 ≡ 0
unfolding doubled
doubled-zero zero = refl
doubled-zero (suc n) = doubled-zero n

doubled-+ : (n m d : ℕ) → doubled (m + n) d ≡ doubled n (doubled m d)
unfolding doubled
doubled-+ n zero d = let e : 0 + n ≡ n = omega arith in ap (λ k. doubled k d) e
doubled-+ n (suc m) d =
    let e : suc m + n ≡ suc (m + n) = omega arith in
    ap (λ k. doubled k d) e ∙ doubled-+ n m (u64 (d * 2))

-- 10^9 is a multiple of 2^9, so that 55 doublings shift it out of the word.
second_vanishes : doubled 55 second ≡ 0
unfolding doubled
second_vanishes = refl

-- From attempt 56 on the delay of a task that starts with a second is 0, whatever its longest delay: the
-- product wraps around, and the cap is applied to what is left.
pub delay_vanishes :
    (attempts longest n : ℕ)
    → delay
        (record { max_attempts = attempts; initial_delay = second; max_delay = longest })
        (n + 56)
      ≡ 0
unfolding delay capped
delay_vanishes attempts longest n =
    let e : n + 56 - 1 ≡ 55 + n = omega arith in
    let zero_delay : doubled (n + 56 - 1) second ≡ 0 =
      ap (λ k. doubled k second) e
      ∙ (doubled-+ n 55 second ∙ (ap (doubled n) second_vanishes ∙ doubled-zero n)) in
    ground (arith, zero_delay)
