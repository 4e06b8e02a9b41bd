-- ===== src/Queue/Retry/Backoff.antt =====
-- The delays of QueueRetryPolicy.ShouldRetry, app/services/runtime/queue/reliability.go.
use goravel_mine.Base.{
  ℕ, zero, suc, ◌+◌, ◌-◌, ◌*◌, ◌^◌, ◌≤◌, ◌<◌, ◌≡◌, sym, ap, ◌∙◌, subst, inl, inr, true, ◌&&◌,
  Bool-cases, false, none, some, arith, ltb, leb, if◌then◌else◌, u64,
}
use goravel_mine.Queue.Retry.{
  Failure, RetryPolicy, doubled, capped, attempts_of, int64_positive, int64_less, should_retry,
}
use native.Mathlib.Nat.{mul_assoc, mul-one, one-le-pow, mul-le-mul_left, pow-succ'}

doubled-exact : (n d : ℕ) → d * 2 ^ n < 2 ^ 63 → doubled n d ≡ d * 2 ^ n
unfolding doubled
doubled-exact zero d h = omega arith
doubled-exact (suc n) d h =
    let split : d * 2 ^ suc n ≡ (d * 2) * 2 ^ n =
      ap (λ x. d * x) (pow-succ' 2 n) ∙ sym (mul_assoc d 2 (2 ^ n)) in
    let small : d * 2 ≤ (d * 2) * 2 ^ n =
      subst (λ x. x ≤ (d * 2) * 2 ^ n) (mul-one (d * 2))
        (mul-le-mul_left (d * 2) (one-le-pow n 2 (omega arith))) in
    let below : (d * 2) * 2 ^ n < 2 ^ 63 = subst (λ x. x < 2 ^ 63) split h in
    let fits : u64 (d * 2) ≡ d * 2 = omega (arith, small, below) in
    rw (doubled, fits) (doubled-exact n (d * 2) below ∙ sym split)

int64_less-exact : (x y : ℕ) → x < 2 ^ 63 → y < 2 ^ 63 → int64_less x y ≡ ltb x y
int64_less-exact x y hx hy =
    let fx : u64 (x + 2 ^ 63) ≡ x + 2 ^ 63 = omega arith in
    let fy : u64 (y + 2 ^ 63) ≡ y + 2 ^ 63 = omega arith in ground (arith, fx, fy)

capped-exact :
    (p : RetryPolicy) (d : ℕ)
    → d < 2 ^ 63
    → capped p d ≡ (if int64_positive p.max_delay && ltb p.max_delay d then p.max_delay else d)
unfolding capped
capped-exact p d hd = elim (Bool-cases (int64_positive p.max_delay)) [
  | inl e ↦
      let m : p.max_delay < 2 ^ 63 = ground (arith, e) in
      ground (arith, e, int64_less-exact p.max_delay d m hd)
  | inr e ↦ ground (arith, e)
]

-- The first delay: the policy's if that is positive, and else a second.
abbrev pub first_delay : RetryPolicy → ℕ
first_delay p = if int64_positive p.initial_delay then p.initial_delay else 1000000000

-- No retry after the last attempt.
pub should_retry-attempts :
    (p : RetryPolicy) (err : Failure) (attempt : ℕ)
    → attempts_of p ≤ attempt
    → should_retry p (some err) attempt ≡ none
unfolding should_retry
should_retry-attempts p err attempt h = ground arith

-- The i-th attempt that fails with an error that may be retried is repeated, before the last attempt, after the first
-- delay times two to the i - 1, and after the longest delay if that is positive and shorter, where the product fits an
-- int64. The first delay is the policy's, or a second if the policy's is not positive.
pub should_retry-exact :
    (p : RetryPolicy) (err : Failure) (attempt : ℕ)
    → err.retryable ≡ true
    → attempt < attempts_of p
    → first_delay p * 2 ^ (attempt - 1) < 2 ^ 63
    → should_retry p (some err) attempt
      ≡ some (
          if int64_positive p.max_delay && ltb p.max_delay (first_delay p * 2 ^ (attempt - 1))
          then p.max_delay
          else first_delay p * 2 ^ (attempt - 1))
unfolding should_retry
should_retry-exact p err attempt r a h =
    let k : ℕ = attempt - 1 in
    let again : leb (attempts_of p) attempt ≡ false = ground (arith, a) in
    rw (should_retry, r, again, doubled-exact k (first_delay p) h)
      (ap some (capped-exact p (first_delay p * 2 ^ k) h))
