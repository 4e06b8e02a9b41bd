-- ===== src/Queue/Retry.antt =====
-- QueueRetryPolicy of app/services/runtime/queue/reliability.go. A duration is an int64 number of
-- nanoseconds, by its two's complement.
pub mod Backoff
use goravel_mine.Base.{
  ℕ, zero, suc, ◌+◌, ◌-◌, ◌*◌, ◌^◌, Bool, not, ◌&&◌, Option, none, some, ltb, leb, if◌then◌else◌,
  u64,
}
use goravel_mine.Base.Texts.{Text}

-- An error as errors.As sees it: its text, and the answer of Retryable, which is true of an error that
-- does not have the method.
pub record Failure : Type 0 where
  pub message : Text
  pub retryable : Bool

pub record RetryPolicy : Type 0 where
  pub max_attempts : ℕ
  pub initial_delay : ℕ
  pub max_delay : ℕ

abbrev pub second : ℕ
second = 1000000000

-- queueOutboxRetryPolicy
abbrev pub outbox_policy : RetryPolicy
outbox_policy = record { max_attempts = 4; initial_delay = second; max_delay = 30 * second }

abbrev pub int64_positive : ℕ → Bool
int64_positive d = ltb 0 d && ltb d (2 ^ 63)

-- The order of int64 numbers.
abbrev pub int64_less : ℕ → ℕ → Bool
int64_less x y = ltb (u64 (x + 2 ^ 63)) (u64 (y + 2 ^ 63))

-- The loop of ShouldRetry.
unfoldable pub doubled : ℕ → ℕ → ℕ
doubled zero delay = delay
doubled (suc n) delay = doubled n (u64 (delay * 2))

abbrev pub attempts_of : RetryPolicy → ℕ
attempts_of p = if ltb p.max_attempts 1 then 3 else p.max_attempts

unfoldable pub capped : RetryPolicy → ℕ → ℕ
capped p delay =
    if int64_positive p.max_delay && int64_less p.max_delay delay then p.max_delay else delay

-- ShouldRetry: the delay, or `none`.
unfoldable pub should_retry : RetryPolicy → Option Failure → ℕ → Option ℕ
should_retry p none attempt = none
should_retry p (some err) attempt =
    if not err.retryable
    then none
    else if leb (attempts_of p) attempt
    then none
    else some (
        capped p (
          doubled (attempt - 1)
            (if int64_positive p.initial_delay then p.initial_delay else second)))
