-- ===== src/Tenant/Rate.antt =====
-- RateLimiter, app/services/tenancy/tenant/rate_limiter.go. Times are in nanoseconds; the cache keeps the hits of a
-- tenant for two minutes. Whether the lock is obtained and whether the cache takes a value are arguments.
pub mod Window
use goravel_mine.Base.{
  ℕ, ◌+◌, ◌*◌, ◌/◌, ◌^◌, Bool, not, List, [], ◌∷◌, ◌++◌, ltb, leb, if◌then◌else◌, length, select,
}
use goravel_mine.Base.Eq.{nat_eq, list_eq}
use goravel_mine.Queue.Retry.{int64_positive}

abbrev pub second : ℕ
second = 10 ^ 9

-- Truncate(time.Second)
abbrev pub truncated : ℕ → ℕ
truncated t = (t / second) * second

-- The value of the cache and the time at which it was put.
pub record Bucket : Type 0 where
  pub hits : List ℕ
  pub put_at : ℕ

-- cache.GetString, under the lifetime rateBucketTTL
abbrev pub cached : ℕ → Bucket → List ℕ
cached t b = if ltb t (b.put_at + 120 * second) then b.hits else []

-- hit.After(cutoff)
abbrev pub recent : ℕ → ℕ → Bool
recent now hit = ltb now (hit + 60 * second)

-- recentRateHits
unfoldable pub recent_hits : ℕ → List ℕ → List ℕ
recent_hits now hits = select (recent now) hits

pub data Answer : Type 0 where
  allowed quota_exceeded cache_error : Answer

-- incrementAndSum and the comparison with the limit
unfoldable pub increment : ℕ → ℕ → Bool → Bucket → Answer × Bucket
increment limit t stored b =
    let now = truncated t in
    let hits = recent_hits now (cached t b) in
    if leb limit (length hits)
    then (quota_exceeded, b)
    else (if stored
        then (
          if ltb limit (length (hits ++ now ∷ [])) then quota_exceeded else allowed,
          record { hits = hits ++ now ∷ []; put_at = t },
        )
        else (cache_error, b))

-- Allow: an int64 limit that is not positive is none.
unfoldable pub allow : ℕ → ℕ → Bool → Bool → Bucket → Answer × Bucket
allow limit t obtained stored b =
    if not (int64_positive limit)
    then (allowed, b)
    else if not obtained
    then (quota_exceeded, b)
    else increment limit t stored b
