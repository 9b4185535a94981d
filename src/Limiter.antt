-- ===== src/Limiter.antt =====
-- internal/middleware/ratelimit.go: the token bucket of each user.
-- The code counts tokens as `float64`; here they are exact, in parts of which `token` make one token: at
-- a rate of r requests per minute a bucket gains r parts in a nanosecond.
pub mod Bounds
pub mod Hits
pub mod Waits
use Prim.Native.Nat.{◌/◌}
use k8s_mtp.Common.{
  ℕ, zero, suc, ◌+◌, String, Bool, Option, none, some, List, ◌==◌, if◌then◌else◌, lookup, insert,
}
use k8s_mtp.Common.Int.{ℤ, pos, negsuc, sub_ℕ, ◌+ℤ◌, ◌-ℤ◌, ◌*ℤ◌, ltb_ℤ, leb_ℤ}
use k8s_mtp.Settings.{Config}

abbrev pub token : ℕ
token = 60_000_000_000

-- A time is in nanoseconds.
pub record Bucket : Type 0 where
  pub tokens : ℤ
  pub last_refill : ℕ

-- `rate` is in requests per minute.
pub record RateLimiter : Type 0 where
  pub rate : ℤ
  pub burst : ℤ

unfoldable pub new_rate_limiter : Config → RateLimiter
new_rate_limiter cfg = record { rate = cfg.rate_requests_per_minute; burst = cfg.rate_burst }

abbrev pub Buckets : Type 0
Buckets = List (String × Bucket)

unfoldable pub capacity : RateLimiter → ℤ
capacity l = l.burst *ℤ pos token

unfoldable pub new_bucket : RateLimiter → ℕ → Bucket
new_bucket l made = record { tokens = capacity l; last_refill = made }

-- The tokens with those for the time since the last refill.
unfoldable pub grown : RateLimiter → ℕ → Bucket → ℤ
grown l now b = b.tokens +ℤ l.rate *ℤ sub_ℕ now b.last_refill

unfoldable pub refilled : RateLimiter → ℕ → Bucket → ℤ
refilled l now b = if ltb_ℤ (capacity l) (grown l now b) then capacity l else grown l now b

unfoldable pub spend : RateLimiter → ℕ → Bucket → Bucket
spend l now b = record { tokens = refilled l now b -ℤ pos token; last_refill = now }

unfoldable pub is_allowed : Bucket → Bool
is_allowed b = leb_ℤ (pos 0) b.tokens

-- `made` is the time that a new bucket gets, `now` that of the refill.
unfoldable pub found_or_new : RateLimiter → ℕ → Option Bucket → Bucket
found_or_new l made none = new_bucket l made
found_or_new l made (some b) = b

unfoldable pub take : RateLimiter → String → ℕ → ℕ → Buckets → Bool × Buckets
take l key made now buckets =
    let b = spend l now (found_or_new l made (lookup key buckets)) in
    (is_allowed b, insert key b buckets)

-- The key of a request: the user of its context, or its remote address where there is none.
unfoldable pub limit_key : String → String → String
limit_key user remote_addr = if user == "" then remote_addr else user

-- `math.Ceil(1.0 / rl.rate)`, which is the header `Retry-After`, in seconds; a rate that is not positive gives
-- no number of seconds, `none`.
abbrev pub seconds_for : ℤ → Option ℕ
seconds_for (pos zero) = none
seconds_for (pos (suc n)) = some ((60 + n) / suc n)
seconds_for (negsuc n) = none

unfoldable pub retry_after : RateLimiter → Option ℕ
retry_after l = seconds_for l.rate
