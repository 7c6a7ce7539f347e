-- ===== src/RateLimit.antt =====
-- apps/web/server/security/rate-limit.ts: `RateLimiter` as explicit state passing.
-- `now` is `Date.now()`.
pub mod Windows
mod Examples
use wtfoc.Prelude.{
  ℕ, zero, suc, ◌+◌, ◌-◌, ◌*◌, String, Bool, true, false, Option, none, some, List, [], ◌∷◌, leb,
  or_else, if◌then◌else◌, text_has_eq,
}
use wtfoc.Prelude.Dict
use wtfoc.Prelude.Dict.{Dict}

pub data ℤ : Type 0 where
  pos negsuc : ℕ → ℤ

-- A difference of two counts, which may be negative.
abbrev pub minus : ℕ → ℕ → ℤ
minus m n = if leb n m then pos (m - n) else negsuc (n - m - 1)

pub record RateLimitBucket : Type 0 where
  pub count : ℕ
  pub reset_at : ℕ

pub record RateLimiter : Type 0 where
  pub buckets : Dict String RateLimitBucket
  pub limit : ℕ
  pub window_seconds : ℕ

pub record CheckResult : Type 0 where
  pub allowed : Bool
  pub remaining : ℤ
  pub reset_at : ℕ

abbrev pub new_rate_limiter : ℕ → ℕ → RateLimiter
new_rate_limiter limit window_seconds = record {
  buckets = [];
  limit = limit;
  window_seconds = window_seconds;
}

-- A new window.
abbrev pub open_window : ℕ → String → RateLimiter → RateLimiter × CheckResult
open_window now key r =
    let reset_at = now + r.window_seconds * 1000 in
    (
      record r { buckets = Dict.set key (record { count = 1; reset_at = reset_at }) r.buckets },
      record { allowed = true; remaining = minus r.limit 1; reset_at = reset_at },
    )

abbrev pub check_bucket :
    ℕ → String → RateLimiter → Option RateLimitBucket → RateLimiter × CheckResult
check_bucket now key r none = open_window now key r
check_bucket now key r (some bucket) =
    if leb bucket.reset_at now
    then open_window now key r
    else (if leb r.limit bucket.count
        then (r, record { allowed = false; remaining = pos 0; reset_at = bucket.reset_at })
        else (
          record r {
            buckets = Dict.set key (record bucket { count = bucket.count + 1 }) r.buckets;
          },
          record {
            allowed = true;
            remaining = minus r.limit (bucket.count + 1);
            reset_at = bucket.reset_at;
          },
        ))

unfoldable pub check : ℕ → String → RateLimiter → RateLimiter × CheckResult
check now key r = check_bucket now key r (Dict.get key r.buckets)
