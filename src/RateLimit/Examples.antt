-- ===== src/RateLimit/Examples.antt =====
-- A limiter of two requests in a minute, after the first one.
use wtfoc.Prelude.{some, [], ◌∷◌, ◌≡◌, min, ◌-◌, List, refl, arith, text_has_eq}
use wtfoc.Prelude.Dict
use wtfoc.RateLimit.{RateLimiter, RateLimitBucket, new_rate_limiter, check}
use wtfoc.RateLimit.Windows.{Request, passed, asked, passed-min}

abbrev bucket : RateLimitBucket
bucket = record { count = 1; reset_at = 60005 }

abbrev limiter : RateLimiter
limiter = record (new_rate_limiter 2 60) { buckets = ("0xa", bucket) ∷ [] }

abbrev requests : List Request
requests = (10, "0xa") ∷ (20, "0xb") ∷ (30, "0xa") ∷ []

opened : (check 5 "0xa" (new_rate_limiter 2 60)).0 ≡ limiter
unfolding check Dict.get Dict.set
opened = refl

there : Dict.get "0xa" limiter.buckets ≡ some bucket
unfolding Dict.get
there = refl

passed-min_example : passed "0xa" requests limiter ≡ min (asked "0xa" requests) (2 - 1)
passed-min_example = passed-min "0xa" requests limiter bucket there (omega arith) refl
