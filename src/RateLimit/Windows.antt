-- ===== src/RateLimit/Windows.antt =====
-- apps/web/server/security/rate-limit.ts: how many requests pass in a window.
use wtfoc.Prelude.{
  ℕ, ◌+◌, ◌-◌, ◌≤◌, min, String, Bool, true, false, ◌&&◌, Option, none, some, inl, inr, List, [],
  ◌∷◌, ◌==◌, ◌≡◌, refl, sym, ◌∙◌, all, leb, ltb, if◌then◌else◌, Bool-cases, ==_iff, ==_refl,
  text_has_eq, arith,
}
use wtfoc.Prelude.Dict
use wtfoc.Prelude.Dict.{Dict, get-set}
use wtfoc.RateLimit.{RateLimitBucket, RateLimiter, check_bucket, check}

-- A request: its time and its key.
abbrev pub Request : Type 0
Request = ℕ × String

abbrev passes : Bool → Bool → ℕ
passes own allowed = if own && allowed then 1 else 0

-- The requests under a key that are let through, and all of them.
unfoldable pub passed : String → List Request → RateLimiter → ℕ
unfolding check
passed key [] r = 0
passed key (q ∷ qs) r =
    let (s, result) = check q.0 q.1 r in passes (q.1 == key) result.allowed + passed key qs s

unfoldable pub asked : String → List Request → ℕ
asked key [] = 0
asked key (q ∷ qs) = (if q.1 == key then 1 else 0) + asked key qs

abbrev pub precedes : ℕ → Request → Bool
precedes time q = ltb q.0 time

check_other :
    (now : ℕ) (key other : String) (r : RateLimiter)
    → (other == key) ≡ false
    → (Dict.get key (check now other r).0.buckets ≡ Dict.get key r.buckets)
      × ((check now other r).0.limit ≡ r.limit)
unfolding check
check_other now key other r h = by_bucket (Dict.get other r.buckets)
  where
    by_bucket :
        (b : Option RateLimitBucket)
        → (Dict.get key (check_bucket now other r b).0.buckets ≡ Dict.get key r.buckets)
          × ((check_bucket now other r b).0.limit ≡ r.limit)
    by_bucket none = (get-set key other _ r.buckets ∙ rw h refl, refl)
    by_bucket (some b) = elim (Bool-cases (leb b.reset_at now)) [
      | inl over ↦ rw over (get-set key other _ r.buckets ∙ rw h refl, refl)
      | inr runs ↦ rw runs (elim (Bool-cases (leb r.limit b.count)) [
        | inl full ↦ rw full (refl, refl)
        | inr free ↦ rw free (get-set key other _ r.buckets ∙ rw h refl, refl)
      ])
    ]

check_full :
    (now : ℕ) (key : String) (r : RateLimiter) (b : RateLimitBucket)
    → Dict.get key r.buckets ≡ some b
    → leb b.reset_at now ≡ false
    → leb r.limit b.count ≡ true
    → ((check now key r).0 ≡ r) × ((check now key r).1.allowed ≡ false)
unfolding check
check_full now key r b there runs full = rw there (rw runs (rw full (refl, refl)))

check_free :
    (now : ℕ) (key : String) (r : RateLimiter) (b : RateLimitBucket)
    → Dict.get key r.buckets ≡ some b
    → leb b.reset_at now ≡ false
    → leb r.limit b.count ≡ false
    → (Dict.get key (check now key r).0.buckets ≡ some (record b { count = b.count + 1 }))
      × ((check now key r).0.limit ≡ r.limit)
      × ((check now key r).1.allowed ≡ true)
unfolding check
check_free now key r b there runs free =
    rw there (rw runs (rw free (get-set key key _ r.buckets ∙ rw (==_refl key) refl, refl, refl)))

-- Within a window, the requests under its key that pass are those that were asked for, up to what is left of the
-- limit, whatever is asked for under other keys in between.
pub passed-min :
    (key : String) (qs : List Request) (r : RateLimiter) (b : RateLimitBucket)
    → Dict.get key r.buckets ≡ some b
    → b.count ≤ r.limit
    → all (precedes b.reset_at) qs ≡ true
    → passed key qs r ≡ min (asked key qs) (r.limit - b.count)
unfolding passed asked
passed-min key [] r b h c t = omega arith
passed-min key (q ∷ qs) r b h c t = elim (Bool-cases (q.1 == key)) [
  | inl own ↦
      let mine : q.1 ≡ key = (==_iff q.1 key).0 own in
      let there : Dict.get q.1 r.buckets ≡ some b = rw mine h in
      let runs : leb b.reset_at q.0 ≡ false = ground (arith, t) in
      let later : all (precedes b.reset_at) qs ≡ true = ground arith in
      elim (Bool-cases (leb r.limit b.count)) [
        | inl full ↦
            let (same, no_pass) = check_full q.0 q.1 r b there runs full in
            let rest = passed-min key qs r b h c later in
            rw own (rw same (rw no_pass (ground (arith, rest, full))))
        | inr free ↦
            let (next, same, pass) = check_free q.0 q.1 r b there runs free in
            let more : b.count + 1 ≤ r.limit = ground (arith, free) in
            let rest =
              passed-min key qs (check q.0 q.1 r).0 (record b { count = b.count + 1 })
                (rw (sym mine) next) (rw same more) later in
            rw own (rw pass (ground (arith, rest, same, more)))
      ]
  | inr other ↦
      let (kept, same) = check_other q.0 key q.1 r other in
      let rest = passed-min key qs (check q.0 q.1 r).0 b (kept ∙ h) (rw same c) (ground arith) in
      rw other (ground (arith, rest, same))
]
