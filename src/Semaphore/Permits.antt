-- ===== src/Semaphore/Permits.antt =====
-- packages/ingest/src/edges/semaphore.ts: the permits of a semaphore, over any order of calls.
use wtfoc.Prelude.{
  ℕ, suc, ◌+◌, ◌<◌, true, inl, inr, List, [], ◌∷◌, ◌≡◌, refl, ltb, includes, length, length-append,
  Bool-cases, number_has_eq, arith,
}
use wtfoc.Semaphore.{Semaphore, new_semaphore, acquire, wake, remove, release}

-- The calls of a semaphore that was made with some permits, in any order.
pub data Calls (permits : ℕ) : Semaphore → Type 0 where
  constructed : Calls permits (new_semaphore permits)
  acquired : {s : Semaphore} (ticket : ℕ) → Calls permits s → Calls permits (acquire ticket s)
  released : {s : Semaphore} (ticket : ℕ) → Calls permits s → Calls permits (release ticket s)

-- The permits that are free and those that are held are all permits, and no call waits while one is
-- free.
pub record Balanced (permits : ℕ) (s : Semaphore) : Type 0 where
  pub all_permits : s.count + length s.held ≡ permits
  pub no_free_wait : (0 < length s.waiters) → s.count ≡ 0

length-remove :
    (ticket : ℕ) (ts : List ℕ)
    → includes ts ticket ≡ true
    → suc (length (remove ticket ts)) ≡ length ts
unfolding remove
length-remove ticket [] h = ground arith
length-remove ticket (t ∷ ts) h = ground (arith, length-remove ticket ts)

acquire-Balanced :
    (permits ticket : ℕ) (s : Semaphore) → Balanced permits s → Balanced permits (acquire ticket s)
unfolding acquire
acquire-Balanced permits ticket s b = elim (Bool-cases (ltb 0 s.count)) [
  | inl free ↦ rw free (record {
    all_permits = ground (arith, b.all_permits, length-append s.held (ticket ∷ []), free);
    no_free_wait = λ w. ground (arith, b.no_free_wait w, free);
  })
  | inr full ↦
      rw full (record { all_permits = b.all_permits; no_free_wait = λ w. ground (arith, full) })
]

wake-Balanced :
    (permits : ℕ) (waiters : List ℕ) (s : Semaphore)
    → s.waiters ≡ waiters
    → s.count + length s.held ≡ permits
    → (0 < length waiters → s.count ≡ 1)
    → Balanced permits (wake waiters s)
wake-Balanced permits [] s e all one = record {
  all_permits = all;
  no_free_wait = λ w. ground (arith, e, w);
}
wake-Balanced permits (t ∷ ts) s e all one = record {
  all_permits = ground (arith, all, one (omega arith), length-append s.held (t ∷ []));
  no_free_wait = λ w. ground (arith, one (omega arith));
}

release-Balanced :
    (permits ticket : ℕ) (s : Semaphore) → Balanced permits s → Balanced permits (release ticket s)
unfolding release
release-Balanced permits ticket s b = elim (Bool-cases (includes s.held ticket)) [
  | inl holds ↦ rw holds (
      wake-Balanced permits s.waiters
        (record { count = s.count + 1; waiters = s.waiters; held = remove ticket s.held }) refl
        (ground (arith, b.all_permits, length-remove ticket s.held holds))
        (λ w. ground (arith, b.no_free_wait w)))
  | inr gone ↦ rw gone b
]

-- Whatever the calls of `acquire` and of the release functions and their order, a release called twice
-- included: the free permits and the held ones are as many as the semaphore was made with, and while
-- a call waits no permit is free.
pub Calls-Balanced : (permits : ℕ) (s : Semaphore) → Calls permits s → Balanced permits s
Calls-Balanced permits s constructed = record {
  all_permits = omega arith;
  no_free_wait = λ w. ground (arith, w);
}
Calls-Balanced permits _ (acquired {s = s} ticket calls) =
    acquire-Balanced permits ticket s (Calls-Balanced permits s calls)
Calls-Balanced permits _ (released {s = s} ticket calls) =
    release-Balanced permits ticket s (Calls-Balanced permits s calls)
