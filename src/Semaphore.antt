-- ===== src/Semaphore.antt =====
-- packages/ingest/src/edges/semaphore.ts. A ticket is one call of `acquire`, by the number of the call.
-- `held` has the tickets whose release function exists and was not called: those whose flag
-- `released` is false.
pub mod Permits
mod Examples
use wtfoc.Prelude.{
  ℕ, zero, suc, ◌-◌, ◌+◌, Bool, true, false, List, [], ◌∷◌, ◌++◌, ◌==◌, ltb, includes,
  if◌then◌else◌, number_has_eq,
}

pub record Semaphore : Type 0 where
  pub count : ℕ
  pub waiters : List ℕ
  pub held : List ℕ

abbrev pub new_semaphore : ℕ → Semaphore
new_semaphore count = record { count = count; waiters = []; held = [] }

-- `this.#count--` and `#makeRelease`
abbrev pub grant : ℕ → Semaphore → Semaphore
grant ticket s = record s { count = s.count - 1; held = s.held ++ ticket ∷ [] }

unfoldable pub acquire : ℕ → Semaphore → Semaphore
acquire ticket s =
    if ltb 0 s.count then grant ticket s else record s { waiters = s.waiters ++ ticket ∷ [] }

-- `#waiters.shift()` and the call of what it gives
abbrev pub wake : List ℕ → Semaphore → Semaphore
wake [] s = s
wake (ticket ∷ waiters) s = grant ticket (record s { waiters = waiters })

abbrev pub release_one : Semaphore → Semaphore
release_one s = wake s.waiters (record s { count = s.count + 1 })

unfoldable pub remove : ℕ → List ℕ → List ℕ
remove ticket [] = []
remove ticket (t ∷ ts) = if t == ticket then ts else t ∷ remove ticket ts

-- A call of the release function of a ticket; the second call does nothing.
unfoldable pub release : ℕ → Semaphore → Semaphore
unfolding remove
release ticket s =
    if includes s.held ticket then release_one (record s { held = remove ticket s.held }) else s
