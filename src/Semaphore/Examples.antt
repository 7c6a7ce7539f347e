-- ===== src/Semaphore/Examples.antt =====
-- One permit, two calls that acquire it and a release that is called twice.
use wtfoc.Prelude.{[], ◌∷◌, ◌≡◌, refl}
use wtfoc.Semaphore.{Semaphore, new_semaphore, acquire, release, remove}
use wtfoc.Semaphore.Permits.{constructed, acquired, released, Balanced, Calls-Balanced}

abbrev handed_over : Semaphore
handed_over = release 0 (release 0 (acquire 1 (acquire 0 (new_semaphore 1))))

second_holds : handed_over ≡ record { count = 0; waiters = []; held = 1 ∷ [] }
unfolding acquire release remove
second_holds = refl

Calls-Balanced_example : Balanced 1 handed_over
Calls-Balanced_example =
    Calls-Balanced 1 handed_over (released 0 (released 0 (acquired 1 (acquired 0 constructed))))
