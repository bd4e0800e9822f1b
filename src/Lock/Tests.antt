-- ===== src/Lock/Tests.antt =====
-- The lock of p4/xv6/user/thread_lib.c with two threads that contend for it.
use bacon_eggs.Prelude.{ℕ, ◌≡◌, refl}
use bacon_eggs.Lock.{
  outside, spinning, Threads, set_phase, lock_init, acquire_round, Reach, here, next, calls, tries,
  exclusion_lem,
}

abbrev idle : Threads
idle = record { flag = 1; phase = λ i. outside }

abbrev contended : Threads
contended = set_phase (set_phase (lock_init idle) 1 spinning) 2 spinning

contended-Reach : Reach (lock_init idle) contended
contended-Reach = next (next here (calls 1 refl)) (calls 2 refl)

exclusion_lem_example : ◌≡◌ {A = ℕ} 2 2
unfolding acquire_round
exclusion_lem_example =
    exclusion_lem idle (λ i e. cc) (next contended-Reach (tries 2 refl)) 2 2 refl refl
