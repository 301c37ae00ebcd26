-- ===== src/Barrier/Examples.antt =====
-- src/posix_pthread_barrier.c on a barrier of two, with two calls of `pthread_barrier_wait`.
use libposix.Prelude.{ℕ, ◌≡◌, ◌<◌, ◌≤◌, ◌*◌, ◌⊎◌, refl, some, [], ◌∷◌, arith}
use libposix.Prelude.Status.{errnum, einval}
use libposix.Prelude.Counting.{total}
use libposix.Board.{counters}
use libposix.Barrier.{
  serial_thread, zero_, invalid, outside, counted, posting, waiting, returned, Barrier, System,
  Step, moves, Reach, start, next, enter, move, pthread_barrier_init,
}
use libposix.Barrier.Counts.{is_counted, is_passed}
use libposix.Barrier.Invariant.{fresh}
use libposix.Barrier.Moves.{n_moves}
use libposix.Barrier.Gate.{gate, Advance, Reach-Advance}
use libposix.Barrier.Passing.{
  is_serial, Reach-no_early, Reach-serial, Reach-no_deadlock, Reach-closed, Reach-completes,
}

abbrev garbage : Barrier counters
garbage = record { cur_thread = 7; threshold = 7; sem = 7 }

abbrev two : ℕ → ℕ → Barrier counters
two cur sem = record { cur_thread = cur; threshold = 2; sem = sem }

no_barrier_of_0 : pthread_barrier_init counters garbage 0 ≡ (errnum einval, garbage)
unfolding pthread_barrier_init
no_barrier_of_0 = refl

-- Both calls come; the second finds the barrier full, posts and passes.
abbrev passed : System counters
passed = record { barrier = two 2 1; calls = counted 1 ∷ returned zero_ ∷ [] }

passed_run : Reach counters (fresh counters 2 2 garbage) passed
unfolding pthread_barrier_init move enter
passed_run =
    next
      (next
        (next
          (next (next start (moves [] (outside ∷ []) (two 0 0) (two 1 0) outside (counted 1) refl))
            (moves (counted 1 ∷ []) [] (two 1 0) (two 2 0) outside (counted 2) refl))
          (moves (counted 1 ∷ []) [] (two 2 0) (two 2 0) (counted 2) (posting 2) refl))
        (moves (counted 1 ∷ []) [] (two 2 0) (two 2 2) (posting 2) (waiting 2) refl))
      (moves (counted 1 ∷ []) [] (two 2 2) (two 2 1) (waiting 2) (returned zero_) refl)

-- Then the first finds it full too, posts once more, and passes: the semaphore is left above 0.
abbrev all_passed : System counters
all_passed = record { barrier = two 2 2; calls = returned serial_thread ∷ returned zero_ ∷ [] }

all_passed_run : Reach counters (fresh counters 2 2 garbage) all_passed
unfolding move enter
all_passed_run =
    next
      (next
        (next passed_run
          (moves [] (returned zero_ ∷ []) (two 2 1) (two 2 1) (counted 1) (posting 1) refl))
        (moves [] (returned zero_ ∷ []) (two 2 1) (two 2 3) (posting 1) (waiting 1) refl))
      (moves [] (returned zero_ ∷ []) (two 2 3) (two 2 2) (waiting 1) (returned serial_thread) refl)

Reach-no_early_example : (total is_counted passed.calls ≡ 2) × (total is_passed passed.calls ≤ 2)
Reach-no_early_example =
    Reach-no_early counters garbage 2 2 (omega arith) (omega arith) passed passed_run (omega arith)

Reach-serial_example :
    (total is_serial all_passed.calls ≤ 1)
    × ((total is_passed all_passed.calls < 2) ⊎ (total is_serial all_passed.calls ≡ 1))
Reach-serial_example =
    Reach-serial counters garbage 2 2 (omega arith) (omega arith) all_passed all_passed_run

Reach-no_deadlock_example :
    (total is_passed passed.calls ≡ 2) ⊎ ((u : System counters) × Step counters passed u)
Reach-no_deadlock_example =
    Reach-no_deadlock counters garbage 2 2 (omega arith) (omega arith) (omega arith) passed
      passed_run

Reach-closed_example : move counters (two 2 1) outside ≡ some (two 2 1, returned invalid)
Reach-closed_example =
    Reach-closed counters garbage 2 2 (omega arith) (omega arith) passed passed_run refl

-- The call that is counted finds the barrier full: the gate stays as it is.
Reach-Advance_example :
    let u : System counters = record {
      barrier = two 2 1;
      calls = posting 1 ∷ returned zero_ ∷ [];
    } in
    (gate counters (fresh counters 2 2 garbage) ≡ record { arrived = 0; passed = 0 })
    × ((gate counters u ≡ gate counters passed)
        ⊎ Advance 2 (gate counters passed) (gate counters u))
unfolding move
Reach-Advance_example =
    Reach-Advance counters 2 2 garbage (omega arith) (omega arith) passed
      (record { barrier = two 2 1; calls = posting 1 ∷ returned zero_ ∷ [] }) passed_run
      (moves [] (returned zero_ ∷ []) (two 2 1) (two 2 1) (counted 1) (posting 1) refl)

Reach-completes_example :
    (n_moves counters passed_run ≤ 4 * 2)
    × ((u : System counters) × Reach counters passed u × (total is_passed u.calls ≡ 2))
Reach-completes_example =
    Reach-completes counters garbage 2 2 (omega arith) (omega arith) (omega arith) passed passed_run
