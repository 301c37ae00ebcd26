-- ===== src/Pthread/Interleavings.antt =====
-- A thread of src/posix_pthread.c and two calls of `pthread_join` on it, step by step.
use libposix.Prelude.{
  ℕ, ◌+◌, ◌*◌, ◌≤◌, ◌<◌, ◌≡◌, refl, ◌⊎◌, none, some, false, true, List, [], ◌∷◌, length, get_elem?,
  arith,
}
use libposix.Prelude.Int.{pos, negsuc}
use libposix.Prelude.Replay.{replay}
use libposix.Prelude.Counting.{total}
use libposix.Prelude.Status.{ok}
use libposix.Board.{counters, owners}
use libposix.Attributes.{PthreadAttr, default_attr}
use libposix.Attributes.Record.{sets_priority, call}
use libposix.Pthread.{
  PthreadInternal, pthread_equal, pthread_create, pthread_getschedparam, new_thread,
}
use libposix.Pthread.Schedule.{
  calling, locked, taken, returned, Stage, running, ended, join_move, exit_move, System, joins,
  Reach, start, next, fresh,
}
use libposix.Pthread.Counts.{is_passed, is_inside, has_posted}
use libposix.Pthread.Joins.{Reach-passed, Reach-can_move}
use libposix.Pthread.Twice.{Reach-twice}
use libposix.Pthread.Priorities.{replay-pthread_create}

-- Priority 5, joinable; the thread is at 64 and its stack at 640.
abbrev attr : PthreadAttr
attr = record { stack_sz = 2048; status = 32773 }

abbrev blank : PthreadInternal counters owners
blank = record { attr = attr; stack = 0; barrier = 0; joined = 0; mux = none; ret = 0 }

abbrev self : ℕ → ℕ
self i = 128 + i

apart : (i : ℕ) → pthread_equal (self i) 64 ≡ false
unfolding pthread_equal
apart i = ground arith

-- The first call is past its wait while the thread still runs.
abbrev early : System counters owners
early = record {
  thread = record { attr = attr; stack = 640; barrier = 0; joined = 1; mux = some 0; ret = 0 };
  freed = [];
  stage = running;
  calls = taken ∷ calling ∷ [];
}

early_run : Reach counters owners 64 self (fresh counters owners 2 blank attr 640) early
unfolding join_move new_thread pthread_equal
early_run = next (next start (joins _ 0 calling _ refl refl)) (joins _ 0 locked _ refl refl)

Reach-passed_example :
    (total is_passed early.calls + early.thread.barrier ≡ 1 + has_posted early.stage)
    × (length early.freed ≤ (1 + has_posted early.stage) * 2)
    × (total is_inside early.calls ≤ 1)
Reach-passed_example =
    Reach-passed counters owners 64 self apart 2 blank attr 640 refl early early_run

Reach-can_move_example :
    (running ≡ ended)
    ⊎ ((r : PthreadInternal counters owners × List ℕ × Stage) × (exit_move counters owners 7 64
            early.thread running
          ≡ some r))
Reach-can_move_example =
    (Reach-can_move counters owners 64 self apart 2 blank attr 640 refl early early_run).0 7

Reach-twice_example :
    (t : System counters owners) × Reach counters owners 64 self
      (fresh counters owners 3 blank attr 640)
      t
    × (t.freed ≡ 640 ∷ 640 ∷ 64 ∷ 64 ∷ [])
    × (get_elem? t.calls 0 ≡ some (returned ok (some 7)))
    × (get_elem? t.calls 1 ≡ some (returned ok (some 7)))
Reach-twice_example = Reach-twice counters owners 64 self apart 1 7 blank attr 640 refl

-- The priority is set to 9, and -1 is refused.
replay-pthread_create_example :
    let set_twice = sets_priority (some (pos 9)) ∷ sets_priority (some (negsuc 0)) ∷ [] in
    let attr' = (replay (call 32) set_twice (default_attr 32)).1 in
    let t = new_thread counters owners blank attr' 640 in
    (p : ℕ) × ((pthread_create counters owners 32 true
        (some 64)
        (some 640)
        false
        blank
        (some attr')).thread
      ≡ some (64, pos p, t))
    × (p < 32)
    × (pthread_getschedparam counters owners t ≡ (ok, pos p))
replay-pthread_create_example =
    (replay-pthread_create counters owners 32 (omega arith) (omega arith)
      (sets_priority (some (pos 9)) ∷ sets_priority (some (negsuc 0)) ∷ []) 64 640 blank
      (some (pos 7))).0
