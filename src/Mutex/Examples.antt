-- ===== src/Mutex/Examples.antt =====
-- Tests of src/posix_pthread_mutex.c, and its theorems at concrete mutexes.
use libposix.Prelude.{◌≡◌, refl, [], ◌∷◌, none, some, arith}
use libposix.Prelude.Status.{ok, errnum, einval, edeadlk, eperm, enomem}
use libposix.Board.{board, owners}
use libposix.Prelude.Int.{pos}
use libposix.Time.{Timespec}
use libposix.Mutex.{
  PthreadMutex, pthread_mutex_init, pthread_mutex_unlock, pthread_mutexattr_settype,
}
use libposix.Prelude.Replay.{replay}
use libposix.Mutex.Owner.{tries, unlocks, call, serve, free, replay-call-serve}

-- Task 7 holds a normal mutex, and nobody an error-checking one.
abbrev held : PthreadMutex owners
held = record { inited = 1; mux = some 7; type = 0 }

abbrev unheld : PthreadMutex owners
unheld = record { inited = 1; mux = none; type = 1 }

initialises : pthread_mutex_init owners (some held) (some 1) ≡ (ok, some unheld)
unfolding pthread_mutex_init
initialises = refl

initialises_none : pthread_mutex_init owners none none ≡ (errnum enomem, none)
unfolding pthread_mutex_init
initialises_none = refl

no_such_type : pthread_mutexattr_settype 1 3 ≡ (errnum einval, 1)
unfolding pthread_mutexattr_settype
no_such_type = refl

-- Nobody checks who unlocks a normal mutex.
unlocked_by_other : pthread_mutex_unlock owners 3 held ≡ (ok, record held { mux = none })
unfolding pthread_mutex_unlock
unlocked_by_other = refl

-- Task 3 takes the mutex, 4 fails to take it and to unlock it, and 3 tries once more and unlocks twice.
replay-call-serve_example :
    ((replay
        (call owners board 90061 0)
        (tries 3 ∷ tries 4 ∷ unlocks 4 ∷ tries 3 ∷ unlocks 3 ∷ unlocks 3 ∷ [])
        unheld).0
      ≡ ok ∷ ok ∷ errnum eperm ∷ errnum edeadlk ∷ ok ∷ errnum eperm ∷ [])
    × ((replay
          (call owners board 90061 0)
          (tries 3 ∷ tries 4 ∷ unlocks 4 ∷ tries 3 ∷ unlocks 3 ∷ unlocks 3 ∷ [])
          unheld).1.mux
        ≡ none)
unfolding serve
replay-call-serve_example =
    replay-call-serve owners board 90061 0 (omega arith) (omega arith)
      (tries 3 ∷ tries 4 ∷ unlocks 4 ∷ tries 3 ∷ unlocks 3 ∷ unlocks 3 ∷ []) unheld none
      (record { init = omega arith; checks = refl; held = free refl })

-- Task 3 with a deadline of 91.0005 s at 90.061 s, with a tick of a millisecond.
abbrev soon : Timespec
soon = record { tv_sec = pos 91; tv_nsec = pos 500000 }
