-- ===== src/Pthread/Examples.antt =====
-- The threads of src/posix_pthread.c at a concrete thread.
use libposix.Prelude.{◌≡◌, refl, none, true, false, [], ◌∷◌, arith}
use libposix.Prelude.Status.{errnum, edeadlk}
use libposix.Board.{counters, owners}
use libposix.Attributes.{PthreadAttr}
use libposix.Pthread.{PthreadInternal, pthread_equal, pthread_create, pthread_exit, pthread_join}
use libposix.Pthread.Joining.{pthread_join_self}

-- Priority 5: joinable, and detached.
abbrev attr : PthreadAttr
attr = record { stack_sz = 2048; status = 32773 }

abbrev loose : PthreadAttr
loose = record { stack_sz = 2048; status = 5 }

abbrev blank : PthreadInternal counters owners
blank = record { attr = loose; stack = 0; barrier = 0; joined = 0; mux = none; ret = 0 }

abbrev thread : PthreadInternal counters owners
thread = record { attr = attr; stack = 640; barrier = 1; joined = 1; mux = none; ret = 0 }

compares :
    (pthread_equal 64 64 ≡ true) × (pthread_equal 64 65 ≡ false) × (pthread_equal 0 0 ≡ false)
unfolding pthread_equal
compares = (refl, refl, refl)

no_memory : (pthread_create counters owners 32 true none none false blank none).null_written ≡ true
unfolding pthread_create
no_memory = refl

-- A detached thread frees its stack and itself.
exits_loose : (pthread_exit counters owners 7 64 (record thread { attr = loose })).1 ≡ 640 ∷ 64 ∷ []
unfolding pthread_exit
exits_loose = refl

pthread_join_self_example : (pthread_join counters owners 1 64 64 thread).result ≡ errnum edeadlk
pthread_join_self_example =
    (pthread_join_self counters owners 1 2 128 64 thread refl refl (omega arith)
      (λ e. omega (arith, e))).0
