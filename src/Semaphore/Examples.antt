-- ===== src/Semaphore/Examples.antt =====
-- Tests of src/posix_semaphore.c, and its theorems at concrete semaphores.
use libposix.Prelude.{inl, ◌∷◌, ℕ, ◌≡◌, ◌⊎◌, ◌*◌, refl, none, some, [], arith}
use libposix.Prelude.Int.{◌<ℤ◌, ◌-ℤ◌, pos, negsuc, int32}
use libposix.Prelude.Status.{ok, fail, errnum, etimedout, einval}
use libposix.Board.{board, counters}
use libposix.Utils.{validate_timespec}
use libposix.Time.{Timespec, nanos}
use libposix.Clock.Due.{IsLeast}
use libposix.Clock.{Thread, set_errno}
use libposix.Prelude.Replay.{replay}
use libposix.Semaphore.Counter.{
  tries, waits_until, posts, reads, returned, posted, value, count, call, replay-call-count,
}
use libposix.Semaphore.Deadline.{sem_timedwait-IsLeast}
use libposix.Semaphore.{finish_wait, sem_timedwait, sem_wait, wait_ticks}

abbrev fresh : Thread
fresh = record { errno = none; sleeps = [] }

abbrev bad_time : Timespec
bad_time = record { tv_sec = pos 0; tv_nsec = negsuc 0 }

waits : sem_wait counters board 90061 3 fresh ≡ (ok, fresh, 2)
unfolding sem_wait wait_ticks
waits = refl

-- A semaphore at 0 is tried, posted, read, taken with an invalid deadline, and waited for with it.
replay-call-count_example :
    let r =
      replay
        (call counters board 90061)
        (tries ∷ posts ∷ reads ∷ waits_until bad_time ∷ waits_until bad_time ∷ [])
        (0, fresh) in
    (r.0 ≡ returned fail ∷ posted ∷ value (pos 1) ∷ returned ok ∷ returned fail ∷ [])
    × (r.1.0 ≡ 0)
    × (r.1.1 ≡ set_errno einval fresh)
unfolding count validate_timespec int32
replay-call-count_example =
    replay-call-count counters board 90061 (omega arith) (omega arith)
      (tries ∷ posts ∷ reads ∷ waits_until bad_time ∷ waits_until bad_time ∷ []) 0 fresh
      (tt, (tt, (tt, (inl refl, (inl refl, tt)))))

-- A deadline of 91.0005 s at 90.061 s, with a tick of a millisecond.
abbrev soon : Timespec
soon = record { tv_sec = pos 91; tv_nsec = pos 500000 }

sem_timedwait-IsLeast_example :
    ((nanos soon <ℤ pos (90061 * 1000000))
      × (sem_timedwait counters board 90061 0 (some soon) fresh
          ≡ finish_wait counters (errnum etimedout) (counters.sem_get 0 0) fresh))
    ⊎ ((k : ℕ) × (sem_timedwait counters board 90061 0 (some soon) fresh
          ≡ finish_wait counters ok (counters.sem_get 0 k) fresh)
        × IsLeast board 90061 soon k)
unfolding ◌-ℤ◌
sem_timedwait-IsLeast_example =
    sem_timedwait-IsLeast counters board 90061 (omega arith) (omega arith) refl soon
      (record { nonneg = omega arith; below = omega arith }) (omega arith) (omega arith) 0 fresh
