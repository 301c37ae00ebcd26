-- ===== src/Barrier.antt =====
-- src/posix_pthread_barrier.c and `pthread_barrier_t` of include/hcos_types.h, over the kernel's
-- semaphores. A call of `pthread_barrier_wait` is cut where another thread may come between: what
-- stands between `mut_lock` and `mut_unlock` of the barrier's mutex is one move, and the test of
-- `cur_thread` that follows, outside the mutex, is another.
pub mod Counts
pub mod Kept
pub mod Invariant
pub mod Moves
pub mod Passing
pub mod Gate
mod Examples
use libposix.Prelude.{
  ℕ, ◌+◌, ◌%◌, ◌^◌, Option, none, some, leb, ltb, ◌==◌, if◌then◌else◌, List, ◌∷◌, ◌++◌, ◌≡◌,
}
use libposix.Prelude.Status.{Ret, ok, errnum, einval}
use libposix.Kernel.{Semaphores}

-- What `pthread_barrier_wait` returns: PTHREAD_BARRIER_SERIAL_THREAD, 0 or EINVAL.
pub data Outcome : Type 0 where
  serial_thread : Outcome
  zero_ : Outcome
  invalid : Outcome

-- Where a call of `pthread_barrier_wait` is, with its variable `cur`.
pub data Waiter : Type 0 where
  outside : Waiter
  counted : ℕ → Waiter
  posting : ℕ → Waiter
  waiting : ℕ → Waiter
  returned : Outcome → Waiter

-- `(cur == 1) ? PTHREAD_BARRIER_SERIAL_THREAD : 0`
abbrev pub outcome : ℕ → Outcome
outcome cur = if cur == 1 then serial_thread else zero_

module _ (K : Semaphores) where
  open K use {Sem, sem_get, sem_init as kernel_init, sem_post_n, val, wait}

  pub record Barrier : Type 0 where
    pub cur_thread : ℕ
    pub threshold : ℕ
    pub sem : Sem

  unfoldable pub pthread_barrier_destroy : Barrier → Ret × Barrier
  pthread_barrier_destroy b = (ok, b)

  unfoldable pub pthread_barrier_init : Barrier → ℕ → Ret × Barrier
  pthread_barrier_init b count =
      if count == 0
      then (errnum einval, b)
      else (ok, record { cur_thread = 0; threshold = count; sem = kernel_init 0 })

  -- The section under the mutex.
  unfoldable pub enter : Barrier → Barrier × Waiter
  enter b = if leb b.threshold b.cur_thread then (b, returned invalid) else (
    record b { cur_thread = (b.cur_thread + 1) % 2 ^ 32 },
    counted ((b.cur_thread + 1) % 2 ^ 32),
  )

  -- The next move of a call, if it can move: `sem_get` waits until the semaphore is above 0.
  unfoldable pub move : Barrier → Waiter → Option (Barrier × Waiter)
  unfolding enter
  move b outside = some (enter b)
  move b (counted cur) = some (b, if leb b.threshold b.cur_thread then posting cur else waiting cur)
  move b (posting cur) = some (record b { sem = sem_post_n b.sem b.threshold }, waiting cur)
  move b (waiting cur) =
      if ltb 0 (val b.sem)
      then some (record b { sem = (sem_get b.sem wait).1 }, returned (outcome cur))
      else none
  move b (returned o) = none

  -- The barrier and the calls of `pthread_barrier_wait` on it, by any threads.
  pub record System : Type 0 where
    pub barrier : Barrier
    pub calls : List Waiter

  -- Any one of the calls moves.
  pub data Step : System → System → Type 0 where
    moves :
        (before after : List Waiter) (b b' : Barrier) (w w' : Waiter)
        → move b w ≡ some (b', w')
        → Step
            (record { barrier = b; calls = before ++ w ∷ after })
            (record { barrier = b'; calls = before ++ w' ∷ after })

  pub data Reach (s : System) : System → Type 0 where
    start : Reach s s
    next : {t u : System} → Reach s t → Step t u → Reach s u
