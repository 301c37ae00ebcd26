-- ===== src/Cond.antt =====
-- src/posix_pthread_cond.c and `pthread_cond_t` of include/hcos_types.h, over the kernel's semaphores
-- and the mutexes of src/posix_pthread_mutex.c. The mutex inside the condition variable guards
-- sections that wait for nothing, so that each is one step. While a thread waits, others go on: what
-- they do to the condition variable and to the mutex is an argument of the wait.
pub mod Waking
pub mod Deadline
pub mod Relocking
pub mod Owner
pub mod Schedule
pub mod Counts
pub mod Balance
pub mod Broadcast
pub mod Signal
pub mod Posts
mod Examples
mod Interleavings
use libposix.Prelude.{or_else, ℕ, Option, none, some, ◌==◌, if◌then◌else◌}
use libposix.Prelude.Int.{ℤ, pos, ◌+ℤ◌, ◌-ℤ◌, ltb_ℤ, int32, uint32}
use libposix.Prelude.Status.{Ret, ok, errnum, einval, enomem, etimedout, is_ok}
use libposix.Kernel.{Semaphores, Mutexes}
use libposix.Time.{Timespec, Platform}
use libposix.Utils.{abs_timespec2ticks}
use libposix.Clock.{zero_time, clock_gettime}
use libposix.Mutex.{PthreadMutex, pthread_mutex_lock, pthread_mutex_unlock}

-- `ret` and `sleep_ticks` of `pthread_cond_timedwait`, before the wait.
unfoldable pub cond_ticks : Platform → ℕ → ℕ → Option Timespec → Ret × ℕ
cond_ticks p now wait none = (ok, wait)
cond_ticks p now wait (some t) =
    let read = clock_gettime p now (some zero_time) in
    let ticks = abs_timespec2ticks p (some t) read.1 (some wait) in
    if is_ok read.0 then (ticks.0, or_else ticks.1 wait) else (errnum einval, wait)

module _ (K : Semaphores) (M : Mutexes) where
  open K use {Sem, sem_get, sem_post, sem_post_n, sem_init as kernel_init, val, wait}

  -- `waiting` is an int.
  pub record Cond : Type 0 where
    pub inited : ℕ
    pub cond : Sem
    pub waiting : ℤ

  unfoldable pub pthread_cond_destroy : Cond → Ret × Cond
  pthread_cond_destroy c = (ok, c)

  unfoldable pub pthread_cond_init : Option Cond → Ret × Option Cond
  pthread_cond_init none = (errnum enomem, none)
  pthread_cond_init (some c) =
      (ok, some (record { inited = 1; cond = kernel_init 0; waiting = pos 0 }))

  -- `sem_post_n` takes an unsigned number.
  unfoldable pub pthread_cond_broadcast : Cond → Ret × Cond
  pthread_cond_broadcast c =
      if c.inited == 0
      then (errnum einval, c)
      else (ok, record c { cond = sem_post_n c.cond (uint32 c.waiting); waiting = pos 0 })

  -- The section of `pthread_cond_signal` under the mutex, with its own test.
  unfoldable pub wake_one : Cond → Cond
  wake_one c =
      if ltb_ℤ (pos 0) c.waiting
      then record c { cond = sem_post c.cond; waiting = int32 (c.waiting -ℤ pos 1) }
      else c

  unfoldable pub pthread_cond_signal : Cond → Ret × Cond
  unfolding wake_one
  pthread_cond_signal c =
      if c.inited == 0
      then (errnum einval, c)
      else if ltb_ℤ (pos 0) c.waiting
      then (ok, wake_one c)
      else (ok, c)

  abbrev pub add_waiter : Cond → Cond
  add_waiter c = record c { waiting = int32 (c.waiting +ℤ pos 1) }

  abbrev pub drop_waiter : Cond → Cond
  drop_waiter c = record c { waiting = int32 (c.waiting -ℤ pos 1) }

  -- What others do: to both while the thread waits, and to the condition variable between the end of
  -- a wait that timed out and the count of it.
  pub record Others : Type 0 where
    pub meanwhile : Cond × PthreadMutex M → Cond × PthreadMutex M
    pub between : Cond → Cond

  -- The wait for the semaphore, with the thread counted and the mutex unlocked. `relock` is
  -- `pthread_mutex_lock` by the calling task.
  unfoldable pub wait_for :
      Others
      → ℕ
      → (PthreadMutex M → Ret × PthreadMutex M)
      → Cond × PthreadMutex M
      → Ret × Cond × PthreadMutex M
  wait_for others ticks relock state =
      let (c, m) = others.meanwhile state in
      let got = sem_get c.cond ticks in
      let c' = record c { cond = got.1 } in
      let locked = relock m in
      if got.0
      then (locked.0, c', locked.1)
      else (errnum etimedout, drop_waiter (others.between c'), locked.1)

  -- `now` is the tick counter when the deadline is converted, `cur` the calling task; the other two
  -- are those of `pthread_mutex_lock`.
  unfoldable pub pthread_cond_timedwait :
      Platform
      → Others
      → (now now' unset cur : ℕ) → Cond
      → PthreadMutex M
      → Option Timespec
      → Ret × Cond × PthreadMutex M
  pthread_cond_timedwait p others now now' unset cur c m abstime =
      let ticks = cond_ticks p now wait abstime in
      let unlocked = pthread_mutex_unlock M cur m in
      if c.inited == 0
      then (errnum einval, c, m)
      else if is_ok ticks.0
      then (if is_ok unlocked.0
          then wait_for others ticks.1 (pthread_mutex_lock M p now' unset cur)
              (add_waiter c, unlocked.1)
          else (unlocked.0, add_waiter c, unlocked.1))
      else (ticks.0, c, m)

  unfoldable pub pthread_cond_wait :
      Platform
      → Others
      → (now now' unset cur : ℕ) → Cond
      → PthreadMutex M
      → Ret × Cond × PthreadMutex M
  unfolding pthread_cond_timedwait
  pthread_cond_wait p others now now' unset cur c m =
      pthread_cond_timedwait p others now now' unset cur c m none
