-- ===== src/Semaphore.antt =====
-- src/posix_semaphore.c and the inline functions of include/semaphore.h, over the kernel's
-- semaphores. `now` is the tick counter when the code reads the clock.
mod Examples
pub mod Waiting
pub mod Deadline
pub mod Counter
use libposix.Prelude.{or_else, ℕ, Option, none, some, Bool, true, false, if◌then◌else◌}
use libposix.Prelude.Int.{ℤ, pos, int32}
use libposix.Prelude.Status.{
  Errno, Ret, ok, fail, errnum, einval, etimedout, eagain, is_ok, is_etimedout,
}
use libposix.Kernel.{Semaphores}
use libposix.Time.{Timespec, Platform}
use libposix.Utils.{validate_timespec, abs_timespec2ticks}
use libposix.Clock.{Thread, set_errno, zero_time, clock_gettime}

-- `if (ret == 0) errno = ETIMEDOUT; else errno = ret;`, where ret is 0 or an error number (so the
-- case -1 does not arise).
abbrev pub wait_errno : Ret → Thread → Thread
wait_errno ok th = set_errno etimedout th
wait_errno (errnum e) th = set_errno e th
wait_errno fail th = th

-- The timeout and `ret` of `sem_timedwait`, before it calls `sem_get`; `wait` is WAIT.
unfoldable pub wait_ticks : Platform → ℕ → ℕ → Option Timespec → ℕ × Ret
wait_ticks p now wait none = (wait, ok)
wait_ticks p now wait (some t) =
    let read = clock_gettime p now (some zero_time) in
    let ticks = abs_timespec2ticks p (some t) read.1 (some wait) in
    if validate_timespec (some t)
    then (if is_ok read.0
        then (if is_etimedout ticks.0 then 0 else or_else ticks.1 wait, ticks.0)
        else (wait, errnum einval))
    else (0, errnum einval)

module _ (K : Semaphores) where
  open K use {Sem, sem_get, sem_init as kernel_init, val, wait}

  unfoldable pub sem_destroy : Sem → Ret × Sem
  sem_destroy s = (ok, s)

  unfoldable pub sem_init_posix : ℕ → Ret × Sem
  sem_init_posix value = (ok, kernel_init value)

  -- `*sval = sem->val`, in an int.
  unfoldable pub sem_getvalue : Sem → Ret × ℤ
  sem_getvalue s = (ok, int32 (pos (val s)))

  -- What follows `sem_get`, from `ret` and its result.
  unfoldable pub finish_wait : Ret → Bool × Sem → Thread → Ret × Thread × Sem
  finish_wait ret (true, s) th = (ok, th, s)
  finish_wait ret (false, s) th = (fail, wait_errno ret th, s)

  unfoldable pub sem_timedwait : Platform → ℕ → Sem → Option Timespec → Thread → Ret × Thread × Sem
  unfolding finish_wait
  sem_timedwait p now s abstime th =
      let w = wait_ticks p now wait abstime in finish_wait w.1 (sem_get s w.0) th

  -- `if ((ret == -1) && (errno == ETIMEDOUT)) errno = EAGAIN;`
  abbrev pub again : Ret → Thread → Thread
  again fail th = elim th.errno [
    | none ↦ th
    | some e ↦ elim e [ etimedout ↦ set_errno eagain th | _ ↦ th ]
  ]
  again _ th = th

  unfoldable pub sem_trywait : Platform → ℕ → Sem → Thread → Ret × Thread × Sem
  unfolding sem_timedwait
  sem_trywait p now s th =
      let r = sem_timedwait p now s (some zero_time) th in (r.0, again r.0 r.1, r.2)

  unfoldable pub sem_wait : Platform → ℕ → Sem → Thread → Ret × Thread × Sem
  unfolding sem_timedwait
  sem_wait p now s th = sem_timedwait p now s none th
