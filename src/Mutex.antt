-- ===== src/Mutex.antt =====
-- src/posix_pthread_mutex.c and `pthread_mutex_t` of include/hcos_types.h, over the kernel's mutexes.
-- `cur` is the running task, `_task_cur`, and `now` the tick counter when the code reads the clock.
mod Examples
pub mod Locking
pub mod Owner
pub mod Deadline
use libposix.Prelude.{
  or_else, ℕ, Option, none, some, Bool, false, not, ◌&&◌, ◌||◌, ◌==◌, if◌then◌else◌,
}
use libposix.Prelude.Status.{
  Ret, ok, errnum, einval, ebusy, edeadlk, enomem, eperm, is_ok, is_etimedout,
}
use libposix.Kernel.{Mutexes}
use libposix.Time.{Timespec, Platform}
use libposix.Utils.{abs_timespec2ticks}
use libposix.Clock.{zero_time, clock_gettime}

abbrev pub mutex_normal : ℕ
mutex_normal = 0

abbrev pub mutex_errorcheck : ℕ
mutex_errorcheck = 1

abbrev pub mutex_recursive : ℕ
mutex_recursive = 2

-- PTHREAD_MUTEX_DEFAULT
abbrev pub mutex_default : ℕ
mutex_default = mutex_normal

-- The attributes are their one field, `type`; a pointer that the code tests is an `Option`.
unfoldable pub pthread_mutexattr_destroy : ℕ → Ret × ℕ
pthread_mutexattr_destroy attr = (ok, attr)

unfoldable pub pthread_mutexattr_gettype : ℕ → Ret × ℕ
pthread_mutexattr_gettype attr = (ok, attr)

unfoldable pub pthread_mutexattr_init : Option ℕ → Ret × Option ℕ
pthread_mutexattr_init none = (errnum einval, none)
pthread_mutexattr_init (some attr) = (ok, some mutex_default)

unfoldable pub pthread_mutexattr_settype : ℕ → ℕ → Ret × ℕ
pthread_mutexattr_settype attr type =
    if type == mutex_normal || type == mutex_recursive || type == mutex_errorcheck
    then (ok, type)
    else (errnum einval, attr)

-- `mux->mux.own == _task_cur`
abbrev pub is_owner : Option ℕ → ℕ → Bool
is_owner none cur = false
is_owner (some owner) cur = owner == cur

-- `ret` and `sleep_ticks` of `pthread_mutex_timedlock`, before the test for a deadlock. The variable
-- `sleep_ticks` is declared with no value: `unset` is what it happens to hold.
unfoldable pub lock_ticks : Platform → ℕ → ℕ → Option Timespec → Ret × ℕ
lock_ticks p now unset none = (ok, unset)
lock_ticks p now unset (some t) =
    let read = clock_gettime p now (some zero_time) in
    let ticks = abs_timespec2ticks p (some t) read.1 (some unset) in
    if is_ok read.0
    then (if is_etimedout ticks.0 then (ok, 0) else (ticks.0, or_else ticks.1 unset))
    else (errnum einval, unset)

module _ (K : Mutexes) where
  open K use {Mut, mut_init, own, mut_lock, mut_unlock}

  pub record PthreadMutex : Type 0 where
    pub inited : ℕ
    pub mux : Mut
    pub type : ℕ

  unfoldable pub pthread_mutex_destroy : PthreadMutex → Ret × PthreadMutex
  pthread_mutex_destroy m = (ok, m)

  abbrev pub or_default : Option ℕ → ℕ
  or_default none = mutex_default
  or_default (some type) = type

  unfoldable pub pthread_mutex_init : Option PthreadMutex → Option ℕ → Ret × Option PthreadMutex
  pthread_mutex_init none attr = (errnum enomem, none)
  pthread_mutex_init (some m) attr =
      (ok, some (record { inited = 1; mux = mut_init; type = or_default attr }))

  -- The deadlock test and `mut_lock`, whose result is not read, from `ret` and `sleep_ticks`.
  unfoldable pub finish_lock : ℕ → PthreadMutex → Ret × ℕ → Ret × PthreadMutex
  finish_lock cur m (ret, sleep_ticks) =
      let deadlock = is_ok ret && m.type == mutex_errorcheck && is_owner (own m.mux) cur in
      let ret' = if deadlock then errnum edeadlk else ret in
      if is_ok ret'
      then (ret', record m { mux = (mut_lock cur m.mux sleep_ticks).1 })
      else (ret', m)

  unfoldable pub pthread_mutex_timedlock :
      Platform → ℕ → ℕ → ℕ → PthreadMutex → Option Timespec → Ret × PthreadMutex
  unfolding finish_lock
  pthread_mutex_timedlock p now unset cur m abstime =
      if m.inited == 0
      then (errnum einval, m)
      else finish_lock cur m (lock_ticks p now unset abstime)

  unfoldable pub pthread_mutex_lock : Platform → ℕ → ℕ → ℕ → PthreadMutex → Ret × PthreadMutex
  unfolding pthread_mutex_timedlock
  pthread_mutex_lock p now unset cur m = pthread_mutex_timedlock p now unset cur m none

  -- `if (ret == ETIMEDOUT) ret = EBUSY;`
  abbrev pub busy : Ret → Ret
  busy ret = if is_etimedout ret then errnum ebusy else ret

  unfoldable pub pthread_mutex_trylock : Platform → ℕ → ℕ → ℕ → PthreadMutex → Ret × PthreadMutex
  unfolding pthread_mutex_timedlock
  pthread_mutex_trylock p now unset cur m =
      let r = pthread_mutex_timedlock p now unset cur m (some zero_time) in (busy r.0, r.1)

  unfoldable pub pthread_mutex_unlock : ℕ → PthreadMutex → Ret × PthreadMutex
  pthread_mutex_unlock cur m =
      let checked = m.type == mutex_errorcheck || m.type == mutex_recursive in
      if m.inited == 0
      then (errnum einval, m)
      else if checked && not (is_owner (own m.mux) cur)
      then (errnum eperm, m)
      else (ok, record m { mux = mut_unlock m.mux })
