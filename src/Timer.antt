-- ===== src/Timer.antt =====
-- src/posix_timer.c, with `struct sigevent` of include/signal.h, over the kernel's timers. The tick
-- counter is an argument, once for each time that it is read; the notifications are recorded in the
-- order in which they are given. The two assertions of `timer_do` hold for every timer that
-- `timer_create` has made, which refuses SIGEV_SIGNAL.
pub mod Setting
pub mod Firing
pub mod Period
pub mod Deadline
mod Examples
use libposix.Prelude.{
  ℕ, ◌+◌, ◌-◌, ◌*◌, ◌/◌, ◌%◌, ◌^◌, Option, none, some, or_else, Bool, true, false, not, ◌&&◌, ◌||◌,
  ◌==◌, ltb, if◌then◌else◌, List, [], ◌∷◌,
}
use libposix.Prelude.Int.{pos, int32, eqb_ℤ}
use libposix.Prelude.Status.{Ret, ok, fail, errnum, eagain, einval, enotsup, is_ok, is_etimedout}
use libposix.Kernel.{Timers}
use libposix.Time.{Timespec, Platform, nanoseconds_per_tick}
use libposix.Utils.{validate_timespec, timespec2ticks, abs_timespec2ticks}
use libposix.Clock.{Thread, set_errno, zero_time, clock_gettime, is_abstime}
use libposix.Attributes.{PthreadAttr}

-- `struct itimerspec` of the C library.
pub record Itimerspec : Type 0 where
  pub it_interval : Timespec
  pub it_value : Timespec

abbrev pub sigev_signal : ℕ
sigev_signal = 1

abbrev pub sigev_thread : ℕ
sigev_thread = 2

-- The notification function is the same for every call; `sigev_value` is what it is given.
pub record Sigevent : Type 0 where
  pub sigev_notify : ℕ
  pub sigev_value : ℕ
  pub sigev_notify_attributes : Option PthreadAttr

-- A call of the notification function, and one of `pthread_create` to run it.
pub data Note : Type 0 where
  calls : ℕ → Note
  creates : PthreadAttr → ℕ → Note

-- TIMESPEC_IS_ZERO
abbrev pub timespec_is_zero : Timespec → Bool
timespec_is_zero t = eqb_ℤ t.tv_sec (pos 0) && eqb_ℤ t.tv_nsec (pos 0)

unfoldable pub notify : Sigevent → List Note
notify e =
    if e.sigev_notify == sigev_thread
    then elim e.sigev_notify_attributes [
      | none ↦ calls e.sigev_value ∷ []
      | some attr ↦ creates attr e.sigev_value ∷ []
    ]
    else []

-- `!evp || evp->sigev_notify == SIGEV_SIGNAL`
abbrev pub unsupported : Option Sigevent → Bool
unsupported none = true
unsupported (some e) = e.sigev_notify == sigev_signal

-- The period in ticks: what `timespec2ticks` stores, whose result is not read.
unfoldable pub period_of : Platform → Timespec → ℕ
period_of p interval =
    if timespec_is_zero interval then 0 else or_else (timespec2ticks p (some interval) (some 0)).1 0

-- `ret` and `next_expire` for an `it_value` that is not zero; the clock reads `now`.
unfoldable pub first_expiry : Platform → ℕ → ℕ → Timespec → Ret × ℕ
first_expiry p flags now value =
    let read = clock_gettime p now (some zero_time) in
    let ticks = abs_timespec2ticks p (some value) read.1 (some 0) in
    if is_abstime flags
    then (if not (is_ok read.0)
        then (errnum einval, 0)
        else if is_ok ticks.0
        then (ok, or_else ticks.1 0)
        else (if is_etimedout ticks.0 then ok else ticks.0, 0))
    else (ok, or_else (timespec2ticks p (some value) (some 0)).1 0)

-- A number of ticks as `timer_gettime` reports it.
unfoldable pub ticks2timespec : Platform → ℕ → Timespec
ticks2timespec p n = record {
  tv_sec = p.to_time (pos (n / p.tmr_hz));
  tv_nsec = int32 (pos (n % p.tmr_hz * nanoseconds_per_tick p));
}

module _ (K : Timers) where
  open K use {Tmr, tmr_init, tmr_on, tmr_of, tmr_active, expire}

  pub record TimerInternal : Type 0 where
    pub ost : Tmr
    pub event : Sigevent
    pub period : ℕ

  -- The notifications are given once the timer is on again.
  unfoldable pub timer_do : ℕ → TimerInternal → TimerInternal × List Note
  timer_do now t =
      (if ltb 0 t.period then record t { ost = tmr_on now t.ost t.period } else t, notify t.event)

  -- `hook` says whether `hcos_posix_alloc` is set, and `alloc` is its result. The new timer and its
  -- address, and whether `memset` wrote to NULL, which it does before the test.
  unfoldable pub timer_create :
      Bool → Option ℕ → Option Sigevent → Thread → Ret × Thread × Option (ℕ × TimerInternal) × Bool
  timer_create hook alloc none th =
      (fail, set_errno (if hook then enotsup else eagain) th, none, false)
  timer_create hook alloc (some event) th =
      if unsupported (some event) || not hook
      then (fail, set_errno (if hook then enotsup else eagain) th, none, false)
      else elim alloc [
        | none ↦ (fail, set_errno eagain th, none, true)
        | some a ↦ (ok, th, some (a, record { ost = tmr_init; event = event; period = 0 }), false)
      ]

  -- The second part is the address that is given back.
  unfoldable pub timer_delete : ℕ → TimerInternal → Ret × ℕ × TimerInternal
  timer_delete a t = (ok, a, record t { ost = tmr_of t.ost })

  unfoldable pub timer_getoverrun : TimerInternal → ℕ
  timer_getoverrun t = 0

  unfoldable pub timer_gettime : Platform → ℕ → TimerInternal → Ret × Itimerspec
  timer_gettime p now t =
      let next_expire = (expire t.ost + 2 ^ 32 - now) % 2 ^ 32 in
      (
        ok,
        record {
          it_interval = ticks2timespec p t.period;
          it_value = if tmr_active t.ost then ticks2timespec p next_expire else zero_time;
        },
      )

  -- What starts the timer, from its state with the new period.
  unfoldable pub start_timer : ℕ → Ret × ℕ → TimerInternal → Ret × TimerInternal × List Note
  start_timer now (ret, next_expire) t =
      let fired = timer_do now t in
      if next_expire == 0
      then (ret, fired.0, fired.1)
      else (ret, record t { ost = tmr_on now t.ost next_expire }, [])

  -- What follows the test of the arguments and the report of the old setting; the clock is read at
  -- `now` and the kernel's timer is set at `now'`.
  unfoldable pub set_timer :
      Platform → ℕ → ℕ → ℕ → Itimerspec → TimerInternal → Ret × TimerInternal × List Note
  set_timer p flags now now' value t =
      let off = record t { ost = tmr_of t.ost } in
      if timespec_is_zero value.it_value
      then (ok, off, [])
      else start_timer now' (first_expiry p flags now value.it_value)
          (record off { period = period_of p value.it_interval })

  -- `reports` says whether there is an `ovalue`, for which the tick counter is read at `before`.
  unfoldable pub timer_settime :
      Platform
      → ℕ
      → (before now now' : ℕ) → Itimerspec
      → Bool
      → TimerInternal
      → Thread
      → (Ret × TimerInternal × List Note) × Option Itimerspec × Thread
  timer_settime p flags before now now' value reports t th =
      let valid =
        validate_timespec (some value.it_interval) && validate_timespec (some value.it_value) in
      let bad = not (timespec_is_zero value.it_value) && not valid in
      let old = if reports then some (timer_gettime p before t).1 else none in
      if bad
      then ((fail, t, []), old, set_errno einval th)
      else (set_timer p flags now now' value t, old, th)
