-- ===== src/Timer/Firing.antt =====
-- When `timer_settime` of src/posix_timer.c notifies at once, and when it turns the timer off.
use libposix.Prelude.{
  ℕ, ◌*◌, ◌/◌, ◌^◌, ◌≤◌, ◌<◌, ◌≡◌, refl, some, Bool, true, false, Bool-cases, inl, inr, ltb, [],
  arith,
}
use libposix.Prelude.Int.{pos, ◌<ℤ◌}
use libposix.Prelude.Status.{Ret, ok, errnum, einval}
use libposix.Kernel.{Timers}
use libposix.Time.{Timespec, Platform, IsValid, nanos, nanoseconds_per_tick}
use libposix.Utils.{abs_timespec2ticks}
use libposix.Clock.{Thread, zero_time, clock_gettime, is_abstime}
use libposix.Clock.Due.{IsValid-validate, past}
use libposix.Timer.{
  Itimerspec, notify, timespec_is_zero, period_of, first_expiry, ticks2timespec, TimerInternal,
  timer_do, timer_gettime, start_timer, set_timer, timer_settime,
}

module _ (K : Timers) where
  open K use {Tmr, tmr_on, tmr_of, tmr_active, expire}

  -- With no ticks to wait for, the timer is notified and goes on with its period, if it has one.
  start_now :
      (now : ℕ) (ret : Ret) (t : TimerInternal K)
      → tmr_active t.ost ≡ false
      → let started = start_timer K now (ret, 0) t in
        (started.0 ≡ ret)
        × (started.2 ≡ notify t.event)
        × (tmr_active started.1.ost ≡ ltb 0 t.period)
  unfolding start_timer timer_do
  start_now now ret t off = elim (Bool-cases (ltb 0 t.period)) [
    | inl periodic ↦
        rw periodic (refl, refl, K.active-tmr_on now t.ost t.period (ground (arith, periodic)))
    | inr once ↦ rw once (refl, refl, off)
  ]

  module _ (p : Platform) (flags before now now' : ℕ) (reports : Bool) (t : TimerInternal K)
      (th : Thread) where
    -- A zero `it_value` turns the timer off, whatever the flags and the interval: `timer_settime` returns
    -- 0 and notifies nobody, and `timer_gettime` reads a zero value and the period from before.
    timer_settime-disarm :
        (value : Itimerspec) (later : ℕ)
        → timespec_is_zero value.it_value ≡ true
        → let set = (timer_settime K p flags before now now' value reports t th).0 in
          (set.0 ≡ ok)
          × (set.2 ≡ [])
          × (timer_gettime K p later set.1
              ≡ (ok, record { it_interval = ticks2timespec p t.period; it_value = zero_time }))
    unfolding timer_settime set_timer timer_gettime
    timer_settime-disarm value later zero_ = rw zero_ (refl, refl, rw (K.active-tmr_of t.ost))

    module _ (interval value : Timespec) (vi : IsValid interval) (vv : IsValid value)
        (armed : timespec_is_zero value ≡ false) (absolute : is_abstime flags ≡ true) where
      abbrev pub setting : Itimerspec
      setting = record { it_interval = interval; it_value = value }

      pub fires :
          (ret : Ret)
          → first_expiry p flags now value ≡ (ret, 0)
          → let set = (timer_settime K p flags before now now' setting reports t th).0 in
            (set.0 ≡ ret)
            × (set.2 ≡ notify t.event)
            × (tmr_active set.1.ost ≡ ltb 0 (period_of p interval))
      unfolding timer_settime set_timer
      fires ret e =
          rw (armed, IsValid-validate value vv, IsValid-validate interval vi, e)
            (start_now now' ret (record t { ost = tmr_of t.ost; period = period_of p interval })
              (K.active-tmr_of t.ost))

      -- A valid absolute time in the past is notified at once: `timer_settime` returns 0, the one
      -- notification is given, and the timer is on exactly if there is a period.
      timer_settime-past :
          now < 2 ^ 32
          → now * nanoseconds_per_tick p / 1000000000 ≤ p.time_max
          → nanos value <ℤ pos (now * nanoseconds_per_tick p)
          → let set = (timer_settime K p flags before now now' setting reports t th).0 in
            (set.0 ≡ ok)
            × (set.2 ≡ notify t.event)
            × (tmr_active set.1.ost ≡ ltb 0 (period_of p interval))
      unfolding first_expiry
      timer_settime-past range fit lt =
          let c = past p now range fit value vv 0 lt in
          fires ok (rw (c.read, absolute, c.ticks) refl)

      -- A valid absolute time too far ahead for the conversion to ticks is notified at once and not
      -- waited for: `timer_settime` returns EINVAL, and the timer is on exactly if there is a period.
      timer_settime-overflow :
          (abs_timespec2ticks p (some value) (clock_gettime p now (some zero_time)).1 (some 0)).0
            ≡ errnum einval
          → let set = (timer_settime K p flags before now now' setting reports t th).0 in
            (set.0 ≡ errnum einval)
            × (set.2 ≡ notify t.event)
            × (tmr_active set.1.ost ≡ ltb 0 (period_of p interval))
      unfolding first_expiry clock_gettime
      timer_settime-overflow far = fires (errnum einval) (rw (absolute, far) refl)
