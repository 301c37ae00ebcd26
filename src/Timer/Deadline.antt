-- ===== src/Timer/Deadline.antt =====
-- When a timer of src/posix_timer.c that is set to an absolute time expires, through the clock and the
-- conversions.
use libposix.Prelude.{
  ℕ, ◌+◌, ◌*◌, ◌/◌, ◌%◌, ◌^◌, ◌≤◌, ◌<◌, ◌≡◌, refl, ap, ◌⊎◌, inl, inr, Bool, true, false, ltb, ◌==◌,
  [], Bool-cases, arith,
}
use libposix.Prelude.Int.{pos, pos_part, ◌≤ℤ◌, ◌-ℤ◌}
use libposix.Prelude.Status.{ok}
use libposix.Kernel.{Timers}
use libposix.Time.{Timespec, Platform, IsValid, nanos, nanoseconds_per_tick}
use libposix.Utils.Sub.{SecondsFit}
use libposix.Utils.Ticks.{ExactTick}
use libposix.Clock.{Thread, is_abstime}
use libposix.Clock.Due.{IsValid-validate, elapsed, IsLeast, reaches}
use libposix.Timer.{
  Itimerspec, notify, timespec_is_zero, period_of, first_expiry, TimerInternal, start_timer,
  set_timer, timer_settime,
}
use libposix.Timer.Firing.{fires}

module _ (K : Timers) where
  open K use {tmr_on, tmr_of, tmr_active, expire}

  module _ (p : Platform) (flags before now now' : ℕ) (reports : Bool) (t : TimerInternal K)
      (th : Thread) (interval value : Timespec) (vi : IsValid interval) (vv : IsValid value)
      (armed : timespec_is_zero value ≡ false) (absolute : is_abstime flags ≡ true) where
    abbrev pub setting : Itimerspec
    setting = record { it_interval = interval; it_value = value }

    waits :
        (k : ℕ)
        → 0 < k
        → first_expiry p flags now value ≡ (ok, k)
        → let set = (timer_settime K p flags before now now' setting reports t th).0 in
          (set.0 ≡ ok)
          × (set.2 ≡ [])
          × (tmr_active set.1.ost ≡ true)
          × (expire set.1.ost ≡ (now' + k) % 2 ^ 32)
    unfolding timer_settime set_timer start_timer
    waits k h e =
        let later : (k == 0) ≡ false = ground (arith, h) in
        rw (armed, IsValid-validate value vv, IsValid-validate interval vi, e)
          (rw later (
            refl,
            refl,
            K.active-tmr_on now' (tmr_of t.ost) k h,
            K.expire-tmr_on now' (tmr_of t.ost) k h,
          ))

    -- A timer that is set to a valid absolute time other than 0, with a valid interval, near enough for
    -- time_t and for an unsigned number of ticks, where a tick is a whole number of nanoseconds and the
    -- clock is within range: `timer_settime` returns 0 and, if the
    -- time is not after the clock, notifies once and leaves the timer on exactly if it has a period;
    -- otherwise it notifies nobody, and the timer is on and expires after the least number of ticks
    -- that reaches the time, counted from the tick at which the kernel's timer is set.
    pub timer_settime-IsLeast :
        now < 2 ^ 32
        → now * nanoseconds_per_tick p / 1000000000 ≤ p.time_max
        → ExactTick p
        → SecondsFit p value (elapsed p now)
        → p.tmr_hz * pos_part (value.tv_sec -ℤ (elapsed p now).tv_sec) + p.tmr_hz < 2 ^ 32
        → let set = (timer_settime K p flags before now now' setting reports t th).0 in
          ((nanos value ≤ℤ pos (now * nanoseconds_per_tick p))
            × (set.0 ≡ ok)
            × (set.2 ≡ notify t.event)
            × (tmr_active set.1.ost ≡ ltb 0 (period_of p interval)))
          ⊎ ((k : ℕ) × IsLeast p now value k
              × (set.0 ≡ ok)
              × (set.2 ≡ [])
              × (tmr_active set.1.ost ≡ true)
              × (expire set.1.ost ≡ (now' + k) % 2 ^ 32))
    unfolding first_expiry
    timer_settime-IsLeast range fit exact near span =
        let at_once =
          fires K p flags before now now' reports t th interval value vi vv armed absolute ok in
        elim (reaches p now range fit value vv 0 exact near span) [
          | inl (lt, c) ↦
              let r = at_once (rw (c.read, absolute, c.ticks) refl) in
              inl (omega (arith, lt), r.0, r.1, r.2)
          | inr (k, c, least) ↦ elim (Bool-cases (k == 0)) [
            | inl none_ ↦
                let zero_ : k ≡ 0 = ground (arith, none_) in
                let r = at_once (rw (c.read, absolute, c.ticks, zero_) refl) in
                inl (
                  omega (arith, least.0, ap (λ j. j * nanoseconds_per_tick p) zero_),
                  r.0,
                  r.1,
                  r.2,
                )
            | inr some_ ↦
                let r = waits k (ground (arith, some_)) (rw (c.read, absolute, c.ticks) refl) in
                inr (k, least, r.0, r.1, r.2, r.3)
          ]
        ]
