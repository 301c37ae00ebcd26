-- ===== src/Timer/Setting.antt =====
-- Setting and reading a timer of src/posix_timer.c.
use native.Mathlib.Nat.{mul-le-mul_right, mod-lt, lt_of_mul-lt-mul_right, div-le_of_le-mul}
use libposix.Prelude.{
  ℕ, ◌+◌, ◌-◌, ◌*◌, ◌/◌, ◌%◌, ◌^◌, ◌≤◌, ◌<◌, ◌≡◌, ap, refl, some, Bool, true, false, inl, inr,
  Bool-cases, [], arith,
}
use libposix.Prelude.Int.{pos, eq_of_parts, int32_fits}
use libposix.Prelude.Status.{ok}
use libposix.Kernel.{Timers}
use libposix.Time.{Timespec, Platform, IsValid, nanos, nanos_parts, nanoseconds_per_tick}
use libposix.Utils.{validate_timespec, timespec2ticks}
use libposix.Utils.Ticks.{ExactTick, timespec2ticks-least, tick_pos}
use libposix.Clock.{Thread, is_abstime}
use libposix.Clock.Sleeping.{validate-pos}
use libposix.Timer.{
  Itimerspec, Sigevent, timespec_is_zero, period_of, first_expiry, ticks2timespec, TimerInternal,
  timer_gettime, start_timer, set_timer, timer_settime,
}

-- A valid time of a whole number of ticks, the least that last so many nanoseconds.
pub record Lasts (p : Platform) (total : ℕ) (t : Timespec) : Type 0 where
  pub valid : IsValid t
  pub ticks : ℕ
  pub whole : nanos t ≡ pos (ticks * nanoseconds_per_tick p)
  pub lower : total ≤ ticks * nanoseconds_per_tick p
  pub upper : ticks * nanoseconds_per_tick p < total + nanoseconds_per_tick p

module _ (p : Platform) (exact : ExactTick p) where
  seconds_of : (n : ℕ) → p.tmr_hz * (n / p.tmr_hz) + n % p.tmr_hz ≡ n
  seconds_of n = ground (arith, p.hz_pos)

  below_second : (n : ℕ) → n % p.tmr_hz * nanoseconds_per_tick p < 1000000000
  below_second n =
      let d = nanoseconds_per_tick p in
      let r : n % p.tmr_hz + 1 ≤ p.tmr_hz = omega (arith, mod-lt n p.hz_pos) in
      omega (arith, mul-le-mul_right d r, exact, tick_pos p)

  -- A number of ticks is reported as a valid timespec of exactly as many nanoseconds.
  pub ticks2timespec-exact :
      (n : ℕ)
      → n / p.tmr_hz ≤ p.time_max
      → IsValid (ticks2timespec p n)
        × (nanos (ticks2timespec p n) ≡ pos (n * nanoseconds_per_tick p))
  unfolding ticks2timespec
  ticks2timespec-exact n fit =
      let d = nanoseconds_per_tick p in
      let low = n % p.tmr_hz * d in
      let high = n / p.tmr_hz in
      let sec = p.to_time-fits (pos high) fit (omega arith) in
      let nsec = int32_fits (pos low) (omega (arith, below_second n)) (omega arith) in
      rw (sec, nsec)
        (
          record { nonneg = omega arith; below = omega (arith, below_second n) },
          eq_of_parts _ _ (
              omega (
                arith,
                nanos_parts (record { tv_sec = pos high; tv_nsec = pos low }),
                ap (λ (t : ℕ). t * high) exact,
                ap (λ (t : ℕ). t * d) (seconds_of n),
              )),
        )

  module _ (s n : ℕ) (near : s < 2147483647) (small : p.tmr_hz * s + p.tmr_hz < 2 ^ 32)
      (h : n < 1000000000) where
    abbrev pub of : Timespec
    of = record { tv_sec = pos s; tv_nsec = pos n }

    pub record Converted (k : ℕ) : Type 0 where
      pub enough : s * 1000000000 + n ≤ k * nanoseconds_per_tick p
      pub few : k < 2 ^ 32
      pub lasts : Lasts p (s * 1000000000 + n) (ticks2timespec p k)

    reported :
        (k : ℕ)
        → s * 1000000000 + n ≤ k * nanoseconds_per_tick p
        → k * nanoseconds_per_tick p < s * 1000000000 + n + nanoseconds_per_tick p
        → Converted k
    reported k lower upper =
        let d = nanoseconds_per_tick p in
        let most : k < p.tmr_hz * s + p.tmr_hz + 1 =
          lt_of_mul-lt-mul_right d {m = k} {n = p.tmr_hz * s + p.tmr_hz + 1}
            (omega (arith, upper, ap (λ (t : ℕ). t * s) exact, exact, h)) in
        let seconds : k / p.tmr_hz ≤ s + 1 =
          div-le_of_le-mul p.tmr_hz {m = k} {n = s + 1} (omega (arith, most)) in
        let e = ticks2timespec-exact k (omega (arith, seconds, near, p.time_wide)) in
        record {
          enough = lower;
          few = omega (arith, most, small);
          lasts = record { valid = e.0; ticks = k; whole = e.1; lower = lower; upper = upper };
        }

    pub stored : (k : ℕ) × (timespec2ticks p (some of) (some 0) ≡ (ok, some k)) × Converted k
    stored =
        let least = timespec2ticks-least p exact s n 0 small h in
        (least.0, least.1, reported least.0 least.2 least.3)

    pub period : Converted (period_of p of)
    unfolding period_of
    period = elim (Bool-cases (timespec_is_zero of)) [
      | inl zero_ ↦ rw zero_ (reported 0 (ground (arith, zero_)) (omega (arith, tick_pos p)))
      | inr more ↦ rw more (rw stored.1 stored.2)
    ]

module _ (K : Timers) where
  open K use {Tmr, tmr_on, tmr_of, tmr_active, expire}

  -- A timer that is set for `k` ticks from `now` is read as `k` ticks, at `now`.
  gettime_on :
      (p : Platform) (now k : ℕ) (ost : Tmr) (e : Sigevent) (period : ℕ)
      → 0 < k
      → k < 2 ^ 32
      → now < 2 ^ 32
      → timer_gettime K p now (record { ost = tmr_on now ost k; event = e; period = period })
        ≡ (ok, record { it_interval = ticks2timespec p period; it_value = ticks2timespec p k })
  unfolding timer_gettime
  gettime_on p now k ost e period h few range =
      let same : ((now + k) % 2 ^ 32 + 2 ^ 32 - now) % 2 ^ 32 ≡ k = omega (arith, h, few, range) in
      rw (K.active-tmr_on now ost k h, K.expire-tmr_on now ost k h, same)

  -- A valid relative time other than 0, whose ticks are `k`, starts the timer for `k` ticks.
  set_relative :
      (p : Platform) (flags before now now' : ℕ) (reports : Bool) (t : TimerInternal K)
      (th : Thread)
      → (interval value : Timespec) (k : ℕ) → is_abstime flags ≡ false
      → timespec_is_zero value ≡ false
      → validate_timespec (some interval) ≡ true
      → validate_timespec (some value) ≡ true
      → timespec2ticks p (some value) (some 0) ≡ (ok, some k)
      → 0 < k
      → (timer_settime K p flags before now now'
          (record { it_interval = interval; it_value = value })
          reports
          t
          th).0
        ≡ (ok, record t { ost = tmr_on now' (tmr_of t.ost) k; period = period_of p interval }, [])
  unfolding timer_settime set_timer first_expiry start_timer
  set_relative p flags before now now' reports t th interval value k relative nonzero vi vv e h =
      rw (nonzero, vi, vv, relative, e) (ground (arith, h))

  -- Where a tick is a whole number of nanoseconds and the times are near enough for time_t and for an
  -- unsigned number of ticks: `timer_settime` with a valid relative time, other than 0, and a valid
  -- interval returns 0 and notifies nobody, and `timer_gettime` at that tick reads the value and the interval that were
  -- given, each rounded up to a whole number of ticks.
  pub timer_settime-timer_gettime :
      (p : Platform) (flags before now now' : ℕ) (reports : Bool) (t : TimerInternal K)
      (th : Thread)
      → ExactTick p
      → is_abstime flags ≡ false
      → now' < 2 ^ 32
      → (s n s' n' : ℕ) → 0 < s * 1000000000 + n
      → s < 2147483647
      → p.tmr_hz * s + p.tmr_hz < 2 ^ 32
      → n < 1000000000
      → s' < 2147483647
      → p.tmr_hz * s' + p.tmr_hz < 2 ^ 32
      → n' < 1000000000
      → let value : Itimerspec = record {
        it_interval = record { tv_sec = pos s'; tv_nsec = pos n' };
        it_value = record { tv_sec = pos s; tv_nsec = pos n };
      } in
        let set = (timer_settime K p flags before now now' value reports t th).0 in
        let read = (timer_gettime K p now' set.1).1 in
        (set.0 ≡ ok)
        × (set.2 ≡ [])
        × Lasts p (s * 1000000000 + n) read.it_value
        × Lasts p (s' * 1000000000 + n') read.it_interval
  timer_settime-timer_gettime p flags before now now' reports t th exact relative range s n s' n'
        some_ near small h near' small' h' =
      let (k, e, c) = stored p exact s n near small h in
      let c' = period p exact s' n' near' small' h' in
      let positive : 0 < k =
        lt_of_mul-lt-mul_right (nanoseconds_per_tick p) {m = 0} {n = k} (omega (arith, c.enough)) in
      let value = of p exact s n near small h in
      let interval = of p exact s' n' near' small' h' in
      let set =
        set_relative p flags before now now' reports t th interval value k relative
          (ground (arith, some_)) (validate-pos s' n' h') (validate-pos s n h) e positive in
      rw set (
        rw (gettime_on p now' k (tmr_of t.ost) t.event (period_of p interval) positive c.few range)
          (refl, refl, c.lasts, c'.lasts))
