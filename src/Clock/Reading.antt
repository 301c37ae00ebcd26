-- ===== src/Clock/Reading.antt =====
-- What `clock_gettime` and `time` of src/posix_clock.c read off the tick counter.
use native.Mathlib.Nat.{
  le_of_mul-le-mul_right, lt_of_mul-lt-mul_right, mul-div-mul_right, mul-le-mul, div-le_self,
}
use libposix.Prelude.{ℕ, ◌+◌, ◌*◌, ◌/◌, ◌%◌, ◌^◌, ◌≤◌, ◌<◌, ◌≡◌, sym, ap, ◌∙◌, some, none, arith}
use libposix.Prelude.Int.{ℤ, pos, int64_fits}
use libposix.Prelude.Status.{ok}
use libposix.Time.{Timespec, Platform, IsValid, nanos, nanoseconds_per_tick}
use libposix.Utils.{nano2timespec, timespec2ticks}
use libposix.Utils.Nano.{nano2timespec-exact, nano2timespec-pos}
use libposix.Utils.Ticks.{
  tick_pos, ExactTick, exact_ticks, exact_ticks-covers, timespec2ticks-exact,
}
use libposix.Clock.{clock_gettime, time}

module _ (p : Platform) (now : ℕ) (range : now < 2 ^ 32)
    (fit : now * nanoseconds_per_tick p / 1000000000 ≤ p.time_max) where
  small : now * nanoseconds_per_tick p < 2 ^ 62
  small =
      let bound : now * nanoseconds_per_tick p ≤ 2 ^ 32 * 1000000000 =
        mul-le-mul {n₂ = 2 ^ 32} (omega arith) (div-le_self 1000000000 p.tmr_hz) in
      omega arith

  gettime_lem :
      (old : Timespec)
      → clock_gettime p now (some old)
        ≡ (ok, some (nano2timespec p (pos (now * nanoseconds_per_tick p))))
  unfolding clock_gettime
  gettime_lem old =
      rw (int64_fits (pos (now * nanoseconds_per_tick p)) (omega (arith, small)) (omega arith))

  -- `clock_gettime` succeeds with a valid timespec that is exactly the elapsed ticks in nanoseconds,
  -- whatever the buffer held, for every value of the 32-bit tick counter whose seconds fit time_t.
  pub clock_gettime-exact :
      (old : Timespec)
      → (t : Timespec) × (clock_gettime p now (some old) ≡ (ok, some t))
        × IsValid t
        × (nanos t ≡ pos (now * nanoseconds_per_tick p))
  clock_gettime-exact old =
      let z : ℤ = pos (now * nanoseconds_per_tick p) in
      let e = nano2timespec-exact p z fit (omega (arith, p.time_wide)) in
      (nano2timespec p z, gettime_lem old, e.0, e.1)

  pub gettime_fields :
      (old : Timespec)
      → clock_gettime p now (some old) ≡ (
        ok,
        some (record {
          tv_sec = pos (now * nanoseconds_per_tick p / 1000000000);
          tv_nsec = pos (now * nanoseconds_per_tick p % 1000000000);
        }),
      )
  gettime_fields old =
      gettime_lem old
      ∙ ap (λ t. (ok, some t)) (nano2timespec-pos p (now * nanoseconds_per_tick p) fit)

  -- The ticks of a time that is a whole number of ticks.
  exact_ticks_of_now :
      ExactTick p
      → exact_ticks p
          (now * nanoseconds_per_tick p / 1000000000)
          (now * nanoseconds_per_tick p % 1000000000)
        ≡ now
  exact_ticks_of_now e =
      let d = nanoseconds_per_tick p in
      let n = now * d in
      let k = exact_ticks p (n / 1000000000) (n % 1000000000) in
      let covers = exact_ticks-covers p e (n / 1000000000) (n % 1000000000) in
      let least : now ≤ k =
        le_of_mul-le-mul_right {m = now} {n = k} {k = d} (omega (arith, covers.0)) (tick_pos p) in
      let most : k < now + 1 =
        lt_of_mul-lt-mul_right d {m = k} {n = now + 1} (omega (arith, covers.1)) in
      omega arith

  -- Where a tick is a whole number of nanoseconds, `timespec2ticks` turns what `clock_gettime` reads
  -- back into the tick counter.
  timespec2ticks-clock_gettime :
      ExactTick p
      → (old : Timespec) (r : ℕ)
      → timespec2ticks p (clock_gettime p now (some old)).1 (some r) ≡ (ok, some now)
  timespec2ticks-clock_gettime e old r =
      let n = now * nanoseconds_per_tick p in
      ap (λ g. timespec2ticks p (g.1) (some r)) (gettime_fields old)
      ∙ timespec2ticks-exact p (n / 1000000000) (n % 1000000000) r
          (omega (arith, exact_ticks_of_now e)) (omega arith)
      ∙ rw (exact_ticks_of_now e) (ground arith)

  seconds_lem :
      ExactTick p
      → p.to_time (pos (now / p.tmr_hz)) ≡ pos (now * nanoseconds_per_tick p / 1000000000)
  seconds_lem e =
      let same : now / p.tmr_hz ≡ now * nanoseconds_per_tick p / 1000000000 =
        sym (mul-div-mul_right now p.tmr_hz (tick_pos p))
        ∙ ap (λ (t : ℕ). now * nanoseconds_per_tick p / t) e in
      rw same (p.to_time-fits (pos (now * nanoseconds_per_tick p / 1000000000)) fit (omega arith))

  -- Where a tick is a whole number of nanoseconds, `time` returns the seconds that `clock_gettime`
  -- reads, and stores the same through its pointer.
  time-clock_gettime :
      ExactTick p
      → (old : Timespec) (tloc : ℤ)
      → (t : Timespec) × (clock_gettime p now (some old) ≡ (ok, some t))
        × (time p now (some tloc) ≡ (t.tv_sec, some t.tv_sec))
        × ((time p now none).0 ≡ t.tv_sec)
  unfolding time
  time-clock_gettime e old tloc = (_, gettime_fields old, rw (seconds_lem e), seconds_lem e)
