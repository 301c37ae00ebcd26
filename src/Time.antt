-- ===== src/Time.antt =====
-- `struct timespec` of the C library, the constants of include/time.h, and the platform that the
-- library is built for.
use libposix.Prelude.{ℕ, arith, ◌*◌, ◌+◌, ◌/◌, ◌^◌, ◌≤◌, ◌<◌, ◌≡◌}
use libposix.Prelude.Int.{ℤ, pos_part, neg_part, ◌+ℤ◌, ◌*ℤ◌, ◌≤ℤ◌, ◌<ℤ◌, pos}

abbrev pub nanoseconds_per_second : ℕ
nanoseconds_per_second = 1000000000

-- `tv_sec` is a time_t and `tv_nsec` a long, which has 32 bits on the target (arm-none-eabi).
pub record Timespec : Type 0 where
  pub tv_sec : ℤ
  pub tv_nsec : ℤ

-- What the C library and the kernel decide: the frequency of the tick, `tmr_hz` of hcos/tmr.h, and
-- the width of time_t, by its conversion and its largest value.
pub record Platform : Type 0 where
  pub tmr_hz : ℕ
  pub time_max : ℕ
  pub to_time : ℤ → ℤ
  -- There is a tick, and one takes a nanosecond or more.
  pub hz_pos : 0 < tmr_hz
  pub hz_le : tmr_hz ≤ nanoseconds_per_second
  -- time_t has 32 bits or more, and a conversion to it keeps what fits.
  pub time_wide : 2 ^ 31 ≤ time_max + 1
  pub to_time-fits : (z : ℤ) → pos_part z ≤ time_max → neg_part z ≤ time_max → to_time z ≡ z

-- NANOSECONDS_PER_TICK
abbrev pub nanoseconds_per_tick : Platform → ℕ
nanoseconds_per_tick p = nanoseconds_per_second / p.tmr_hz

-- TIMER_ABSTIME is set in the flags.
abbrev pub timer_abstime : ℕ
timer_abstime = 1

-- 0 <= tv_nsec < 1000000000
pub record IsValid (t : Timespec) : Type 0 where
  pub nonneg : pos 0 ≤ℤ t.tv_nsec
  pub below : t.tv_nsec <ℤ pos nanoseconds_per_second

-- The whole time in nanoseconds, as an integer with no bound.
unfoldable pub nanos : Timespec → ℤ
unfolding ◌+ℤ◌ ◌*ℤ◌
nanos t = nanoseconds_per_second *ℤ t.tv_sec +ℤ t.tv_nsec

-- The parts of `nanos`, for `omega` with `nanos` shut.
pub nanos_parts :
    (t : Timespec)
    → pos_part (nanos t) + 1000000000 * neg_part t.tv_sec + neg_part t.tv_nsec
      ≡ neg_part (nanos t) + 1000000000 * pos_part t.tv_sec + pos_part t.tv_nsec
unfolding nanos
nanos_parts t = ground arith
