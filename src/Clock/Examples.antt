-- ===== src/Clock/Examples.antt =====
-- Tests of src/posix_clock.c and src/posix_unistd.c, and their theorems at concrete times.
use libposix.Prelude.{
  ℕ, ◌*◌, ◌+◌, ◌^◌, ◌≤◌, ◌<◌, ◌⊎◌, true, false, some, ◌≡◌, refl, none, [], ◌∷◌, arith,
}
use libposix.Prelude.Int.{pos, int32, int64, quot, rem, ◌+ℤ◌, ◌-ℤ◌, ◌*ℤ◌, uint32}
use libposix.Prelude.Status.{ok, fail, errnum, einval}
use libposix.Board.{board}
use libposix.Time.{Timespec, IsValid, nanos}
use libposix.Utils.{timespec2ticks, nano2timespec, validate_timespec, total_ticks, nsec_ticks}
use libposix.Clock.{
  Thread, zero_time, is_abstime, task_sleep, clock, clock_gettime, clock_nanosleep, nanosleep,
  usleep,
}
use libposix.Clock.Reading.{clock_gettime-exact}
use libposix.Clock.Sleeping.{clock_nanosleep-least, nanosleep-overflow, usleep-le_4294}

abbrev fresh : Thread
fresh = record { errno = none; sleeps = [] }

-- The counter stands at 90.061 s.
reads_clock :
    clock_gettime board 90061 (some zero_time)
    ≡ (ok, some (record { tv_sec = pos 90; tv_nsec = pos 61000000 }))
unfolding clock_gettime nano2timespec int32 int64 quot rem ◌+ℤ◌ ◌-ℤ◌ ◌*ℤ◌
reads_clock = refl

no_buffer : clock_gettime board 90061 none ≡ (fail, none)
unfolding clock_gettime
no_buffer = refl

-- The idle time is past the counter's wrap-around.
wrapped_clock : clock 5 4294967295 ≡ 6
unfolding clock
wrapped_clock = refl

naps :
    nanosleep board (some (record { tv_sec = pos 0; tv_nsec = pos 1 })) fresh
    ≡ (ok, record { errno = none; sleeps = 1 ∷ [] })
unfolding nanosleep validate_timespec timespec2ticks total_ticks nsec_ticks int32 int64 uint32 quot
    rem ◌+ℤ◌ ◌*ℤ◌
naps = refl

-- 499 microseconds are no tick.
no_nap : usleep board 499 fresh ≡ (ok, record { errno = none; sleeps = 0 ∷ [] })
unfolding usleep
no_nap = refl

clock_gettime-exact_example :
    (t : Timespec) × (clock_gettime board 90061 (some zero_time) ≡ (ok, some t))
    × IsValid t
    × (nanos t ≡ pos 90061000000)
clock_gettime-exact_example = clock_gettime-exact board 90061 (omega arith) (omega arith) zero_time

-- A relative sleep of 1.5 ms.
clock_nanosleep-least_example :
    let r =
      clock_nanosleep board 0 90061 90061
        (some (record { tv_sec = pos 0; tv_nsec = pos 1500000 }))
        fresh in
    (((1000000000 ≤ 1500000) ⊎ (is_abstime 0 ≡ true)) × (r ≡ (errnum einval, fresh)))
    ⊎ ((1500000 < 1000000000)
        × (is_abstime 0 ≡ false)
        × ((k : ℕ) × (r ≡ (ok, task_sleep (some k) fresh))
            × (1500000 ≤ k * 1000000)
            × (k * 1000000 < 1500000 + 1000000)))
clock_nanosleep-least_example =
    clock_nanosleep-least board refl 0 90061 90061 0 1500000 fresh (omega arith)

nanosleep-overflow_example :
    nanosleep board (some (record { tv_sec = pos 5000000; tv_nsec = pos 0 })) fresh ≡ (ok, fresh)
nanosleep-overflow_example =
    nanosleep-overflow board 5000000 0 fresh (omega arith) (omega arith) (omega arith)

-- 4000 s are not slept in full.
usleep-le_4294_example :
    (k : ℕ) × (usleep board 4000000000 fresh ≡ (ok, task_sleep (some k) fresh))
    × (k ≤ 4294)
    × ((2 ^ 32 ≤ 4000000000 * 1000)
        ⊎ ((k * 1000000 ≤ 4000000000 * 1000) × (4000000000 * 1000 < k * 1000000 + 1000000)))
usleep-le_4294_example = usleep-le_4294 board 4000000000 fresh
