-- ===== src/Utils/Examples.antt =====
-- Tests of src/utils.c, and its theorems at concrete times.
use libposix.Prelude.{ℕ, ◌+◌, ◌*◌, ◌≤◌, ◌<◌, ◌≡◌, refl, ◌⊎◌, some, arith}
use libposix.Prelude.Int.{
  pos, negsuc, ◌+ℤ◌, ◌-ℤ◌, ◌≤ℤ◌, ◌<ℤ◌, ◌*ℤ◌, quot, rem, int32, int64, uint32,
}
use libposix.Prelude.Status.{ok, errnum, einval}
use libposix.Board.{board}
use libposix.Time.{Timespec, IsValid, nanos}
use libposix.Utils.{
  timespec_sub, timespec2ticks, nano2timespec, subtract_fields, borrow, total_ticks, nsec_ticks,
}
use libposix.Utils.Sub.{timespec_sub-exact}
use libposix.Utils.Ticks.{timespec2ticks-exact, timespec2ticks-least}
use libposix.Utils.Nano.{nano2timespec-exact}
use libposix.Utils.Deadline.{Deadline, abs_timespec2ticks-Deadline}

-- 5.7 s and 7.2 s: their difference borrows a second.
abbrev early : Timespec
early = record { tv_sec = pos 5; tv_nsec = pos 700000000 }

abbrev late : Timespec
late = record { tv_sec = pos 7; tv_nsec = pos 200000000 }

abbrev gap : Timespec
gap = record { tv_sec = pos 1; tv_nsec = pos 500000000 }

borrows : timespec_sub board (some late) (some early) (some early) ≡ (pos 0, some gap)
unfolding timespec_sub subtract_fields borrow int32 ◌-ℤ◌ ◌+ℤ◌
borrows = refl

in_the_past : timespec_sub board (some early) (some late) (some gap) ≡ (pos 1, some gap)
unfolding timespec_sub subtract_fields borrow int32 ◌-ℤ◌ ◌+ℤ◌
in_the_past = refl

-- A nanosecond more than a tick takes two.
rounds_up :
    timespec2ticks board (some (record { tv_sec = pos 1; tv_nsec = pos 1000001 })) (some 0)
    ≡ (ok, some 1002)
unfolding timespec2ticks total_ticks nsec_ticks int32 int64 uint32 quot rem ◌+ℤ◌ ◌*ℤ◌
rounds_up = refl

-- 2^32 ticks do not fit: the result is stored modulo 2^32.
does_not_fit :
    timespec2ticks board (some (record { tv_sec = pos 4294968; tv_nsec = pos 0 })) (some 7)
    ≡ (errnum einval, some 704)
unfolding timespec2ticks total_ticks nsec_ticks int32 int64 uint32 quot rem ◌+ℤ◌ ◌*ℤ◌
does_not_fit = refl

before_zero : nano2timespec board (negsuc 0) ≡ record { tv_sec = negsuc 0; tv_nsec = pos 999999999 }
unfolding nano2timespec int32 quot rem ◌+ℤ◌ ◌-ℤ◌ ◌*ℤ◌
before_zero = refl

timespec_sub-exact_example :
    ((nanos late <ℤ nanos early)
      × (timespec_sub board (some late) (some early) (some gap) ≡ (pos 1, some gap)))
    ⊎ ((nanos early ≤ℤ nanos late)
        × (d : Timespec) × (timespec_sub board (some late) (some early) (some gap)
            ≡ (pos 0, some d))
        × IsValid d
        × (nanos d ≡ nanos late -ℤ nanos early))
unfolding ◌-ℤ◌
timespec_sub-exact_example =
    timespec_sub-exact board late early (omega arith) (omega arith) (omega arith) gap

timespec2ticks-exact_example :
    timespec2ticks board (some (record { tv_sec = pos 4294968; tv_nsec = pos 0 })) (some 7)
    ≡ (errnum einval, some 704)
timespec2ticks-exact_example = timespec2ticks-exact board 4294968 0 7 (omega arith) (omega arith)

timespec2ticks-least_example :
    (k : ℕ) × (timespec2ticks board
        (some (record { tv_sec = pos 1; tv_nsec = pos 1000001 }))
        (some 0)
      ≡ (ok, some k))
    × (1 * 1000000000 + 1000001 ≤ k * 1000000)
    × (k * 1000000 < 1 * 1000000000 + 1000001 + 1000000)
timespec2ticks-least_example =
    timespec2ticks-least board refl 1 1000001 0 (omega arith) (omega arith)

nano2timespec-exact_example :
    IsValid (nano2timespec board (negsuc 0)) × (nanos (nano2timespec board (negsuc 0)) ≡ negsuc 0)
nano2timespec-exact_example = nano2timespec-exact board (negsuc 0) (omega arith) (omega arith)

abs_timespec2ticks-Deadline_example : Deadline board late early 0
unfolding ◌-ℤ◌
abs_timespec2ticks-Deadline_example =
    abs_timespec2ticks-Deadline board late early (omega arith) (omega arith) refl (omega arith)
      (omega arith) 0
