-- ===== src/Utils.antt =====
-- src/utils.c: checking, comparing and subtracting timespecs, and converting them to ticks and from
-- nanoseconds. A pointer that the code tests for NULL is an `Option`, and what is written through
-- an output pointer is part of the result: `none` there is the NULL pointer.
pub mod Order
pub mod Deadline
mod Examples
pub mod Nano
pub mod Sub
pub mod Ticks
use libposix.Prelude.{ℕ, ◌-◌, ◌^◌, Option, none, some, Bool, false, not, ◌&&◌, ◌||◌, if◌then◌else◌}
use libposix.Prelude.Int.{
  ℤ, pos, negsuc, ◌+ℤ◌, ◌-ℤ◌, ◌*ℤ◌, quot, rem, ltb_ℤ, eqb_ℤ, int32, int64, uint32,
}
use libposix.Prelude.Status.{Ret, ok, errnum, einval, etimedout}
use libposix.Time.{Timespec, Platform, nanoseconds_per_second, nanoseconds_per_tick}

-- The two tests of `validate_timespec`, on a timespec that is there.
abbrev pub nsec_in_range : Timespec → Bool
nsec_in_range t = not (ltb_ℤ t.tv_nsec (pos 0)) && ltb_ℤ t.tv_nsec (pos nanoseconds_per_second)

unfoldable pub validate_timespec : Option Timespec → Bool
validate_timespec none = false
validate_timespec (some t) = nsec_in_range t

-- `timespec_cmp` where both pointers are there.
unfoldable pub compare_fields : Timespec → Timespec → ℤ
compare_fields x y =
    if ltb_ℤ y.tv_sec x.tv_sec
    then pos 1
    else if ltb_ℤ x.tv_sec y.tv_sec
    then negsuc 0
    else if ltb_ℤ y.tv_nsec x.tv_nsec
    then pos 1
    else if ltb_ℤ x.tv_nsec y.tv_nsec
    then negsuc 0
    else pos 0

unfoldable pub timespec_cmp : Option Timespec → Option Timespec → ℤ
timespec_cmp none none = pos 0
timespec_cmp (some x) none = pos 1
timespec_cmp none (some y) = negsuc 0
timespec_cmp (some x) (some y) = compare_fields x y

-- `if (result->tv_nsec < 0)`: a second is borrowed.
unfoldable pub borrow : Platform → Timespec → Timespec
borrow p t =
    if ltb_ℤ t.tv_nsec (pos 0)
    then record {
      tv_sec = p.to_time (t.tv_sec -ℤ pos 1);
      tv_nsec = int32 (t.tv_nsec +ℤ pos nanoseconds_per_second);
    }
    else t

-- The branch of `timespec_sub` for x > y, before the last test.
unfoldable pub subtract_fields : Platform → Timespec → Timespec → Timespec
unfolding borrow
subtract_fields p x y =
    borrow p (record {
      tv_sec = p.to_time (x.tv_sec -ℤ y.tv_sec);
      tv_nsec = int32 (x.tv_nsec -ℤ y.tv_nsec);
    })

-- The return value, and what `*result` holds afterwards.
unfoldable pub timespec_sub :
    Platform → Option Timespec → Option Timespec → Option Timespec → ℤ × Option Timespec
unfolding timespec_cmp compare_fields
timespec_sub p x y none = (negsuc 0, none)
timespec_sub p none y (some r) = (negsuc 0, some r)
timespec_sub p (some x) none (some r) = (negsuc 0, some r)
timespec_sub p (some x) (some y) (some r) =
    let cmp = timespec_cmp (some x) (some y) in
    let diff = subtract_fields p x y in
    if eqb_ℤ cmp (negsuc 0)
    then (pos 1, some r)
    else if eqb_ℤ cmp (pos 0)
    then (pos 0, some (record { tv_sec = pos 0; tv_nsec = pos 0 }))
    else (if ltb_ℤ diff.tv_nsec (pos 0) then negsuc 0 else pos 0, some diff)

-- Whole ticks of tv_nsec, rounded up.
unfoldable pub nsec_ticks : Platform → ℤ → ℤ
nsec_ticks p n = int32 (
    quot n (nanoseconds_per_tick p)
    +ℤ (if eqb_ℤ (rem n (nanoseconds_per_tick p)) (pos 0) then pos 0 else pos 1))

-- `total_ticks`, an int64_t.
unfoldable pub total_ticks : Platform → Timespec → ℤ
total_ticks p t = int64 (int64 (p.tmr_hz *ℤ t.tv_sec) +ℤ nsec_ticks p t.tv_nsec)

-- The overflow tests: below 0, or above UINT_MAX (an unsigned has 32 bits).
abbrev pub ticks_overflow : ℤ → Bool
ticks_overflow n = ltb_ℤ n (pos 0) || ltb_ℤ (pos (2 ^ 32 - 1)) n

-- The return value, and what `*result` holds afterwards: it is written on overflow too.
unfoldable pub timespec2ticks : Platform → Option Timespec → Option ℕ → Ret × Option ℕ
unfolding validate_timespec
timespec2ticks p none r = (errnum einval, r)
timespec2ticks p (some t) none = (errnum einval, none)
timespec2ticks p (some t) (some r) =
    if validate_timespec (some t)
    then (
      if ticks_overflow (total_ticks p t) then errnum einval else ok,
      some (uint32 (total_ticks p t)),
    )
    else (errnum einval, some r)

-- The last step of `abs_timespec2ticks`, from what `timespec_sub` returned and left in `diff`.
unfoldable pub ticks_of_diff : Platform → ℤ × Option Timespec → Option ℕ → Ret × Option ℕ
ticks_of_diff p (ret, diff) r =
    if eqb_ℤ ret (pos 1)
    then (errnum etimedout, r)
    else if eqb_ℤ ret (negsuc 0)
    then (errnum einval, r)
    else timespec2ticks p diff r

unfoldable pub abs_timespec2ticks :
    Platform → Option Timespec → Option Timespec → Option ℕ → Ret × Option ℕ
unfolding ticks_of_diff
abs_timespec2ticks p none cur r = (errnum einval, r)
abs_timespec2ticks p (some t) none r = (errnum einval, r)
abs_timespec2ticks p (some t) (some cur) none = (errnum einval, none)
abs_timespec2ticks p (some t) (some cur) (some r) =
    ticks_of_diff p
      (timespec_sub p (some t) (some cur) (some (record { tv_sec = pos 0; tv_nsec = pos 0 })))
      (some r)

-- The second half of `nano2timespec`: a negative tv_nsec is made up for by seconds.
unfoldable pub carry_seconds : Platform → Timespec → Timespec
carry_seconds p t =
    let carry = int32 (quot t.tv_nsec nanoseconds_per_second +ℤ pos 1) in
    if ltb_ℤ t.tv_nsec (pos 0)
    then record {
      tv_sec = p.to_time (t.tv_sec -ℤ p.to_time carry);
      tv_nsec = int32 (t.tv_nsec +ℤ int32 (nanoseconds_per_second *ℤ carry));
    }
    else t

unfoldable pub nano2timespec : Platform → ℤ → Timespec
unfolding carry_seconds
nano2timespec p z = carry_seconds p (record {
  tv_sec = p.to_time (quot z nanoseconds_per_second);
  tv_nsec = int32 (rem z nanoseconds_per_second);
})
