-- ===== src/Utils/Ticks.antt =====
-- `timespec2ticks` of src/utils.c: the rounding to whole ticks, and the range of an unsigned.
use libposix.Prelude.{
  ap, ◌∙◌, ℕ, ◌+◌, ◌*◌, ◌/◌, ◌%◌, ◌^◌, ◌≤◌, ◌<◌, ◌≡◌, some, arith, ltb, ◌==◌, if◌then◌else◌,
}
use native.Mathlib.Nat.{
  div-lt_iff_lt-mul, zero-div, zero-mod, div-add-mod', mod-lt, le-div_iff_mul-le, div-le_self,
}
use libposix.Prelude.Int.{
  +ℤ_pos, *ℤ_pos, eqb_ℤ, pos, ◌+ℤ◌, quot, rem, int32, uint32, int32_fits, int64_fits,
}
use libposix.Prelude.Status.{ok, errnum, einval}
use libposix.Time.{Platform, nanoseconds_per_tick}
use libposix.Utils.{nsec_ticks, total_ticks, timespec2ticks}

abbrev pub ceil_div : ℕ → ℕ → ℕ
ceil_div n d = n / d + (if n % d == 0 then 0 else 1)

-- The rounded quotient is the least number of `d`s that cover `n`.
pub ceil_div_bounds : (n d : ℕ) → 0 < d → (n ≤ ceil_div n d * d) × (ceil_div n d * d < n + d)
ceil_div_bounds n d h = ground (arith, div-add-mod' n d, mod-lt n h)

ceil_div-le : (n d : ℕ) → ceil_div n d ≤ n / d + 1
ceil_div-le n d = ground arith

quot_pos : (n d : ℕ) → quot (pos n) d ≡ pos (n / d)
unfolding quot
quot_pos n d = ground arith

rem_pos : (n d : ℕ) → 0 < d → rem (pos n) d ≡ pos (n % d)
unfolding rem
rem_pos n d h = ground arith

module _ (p : Platform) where
  pub tick_pos : 0 < nanoseconds_per_tick p
  tick_pos = (le-div_iff_mul-le p.hz_pos).1 (omega (arith, p.hz_le))

  nsec_ticks_sum :
      (n d : ℕ)
      → 0 < d
      → quot (pos n) d +ℤ (if eqb_ℤ (rem (pos n) d) (pos 0) then pos 0 else pos 1)
        ≡ pos (ceil_div n d)
  unfolding ◌+ℤ◌
  nsec_ticks_sum n d h = rw (quot_pos n d, rem_pos n d h) (ground arith)

  nsec_ticks_lem :
      (n : ℕ) → n < 1000000000 → nsec_ticks p (pos n) ≡ pos (ceil_div n (nanoseconds_per_tick p))
  unfolding nsec_ticks
  nsec_ticks_lem n h =
      let d = nanoseconds_per_tick p in
      ap int32 (nsec_ticks_sum n d tick_pos)
      ∙ int32_fits (pos (ceil_div n d)) (omega (arith, div-le_self n d, ceil_div-le n d))
          (omega arith)

  -- The exact number of ticks, before any conversion.
  abbrev pub exact_ticks : ℕ → ℕ → ℕ
  exact_ticks s n = p.tmr_hz * s + ceil_div n (nanoseconds_per_tick p)

  total_ticks_lem :
      (s n : ℕ)
      → p.tmr_hz * s < 2 ^ 62
      → n < 1000000000
      → total_ticks p (record { tv_sec = pos s; tv_nsec = pos n }) ≡ pos (exact_ticks s n)
  unfolding total_ticks
  total_ticks_lem s n small h =
      let d = nanoseconds_per_tick p in
      rw
        (
          *ℤ_pos p.tmr_hz s,
          int64_fits (pos (p.tmr_hz * s)) (omega arith) (omega arith),
          nsec_ticks_lem n h,
          +ℤ_pos (p.tmr_hz * s) (ceil_div n d),
        )
        (int64_fits (pos (exact_ticks s n)) (omega (arith, div-le_self n d, ceil_div-le n d))
          (omega arith))

  -- For a valid timespec that is not negative and the product of whose seconds with the tick rate is
  -- below 2^62,
  -- `timespec2ticks` stores the number of ticks modulo 2^32, and returns 0 exactly when that number
  -- is below 2^32, and EINVAL otherwise.
  pub timespec2ticks-exact :
      (s n old : ℕ)
      → p.tmr_hz * s < 2 ^ 62
      → n < 1000000000
      → timespec2ticks p (some (record { tv_sec = pos s; tv_nsec = pos n })) (some old) ≡ (
        if ltb (exact_ticks s n) (2 ^ 32) then ok else errnum einval,
        some (exact_ticks s n % 2 ^ 32),
      )
  unfolding timespec2ticks uint32
  timespec2ticks-exact s n old small h = rw (total_ticks_lem s n small h) (ground arith)

  -- A tick is a whole number of nanoseconds.
  abbrev pub ExactTick : Type 0
  ExactTick = p.tmr_hz * nanoseconds_per_tick p ≡ 1000000000

  pub exact_ticks-covers :
      ExactTick
      → (s n : ℕ)
      → (s * 1000000000 + n ≤ exact_ticks s n * nanoseconds_per_tick p)
        × (exact_ticks s n * nanoseconds_per_tick p < s * 1000000000 + n + nanoseconds_per_tick p)
  exact_ticks-covers e s n =
      let d = nanoseconds_per_tick p in
      omega (arith, ap (λ (t : ℕ). t * s) e, ceil_div_bounds n d tick_pos)

  exact_ticks-le :
      ExactTick → (s n : ℕ) → n < 1000000000 → exact_ticks s n ≤ p.tmr_hz * s + p.tmr_hz
  exact_ticks-le e s n h =
      let d = nanoseconds_per_tick p in
      omega (
        arith,
        ceil_div-le n d,
        (div-lt_iff_lt-mul {x = n} {y = p.tmr_hz} tick_pos).1 (omega (arith, e)),
      )

  -- Where a tick is a whole number of nanoseconds and the ticks of one more second fit an unsigned,
  -- for a timespec with tv_sec not below 0 and tv_nsec from 0 to 999999999, `timespec2ticks` succeeds
  -- with the least number of ticks that lasts as long as the timespec.
  pub timespec2ticks-least :
      ExactTick
      → (s n old : ℕ) → p.tmr_hz * s + p.tmr_hz < 2 ^ 32
      → n < 1000000000
      → (k : ℕ) × (timespec2ticks p (some (record { tv_sec = pos s; tv_nsec = pos n })) (some old)
          ≡ (ok, some k))
        × (s * 1000000000 + n ≤ k * nanoseconds_per_tick p)
        × (k * nanoseconds_per_tick p < s * 1000000000 + n + nanoseconds_per_tick p)
  timespec2ticks-least e s n old small h =
      let covers = exact_ticks-covers e s n in
      let le = exact_ticks-le e s n h in
      (
        exact_ticks s n,
        timespec2ticks-exact s n old (omega arith) h ∙ ground arith,
        covers.0,
        covers.1,
      )

  pub exact_ticks-zero : exact_ticks 0 0 ≡ 0
  exact_ticks-zero = let d = nanoseconds_per_tick p in ground (arith, zero-div d, zero-mod d)
