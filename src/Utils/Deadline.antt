-- ===== src/Utils/Deadline.antt =====
-- `abs_timespec2ticks` of src/utils.c: the ticks from now to an absolute time.
use native.Mathlib.Nat.{mul-le-mul_left}
use libposix.Prelude.{ap, refl, ◌∙◌, ℕ, ◌+◌, ◌*◌, ◌^◌, ◌≤◌, ◌<◌, ◌≡◌, ◌⊎◌, inl, inr, some, arith}
use libposix.Prelude.Int.{
  ℤ, pos, -ℤ_parts, +ℤ_parts, negsuc, pos_part, neg_part, ◌+ℤ◌, ◌-ℤ◌, ◌≤ℤ◌, ◌<ℤ◌,
}
use libposix.Prelude.Status.{ok, errnum, etimedout}
use libposix.Time.{Timespec, Platform, IsValid, nanos, nanos_parts, nanoseconds_per_tick}
use libposix.Utils.{abs_timespec2ticks, timespec_sub, timespec2ticks}
use libposix.Utils.Sub.{SecondsFit, timespec_sub-exact, sub_less, sub_equal}
use libposix.Utils.Ticks.{ExactTick, timespec2ticks-least, timespec2ticks-exact, exact_ticks-zero}

-- A valid timespec that is not before 0 has no negative field.
record Unsigned (t : Timespec) : Type 0 where
  s : ℕ
  n : ℕ
  same : t ≡ record { tv_sec = pos s; tv_nsec = pos n }
  below : n < 1000000000
  total : pos_part (nanos t) ≡ neg_part (nanos t) + (1000000000 * s + n)

bounded_fields :
    (s n : ℤ)
    → IsValid (record { tv_sec = s; tv_nsec = n })
    → neg_part (nanos (record { tv_sec = s; tv_nsec = n }))
      ≤ pos_part (nanos (record { tv_sec = s; tv_nsec = n }))
    → Unsigned (record { tv_sec = s; tv_nsec = n })
bounded_fields (pos s) (pos n) v h = record {
  s = s;
  n = n;
  same = refl;
  below = omega arith;
  total = omega (arith, nanos_parts (record { tv_sec = pos s; tv_nsec = pos n }));
}
bounded_fields (negsuc s) (pos n) v h =
    absurd (omega (arith, nanos_parts (record { tv_sec = negsuc s; tv_nsec = pos n })))
bounded_fields s (negsuc n) v h = absurd (omega arith)

-- `struct timespec diff = { 0 }`
abbrev start_diff : Timespec
start_diff = record { tv_sec = pos 0; tv_nsec = pos 0 }

-- What `abs_timespec2ticks` returns for the deadline x at the time y.
abbrev pub Deadline : Platform → Timespec → Timespec → ℕ → Type 0
Deadline p x y r =
    ((nanos x <ℤ nanos y)
      × (abs_timespec2ticks p (some x) (some y) (some r) ≡ (errnum etimedout, some r)))
    ⊎ ((k : ℕ) × (abs_timespec2ticks p (some x) (some y) (some r) ≡ (ok, some k))
        × (nanos x ≤ℤ nanos y +ℤ pos (k * nanoseconds_per_tick p))
        × (nanos y +ℤ pos (k * nanoseconds_per_tick p) <ℤ nanos x +ℤ pos (nanoseconds_per_tick p)))

module _ (p : Platform) (x y : Timespec) (vx : IsValid x) (vy : IsValid y) where
  later :
      ExactTick p
      → p.tmr_hz * pos_part (x.tv_sec -ℤ y.tv_sec) + p.tmr_hz < 2 ^ 32
      → (r : ℕ) (d : Timespec) → nanos y ≤ℤ nanos x
      → timespec_sub p (some x) (some y) (some start_diff) ≡ (pos 0, some d)
      → IsValid d
      → nanos d ≡ nanos x -ℤ nanos y
      → Deadline p x y r
  unfolding abs_timespec2ticks
  later exact span r d le e vd diff =
      let gap = ap pos_part diff in
      let under = ap neg_part diff in
      let sum = -ℤ_parts (nanos x) (nanos y) in
      let u : Unsigned d = bounded_fields d.tv_sec d.tv_nsec vd (omega (arith, gap, under, sum)) in
      let seconds : u.s ≤ pos_part (x.tv_sec -ℤ y.tv_sec) = omega (
        arith,
        u.total,
        u.below,
        gap,
        under,
        sum,
        nanos_parts x,
        nanos_parts y,
        -ℤ_parts x.tv_sec y.tv_sec,
      ) in
      let least =
        timespec2ticks-least p exact u.s u.n r (omega (arith, mul-le-mul_left p.tmr_hz seconds))
          u.below in
      let ticks = pos (least.0 * nanoseconds_per_tick p) in
      inr (
        least.0,
        rw e (ap (λ t. timespec2ticks p (some t) (some r)) u.same ∙ least.1),
        omega (arith, least.2, least.3, u.total, gap, under, sum, +ℤ_parts (nanos y) ticks),
        omega (
          arith,
          least.2,
          least.3,
          u.total,
          gap,
          under,
          sum,
          +ℤ_parts (nanos y) ticks,
          +ℤ_parts (nanos x) (pos (nanoseconds_per_tick p)),
        ),
      )

  -- Where a tick is a whole number of nanoseconds, and the two valid times are near enough for
  -- time_t and for an unsigned number of ticks: a deadline before the current time is ETIMEDOUT and
  -- nothing is stored; any other gives the least number of ticks that does not end before it.
  pub abs_timespec2ticks-Deadline :
      ExactTick p
      → SecondsFit p x y
      → p.tmr_hz * pos_part (x.tv_sec -ℤ y.tv_sec) + p.tmr_hz < 2 ^ 32
      → (r : ℕ) → Deadline p x y r
  unfolding abs_timespec2ticks
  abs_timespec2ticks-Deadline exact fit span r =
      elim (timespec_sub-exact p x y vx vy fit start_diff) [
        | inl (lt, e) ↦ inl (lt, rw e)
        | inr (le, d, e, vd, diff) ↦ later exact span r d le e vd diff
      ]

  pub abs_timespec2ticks-past :
      nanos x <ℤ nanos y
      → (r : ℕ) → abs_timespec2ticks p (some x) (some y) (some r) ≡ (errnum etimedout, some r)
  unfolding abs_timespec2ticks
  abs_timespec2ticks-past lt r = rw (sub_less p x y vx vy lt start_diff)

  pub abs_timespec2ticks-now :
      nanos x ≡ nanos y → (r : ℕ) → abs_timespec2ticks p (some x) (some y) (some r) ≡ (ok, some 0)
  unfolding abs_timespec2ticks
  abs_timespec2ticks-now e r =
      rw (sub_equal p x y vx vy e start_diff)
        (timespec2ticks-exact p 0 0 r (omega arith) (omega arith) ∙ rw (exact_ticks-zero p))
