-- ===== src/Clock/Due.antt =====
-- Deadlines against the clock that the waiting functions read: `abs_timespec2ticks` of src/utils.c
-- after `clock_gettime` of src/posix_clock.c.
use libposix.Prelude.{
  ap, sym, ◌⊎◌, inl, inr, Bool-cases, ◌==◌, ℕ, ◌+◌, ◌%◌, ◌*◌, ◌/◌, ◌^◌, ◌≤◌, ◌<◌, ◌≡◌, ◌∙◌, Option,
  some, true, arith,
}
use libposix.Prelude.Int.{eq_of_parts, pos, pos_part, ◌<ℤ◌, ◌≤ℤ◌, ◌+ℤ◌, ◌-ℤ◌, +ℤ_parts, neg_part}
use libposix.Prelude.Status.{Ret, ok, errnum, etimedout}
use libposix.Time.{IsValid, nanos, nanos_parts, Timespec, Platform, nanoseconds_per_tick}
use libposix.Utils.{validate_timespec, abs_timespec2ticks}
use libposix.Utils.Sub.{SecondsFit}
use libposix.Utils.Ticks.{ExactTick}
use libposix.Utils.Deadline.{
  abs_timespec2ticks-Deadline, abs_timespec2ticks-past, abs_timespec2ticks-now,
}
use libposix.Clock.{zero_time, clock_gettime}
use libposix.Clock.Reading.{clock_gettime-exact, gettime_fields}

pub IsValid-validate : (t : Timespec) → IsValid t → validate_timespec (some t) ≡ true
unfolding validate_timespec
IsValid-validate t v = ground arith

-- The time 0, the timeout of the `try` functions, is never in the future.
pub zero_is_due :
    (p : Platform) (now : ℕ)
    → (nanos zero_time <ℤ pos (now * nanoseconds_per_tick p))
      ⊎ (nanos zero_time ≡ pos (now * nanoseconds_per_tick p))
zero_is_due p now =
    let parts = nanos_parts zero_time in
    elim (Bool-cases (now * nanoseconds_per_tick p == 0)) [
      | inl e ↦ inr (
          ground (arith, parts, eq_of_parts (nanos zero_time) (pos (now * nanoseconds_per_tick p))))
      | inr e ↦ inl (ground (arith, parts))
    ]

-- What the clock reads.
abbrev pub elapsed : Platform → ℕ → Timespec
elapsed p now = record {
  tv_sec = pos (now * nanoseconds_per_tick p / 1000000000);
  tv_nsec = pos (now * nanoseconds_per_tick p % 1000000000);
}

-- The least number of ticks from now after which the clock is not before the time.
abbrev pub IsLeast : Platform → ℕ → Timespec → ℕ → Type 0
IsLeast p now t k =
    (nanos t ≤ℤ pos (now * nanoseconds_per_tick p + k * nanoseconds_per_tick p))
    × (pos (now * nanoseconds_per_tick p + k * nanoseconds_per_tick p)
        <ℤ nanos t +ℤ pos (nanoseconds_per_tick p))

module _ (p : Platform) (now : ℕ) (range : now < 2 ^ 32)
    (fit : now * nanoseconds_per_tick p / 1000000000 ≤ p.time_max) (t : Timespec) (v : IsValid t)
    (r : ℕ) where
  -- The clock is read, and the conversion to ticks returns `result`.
  pub record Converts (result : Ret × Option ℕ) : Type 0 where
    pub cur : Timespec
    pub read : clock_gettime p now (some zero_time) ≡ (ok, some cur)
    pub ticks : abs_timespec2ticks p (some t) (some cur) (some r) ≡ result

  pub past : nanos t <ℤ pos (now * nanoseconds_per_tick p) → Converts (errnum etimedout, some r)
  past lt =
      let (cur, read, vc, e) = clock_gettime-exact p now range fit zero_time in
      record { cur = cur; read = read; ticks = abs_timespec2ticks-past p t cur v vc (rw e lt) r }

  pub at_once : nanos t ≡ pos (now * nanoseconds_per_tick p) → Converts (ok, some 0)
  at_once same =
      let (cur, read, vc, e) = clock_gettime-exact p now range fit zero_time in
      record {
        cur = cur;
        read = read;
        ticks = abs_timespec2ticks-now p t cur v vc (same ∙ sym e) r;
      }

  nanos-elapsed : nanos (elapsed p now) ≡ pos (now * nanoseconds_per_tick p)
  nanos-elapsed =
      eq_of_parts (nanos (elapsed p now)) (pos (now * nanoseconds_per_tick p))
        (omega (arith, nanos_parts (elapsed p now)))

  -- The deadline has passed, or the conversion gives the least number of ticks that reach it.
  abbrev pub Reaches : Type 0
  Reaches =
      ((nanos t <ℤ pos (now * nanoseconds_per_tick p)) × Converts (errnum etimedout, some r))
      ⊎ ((k : ℕ) × Converts (ok, some k) × IsLeast p now t k)

  pub reaches :
      ExactTick p
      → SecondsFit p t (elapsed p now)
      → p.tmr_hz * pos_part (t.tv_sec -ℤ (elapsed p now).tv_sec) + p.tmr_hz < 2 ^ 32
      → Reaches
  reaches exact near span =
      let n = now * nanoseconds_per_tick p in
      let read = gettime_fields p now range fit zero_time in
      let valid : IsValid (elapsed p now) = record { nonneg = omega arith; below = omega arith } in
      let plus = ap pos_part nanos-elapsed in
      let minus = ap neg_part nanos-elapsed in
      elim (abs_timespec2ticks-Deadline p t (elapsed p now) v valid exact near span r) [
        | inl (lt, e) ↦
            inl (
              omega (arith, lt, plus, minus),
              record { cur = elapsed p now; read = read; ticks = e },
            )
        | inr (k, e, le, lt) ↦
            let sum = +ℤ_parts (nanos (elapsed p now)) (pos (k * nanoseconds_per_tick p)) in
            inr (
              k,
              record { cur = elapsed p now; read = read; ticks = e },
              (omega (arith, le, sum, plus, minus), omega (arith, lt, sum, plus, minus)),
            )
      ]
