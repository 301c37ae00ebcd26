-- ===== src/Clock/Sleeping.antt =====
-- How long the sleeping functions of src/posix_clock.c and src/posix_unistd.c sleep.
use libposix.Prelude.{
  ℕ, ◌+◌, ◌*◌, ◌/◌, ◌%◌, ◌^◌, ◌≤◌, ◌<◌, ◌≡◌, refl, Option, some, true, false, arith, Bool-cases,
  inl, inr, ◌⊎◌, ltb,
}
use libposix.Prelude.Int.{pos}
use libposix.Prelude.Status.{ok, errnum, einval}
use libposix.Time.{Timespec, Platform, nanoseconds_per_tick}
use libposix.Utils.{validate_timespec, timespec2ticks}
use libposix.Utils.Ticks.{ExactTick, timespec2ticks-exact, timespec2ticks-least}
use libposix.Clock.{
  Thread, task_sleep, is_abstime, nanosleep, clock_nanosleep, clock_gettime, usleep,
}

pub validate-pos :
    (s n : ℕ)
    → n < 1000000000
    → validate_timespec (some (record { tv_sec = pos s; tv_nsec = pos n })) ≡ true
unfolding validate_timespec
validate-pos s n h = ground arith

module _ (p : Platform) where
  -- A request that is none is not slept, whatever the flags.
  invalid_lem :
      (flags now now' : ℕ) (rqtp : Option Timespec) (th : Thread)
      → validate_timespec rqtp ≡ false
      → clock_nanosleep p flags now now' rqtp th ≡ (errnum einval, th)
  unfolding clock_nanosleep
  invalid_lem flags now now' rqtp th invalid = rw invalid

  validate-large :
      (s n : ℕ)
      → 1000000000 ≤ n
      → validate_timespec (some (record { tv_sec = pos s; tv_nsec = pos n })) ≡ false
  unfolding validate_timespec
  validate-large s n h = ground arith

  absolute_lem :
      (flags now now' : ℕ) (rqtp : Option Timespec) (th : Thread)
      → validate_timespec rqtp ≡ true
      → is_abstime flags ≡ true
      → clock_nanosleep p flags now now' rqtp th ≡ (errnum einval, th)
  unfolding clock_nanosleep clock_gettime
  absolute_lem flags now now' rqtp th valid absolute = rw (valid, absolute) refl

  relative_lem :
      (flags now now' k : ℕ) (rqtp : Option Timespec) (th : Thread)
      → validate_timespec rqtp ≡ true
      → is_abstime flags ≡ false
      → timespec2ticks p rqtp (some 0) ≡ (ok, some k)
      → clock_nanosleep p flags now now' rqtp th ≡ (ok, task_sleep (some k) th)
  unfolding clock_nanosleep clock_gettime
  relative_lem flags now now' k rqtp th valid relative e = rw (valid, relative) (rw e refl)

  -- Where a tick is a whole number of nanoseconds and the ticks of one more second fit an unsigned,
  -- for a request with tv_sec and tv_nsec not below 0: `clock_nanosleep` returns EINVAL and does not sleep
  -- if tv_nsec is 10^9 or more, or if the time is absolute; otherwise it returns 0 and sleeps once, for
  -- the least number of ticks that lasts as long as the request.
  pub clock_nanosleep-least :
      ExactTick p
      → (flags now now' s n : ℕ) (th : Thread) → p.tmr_hz * s + p.tmr_hz < 2 ^ 32
      → let r =
          clock_nanosleep p flags now now' (some (record { tv_sec = pos s; tv_nsec = pos n })) th in
        (((1000000000 ≤ n) ⊎ (is_abstime flags ≡ true)) × (r ≡ (errnum einval, th)))
        ⊎ ((n < 1000000000)
            × (is_abstime flags ≡ false)
            × ((k : ℕ) × (r ≡ (ok, task_sleep (some k) th))
                × (s * 1000000000 + n ≤ k * nanoseconds_per_tick p)
                × (k * nanoseconds_per_tick p < s * 1000000000 + n + nanoseconds_per_tick p)))
  clock_nanosleep-least exact flags now now' s n th small =
      let rqtp : Option Timespec = some (record { tv_sec = pos s; tv_nsec = pos n }) in
      elim (Bool-cases (ltb n 1000000000)) [
        | inr large ↦
            let many : 1000000000 ≤ n = ground (arith, large) in
            inl (inl many, invalid_lem flags now now' rqtp th (validate-large s n many))
        | inl few ↦
            let h : n < 1000000000 = ground (arith, few) in
            elim (Bool-cases (is_abstime flags)) [
              | inl absolute ↦
                  inl (
                    inr absolute,
                    absolute_lem flags now now' rqtp th (validate-pos s n h) absolute,
                  )
              | inr relative ↦
                  let least = timespec2ticks-least p exact s n 0 small h in
                  inr (
                    h,
                    relative,
                    (
                      least.0,
                      relative_lem flags now now' least.0 rqtp th (validate-pos s n h) relative
                          least.1,
                      least.2,
                      least.3,
                    ),
                  )
            ]
      ]

  -- Where a tick is a whole number of nanoseconds and the ticks of one more second fit an unsigned,
  -- `nanosleep` sleeps once, for the least number of ticks that lasts as long as the request.
  nanosleep-least :
      ExactTick p
      → (s n : ℕ) (th : Thread) → p.tmr_hz * s + p.tmr_hz < 2 ^ 32
      → n < 1000000000
      → (k : ℕ) × (nanosleep p (some (record { tv_sec = pos s; tv_nsec = pos n })) th
          ≡ (ok, task_sleep (some k) th))
        × (s * 1000000000 + n ≤ k * nanoseconds_per_tick p)
        × (k * nanoseconds_per_tick p < s * 1000000000 + n + nanoseconds_per_tick p)
  unfolding nanosleep
  nanosleep-least exact s n th small h =
      let least = timespec2ticks-least p exact s n 0 small h in
      (least.0, rw (validate-pos s n h, least.1), least.2, least.3)

  -- A valid request that is not negative, whose ticks do not fit an unsigned, and the product of whose
  -- seconds with the tick rate is 2^32 or more and below 2^62, is not slept at all, and `nanosleep`
  -- returns 0.
  pub nanosleep-overflow :
      (s n : ℕ) (th : Thread)
      → 2 ^ 32 ≤ p.tmr_hz * s
      → p.tmr_hz * s < 2 ^ 62
      → n < 1000000000
      → nanosleep p (some (record { tv_sec = pos s; tv_nsec = pos n })) th ≡ (ok, th)
  unfolding nanosleep
  nanosleep-overflow s n th large small h =
      rw (validate-pos s n h, timespec2ticks-exact p s n 0 small h) (ground arith)

  -- However long the request, `usleep` returns 0 and sleeps for 4294 ticks at most; where the 32-bit
  -- product does not overflow, that is the requested time rounded down to whole ticks.
  pub usleep-le_4294 :
      (usec : ℕ) (th : Thread)
      → (k : ℕ) × (usleep p usec th ≡ (ok, task_sleep (some k) th))
        × (k ≤ 4294)
        × ((2 ^ 32 ≤ usec * p.tmr_hz)
            ⊎ ((k * 1000000 ≤ usec * p.tmr_hz) × (usec * p.tmr_hz < k * 1000000 + 1000000)))
  unfolding usleep
  usleep-le_4294 usec th =
      let k = usec * p.tmr_hz % 2 ^ 32 / 1000000 in
      (
        k,
        refl,
        omega arith,
        elim (Bool-cases (ltb (usec * p.tmr_hz) (2 ^ 32))) [
          | inl fits ↦ inr (ground (arith, fits), ground (arith, fits))
          | inr large ↦ inl (ground (arith, large))
        ],
      )
