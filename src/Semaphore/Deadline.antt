-- ===== src/Semaphore/Deadline.antt =====
-- How long `sem_timedwait` of src/posix_semaphore.c waits, through the clock and the conversions.
use libposix.Prelude.{ℕ, ◌+◌, ◌*◌, ◌/◌, ◌^◌, ◌≤◌, ◌<◌, ◌≡◌, refl, ◌⊎◌, inl, inr, some}
use libposix.Prelude.Int.{pos, pos_part, ◌<ℤ◌, ◌-ℤ◌}
use libposix.Prelude.Status.{ok, errnum, etimedout}
use libposix.Kernel.{Semaphores}
use libposix.Time.{Timespec, Platform, IsValid, nanos, nanoseconds_per_tick}
use libposix.Utils.Sub.{SecondsFit}
use libposix.Utils.Ticks.{ExactTick}
use libposix.Clock.{Thread}
use libposix.Clock.Due.{IsValid-validate, elapsed, IsLeast, reaches}
use libposix.Semaphore.{finish_wait, wait_ticks, sem_timedwait}

module _ (K : Semaphores) where
  open K use {Sem, sem_get, wait}

  -- Where a tick is a whole number of nanoseconds and the deadline is near enough for time_t and for
  -- an unsigned number of ticks, `sem_timedwait` with a valid deadline asks the kernel's semaphore
  -- once: with no wait and ETIMEDOUT as the error if the deadline is before the clock, and otherwise
  -- with the least number of ticks after which the clock is not before the deadline.
  pub sem_timedwait-IsLeast :
      (p : Platform) (now : ℕ)
      → now < 2 ^ 32
      → now * nanoseconds_per_tick p / 1000000000 ≤ p.time_max
      → ExactTick p
      → (t : Timespec) → IsValid t
      → SecondsFit p t (elapsed p now)
      → p.tmr_hz * pos_part (t.tv_sec -ℤ (elapsed p now).tv_sec) + p.tmr_hz < 2 ^ 32
      → (s : Sem) (th : Thread)
      → let at = now * nanoseconds_per_tick p in
        ((nanos t <ℤ pos at)
          × (sem_timedwait K p now s (some t) th
              ≡ finish_wait K (errnum etimedout) (sem_get s 0) th))
        ⊎ ((k : ℕ) × (sem_timedwait K p now s (some t) th ≡ finish_wait K ok (sem_get s k) th)
            × IsLeast p now t k)
  unfolding sem_timedwait wait_ticks
  sem_timedwait-IsLeast p now range fit exact t v near span s th =
      elim (reaches p now range fit t v wait exact near span) [
        | inl (lt, c) ↦ inl (lt, rw (IsValid-validate t v, c.read, c.ticks) refl)
        | inr (k, c, least) ↦ inr (k, rw (IsValid-validate t v, c.read, c.ticks) refl, least)
      ]
