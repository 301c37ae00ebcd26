-- ===== src/Semaphore/Waiting.antt =====
-- When the waiting functions of src/posix_semaphore.c take the semaphore, and what they report.
use libposix.Prelude.{
  inl, inr, ℕ, suc, ◌*◌, ◌/◌, ◌^◌, ◌≤◌, ◌<◌, ◌≡◌, refl, Option, some, Bool, true, false, arith,
}
use libposix.Prelude.Int.{pos, ◌<ℤ◌}
use libposix.Prelude.Status.{Ret, ok, fail, errnum, einval, etimedout, eagain}
use libposix.Kernel.{Semaphores}
use libposix.Time.{IsValid, nanos, Timespec, Platform, nanoseconds_per_tick}
use libposix.Utils.{validate_timespec}
use libposix.Clock.Due.{IsValid-validate, zero_is_due, past, at_once}
use libposix.Clock.{zero_time, Thread, set_errno}
use libposix.Semaphore.{finish_wait, wait_ticks, sem_timedwait, sem_trywait}

-- What `sem_timedwait` hands to `sem_get` for a deadline that has passed, and for one that is now.
module _ (p : Platform) (now wait : ℕ) (range : now < 2 ^ 32)
    (fit : now * nanoseconds_per_tick p / 1000000000 ≤ p.time_max) where
  wait_past :
      (t : Timespec)
      → IsValid t
      → nanos t <ℤ pos (now * nanoseconds_per_tick p)
      → wait_ticks p now wait (some t) ≡ (0, errnum etimedout)
  unfolding wait_ticks
  wait_past t v lt =
      let c = past p now range fit t v wait lt in rw (IsValid-validate t v, c.read, c.ticks)

  wait_now :
      (t : Timespec)
      → IsValid t
      → nanos t ≡ pos (now * nanoseconds_per_tick p)
      → wait_ticks p now wait (some t) ≡ (0, ok)
  unfolding wait_ticks
  wait_now t v same =
      let c = at_once p now range fit t v wait same in rw (IsValid-validate t v, c.read, c.ticks)

module _ (K : Semaphores) where
  open K use {Sem, sem_get, val}

  taken_lem :
      (ret : Ret) (r : Bool × Sem) (th : Thread)
      → r.0 ≡ true
      → finish_wait K ret r th ≡ (ok, th, r.1)
  unfolding finish_wait
  taken_lem ret (true, s) th e = refl
  taken_lem ret (false, s) th e = cc

  -- A semaphore above 0 is taken whatever the deadline, an invalid one or one in the past included:
  -- `sem_timedwait` returns 0, takes one from the value and leaves errno alone.
  pub sem_timedwait-available :
      (p : Platform) (now : ℕ) (s : Sem) (abstime : Option Timespec) (th : Thread)
      → 0 < val s
      → (s' : Sem) × (sem_timedwait K p now s abstime th ≡ (ok, th, s')) × (suc (val s') ≡ val s)
  unfolding sem_timedwait
  sem_timedwait-available p now s abstime th h =
      (_, taken_lem _ _ th (K.get-taken s _ h), K.get-val s _ h)

  -- A semaphore at 0 with an invalid deadline is not waited for: `sem_timedwait` returns -1 with
  -- errno EINVAL and leaves the semaphore alone.
  pub sem_timedwait-invalid :
      (p : Platform) (now : ℕ) (s : Sem) (t : Timespec) (th : Thread)
      → val s ≡ 0
      → validate_timespec (some t) ≡ false
      → sem_timedwait K p now s (some t) th ≡ (fail, set_errno einval th, s)
  unfolding sem_timedwait finish_wait wait_ticks
  sem_timedwait-invalid p now s t th h bad = rw bad (rw (K.get-no_wait s h))

  -- A semaphore at 0 with a valid deadline in the past is not waited for: `sem_timedwait` returns -1
  -- with errno ETIMEDOUT and leaves the semaphore alone.
  pub sem_timedwait-past :
      (p : Platform) (now : ℕ) (s : Sem) (t : Timespec) (th : Thread)
      → now < 2 ^ 32
      → now * nanoseconds_per_tick p / 1000000000 ≤ p.time_max
      → val s ≡ 0
      → IsValid t
      → nanos t <ℤ pos (now * nanoseconds_per_tick p)
      → sem_timedwait K p now s (some t) th ≡ (fail, set_errno etimedout th, s)
  unfolding sem_timedwait finish_wait
  sem_timedwait-past p now s t th range fit h v lt =
      rw (wait_past p now K.wait range fit t v lt) (rw (K.get-no_wait s h))

  -- `sem_trywait` on a semaphore at 0 returns -1 with errno EAGAIN and leaves it alone, at every
  -- time of the clock.
  pub sem_trywait-empty :
      (p : Platform) (now : ℕ) (s : Sem) (th : Thread)
      → now < 2 ^ 32
      → now * nanoseconds_per_tick p / 1000000000 ≤ p.time_max
      → val s ≡ 0
      → sem_trywait K p now s th ≡ (fail, set_errno eagain th, s)
  unfolding sem_trywait finish_wait
  sem_trywait-empty p now s th range fit h = elim (zero_is_due p now) [
    | inl lt ↦
        rw (wait_past p now K.wait range fit zero_time (omega arith) lt) (rw (K.get-no_wait s h))
    | inr same ↦
        rw (wait_now p now K.wait range fit zero_time (omega arith) same) (rw (K.get-no_wait s h))
  ]
