-- ===== src/Mutex/Deadline.antt =====
-- How long `pthread_mutex_timedlock` of src/posix_pthread_mutex.c waits, through the clock and the
-- conversions.
use libposix.Prelude.{
  ℕ, ◌+◌, ◌*◌, ◌/◌, ◌^◌, ◌≤◌, ◌<◌, ◌≡◌, ◌≢◌, ◌⊎◌, inl, inr, some, false, ◌==◌, arith,
}
use libposix.Prelude.Int.{pos, pos_part, ◌<ℤ◌, ◌-ℤ◌}
use libposix.Prelude.Status.{ok}
use libposix.Kernel.{Mutexes}
use libposix.Time.{Timespec, Platform, IsValid, nanos, nanoseconds_per_tick}
use libposix.Utils.Sub.{SecondsFit}
use libposix.Utils.Ticks.{ExactTick}
use libposix.Clock.Due.{elapsed, IsLeast, reaches}
use libposix.Mutex.{
  PthreadMutex, mutex_errorcheck, finish_lock, lock_ticks, pthread_mutex_timedlock,
}

module _ (K : Mutexes) where
  open K use {mut_lock}

  finish_lock_lem :
      (cur k : ℕ) (m : PthreadMutex K)
      → m.type ≢ mutex_errorcheck
      → finish_lock K cur m (ok, k) ≡ (ok, record m { mux = (mut_lock cur m.mux k).1 })
  unfolding finish_lock
  finish_lock_lem cur k m unchecked = ground (arith, unchecked)

  -- Where a tick is a whole number of nanoseconds and the deadline is near enough for time_t and for
  -- an unsigned number of ticks, `pthread_mutex_timedlock` with a valid deadline, on an initialised
  -- mutex that checks no errors, returns 0 and asks for the kernel's mutex once: with no wait if the
  -- deadline is before the clock, and otherwise with the least number of ticks after which the clock
  -- is not before the deadline.
  pthread_mutex_timedlock-IsLeast :
      (p : Platform) (now : ℕ)
      → now < 2 ^ 32
      → now * nanoseconds_per_tick p / 1000000000 ≤ p.time_max
      → ExactTick p
      → (t : Timespec) → IsValid t
      → SecondsFit p t (elapsed p now)
      → p.tmr_hz * pos_part (t.tv_sec -ℤ (elapsed p now).tv_sec) + p.tmr_hz < 2 ^ 32
      → (unset cur : ℕ) (m : PthreadMutex K) → 0 < m.inited
      → m.type ≢ mutex_errorcheck
      → let at = now * nanoseconds_per_tick p in
        let r = pthread_mutex_timedlock K p now unset cur m (some t) in
        ((nanos t <ℤ pos at) × (r ≡ (ok, record m { mux = (mut_lock cur m.mux 0).1 })))
        ⊎ ((k : ℕ) × (r ≡ (ok, record m { mux = (mut_lock cur m.mux k).1 })) × IsLeast p now t k)
  unfolding pthread_mutex_timedlock lock_ticks
  pthread_mutex_timedlock-IsLeast p now range fit exact t v near span unset cur m init unchecked =
      let there : (m.inited == 0) ≡ false = ground (arith, init) in
      elim (reaches p now range fit t v unset exact near span) [
        | inl (lt, c) ↦ inl (lt, rw (there, c.read, c.ticks) (finish_lock_lem cur 0 m unchecked))
        | inr (k, c, least) ↦
            inr (k, rw (there, c.read, c.ticks) (finish_lock_lem cur k m unchecked), least)
      ]
