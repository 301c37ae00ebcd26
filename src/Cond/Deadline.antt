-- ===== src/Cond/Deadline.antt =====
-- How long `pthread_cond_timedwait` of src/posix_pthread_cond.c waits, through the clock, the
-- conversions and the caller's mutex.
use libposix.Prelude.{
  ℕ, ◌+◌, ◌*◌, ◌/◌, ◌^◌, ◌≤◌, ◌<◌, ◌≡◌, refl, ◌⊎◌, inl, inr, some, false, ◌==◌, arith,
}
use libposix.Prelude.Int.{pos, pos_part, ◌<ℤ◌, ◌-ℤ◌}
use libposix.Prelude.Status.{ok, errnum, etimedout}
use libposix.Kernel.{Semaphores, Mutexes}
use libposix.Time.{Timespec, Platform, IsValid, nanos, nanoseconds_per_tick}
use libposix.Utils.Sub.{SecondsFit}
use libposix.Utils.Ticks.{ExactTick}
use libposix.Clock.Due.{elapsed, IsLeast, reaches}
use libposix.Mutex.{PthreadMutex, pthread_mutex_lock, pthread_mutex_unlock}
use libposix.Cond.{Cond, Others, cond_ticks, add_waiter, wait_for, pthread_cond_timedwait}

module _ (K : Semaphores) (M : Mutexes) where
  open K use {wait}

  -- Where a tick is a whole number of nanoseconds and the deadline is near enough for time_t and for
  -- an unsigned number of ticks, `pthread_cond_timedwait` with a valid deadline, by a thread whose
  -- mutex is unlocked without an error, returns ETIMEDOUT and changes nothing if the deadline is
  -- before the clock, and otherwise waits, counted and with the mutex unlocked, for the least number
  -- of ticks after which the clock is not before the deadline.
  pthread_cond_timedwait-IsLeast :
      (p : Platform) (now : ℕ)
      → now < 2 ^ 32
      → now * nanoseconds_per_tick p / 1000000000 ≤ p.time_max
      → ExactTick p
      → (t : Timespec) → IsValid t
      → SecondsFit p t (elapsed p now)
      → p.tmr_hz * pos_part (t.tv_sec -ℤ (elapsed p now).tv_sec) + p.tmr_hz < 2 ^ 32
      → (others : Others K M) (now' unset cur : ℕ) (c : Cond K M) (m : PthreadMutex M)
      → 0 < c.inited
      → (pthread_mutex_unlock M cur m).0 ≡ ok
      → let at = now * nanoseconds_per_tick p in
        let r = pthread_cond_timedwait K M p others now now' unset cur c m (some t) in
        ((nanos t <ℤ pos at) × (r ≡ (errnum etimedout, c, m)))
        ⊎ ((k : ℕ) × (r
              ≡ wait_for K M others k
                  (pthread_mutex_lock M p now' unset cur)
                  (add_waiter K M c, (pthread_mutex_unlock M cur m).1))
            × IsLeast p now t k)
  unfolding pthread_cond_timedwait cond_ticks
  pthread_cond_timedwait-IsLeast p now range fit exact t v near span others now' unset cur c m init
        unlocks =
      let there : (c.inited == 0) ≡ false = ground (arith, init) in
      elim (reaches p now range fit t v wait exact near span) [
        | inl (lt, d) ↦ inl (lt, rw (there, d.read, d.ticks) refl)
        | inr (k, d, least) ↦ inr (k, rw (there, d.read, d.ticks, unlocks) refl, least)
      ]
