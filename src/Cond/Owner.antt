-- ===== src/Cond/Owner.antt =====
-- src/posix_pthread_cond.c and src/posix_pthread_mutex.c together: who has the caller's mutex once the
-- wait has returned, whatever the others do with it meanwhile.
use libposix.Prelude.{
  ℕ, ◌<◌, ◌≡◌, ◌≢◌, refl, ◌⊎◌, inl, inr, none, some, Option, or_else, false, if◌then◌else◌, ◌==◌,
  arith, Bool-cases,
}
use libposix.Prelude.Status.{ok, errnum, etimedout}
use libposix.Kernel.{Semaphores, Mutexes}
use libposix.Time.{Timespec, Platform}
use libposix.Mutex.{
  PthreadMutex, is_owner, lock_ticks, finish_lock, pthread_mutex_lock, pthread_mutex_unlock,
}
use libposix.Cond.{Cond, Others, cond_ticks, wait_for, add_waiter, pthread_cond_timedwait}
use libposix.Cond.Waking.{waits}

module _ (K : Semaphores) (M : Mutexes) where
  open K use {sem_get, wait}
  open M use {own, mut_lock}

  -- The mutex can be locked without waiting: it is free, or it is another task's and the variable
  -- with no value of `pthread_mutex_timedlock` happens to hold 0.
  abbrev pub NoWait : (unset cur : ℕ) → PthreadMutex M → Type 0
  NoWait unset cur m =
      (own m.mux ≡ none) ⊎ ((unset ≡ 0) × (other : ℕ) × (own m.mux ≡ some other) × (other ≢ cur))

  no_deadlock :
      (unset cur : ℕ) (m : PthreadMutex M) → NoWait unset cur m → is_owner (own m.mux) cur ≡ false
  no_deadlock unset cur m (inl free) = rw free refl
  no_deadlock unset cur m (inr (_, other, held, ne)) = rw held (ground (arith, ne))

  lock_own :
      (unset cur : ℕ) (m : PthreadMutex M)
      → NoWait unset cur m
      → own (mut_lock cur m.mux unset).1 ≡ some (or_else (own m.mux) cur)
  lock_own unset cur m (inl free) = rw (M.lock-own cur m.mux unset free, free) refl
  lock_own unset cur m (inr (zero_, other, held, ne)) =
      rw (zero_, M.lock-no_wait cur other m.mux held ne) (rw held refl)

  relock :
      (p : Platform) (now unset cur : ℕ) (m : PthreadMutex M)
      → 0 < m.inited
      → NoWait unset cur m
      → pthread_mutex_lock M p now unset cur m
        ≡ (ok, record m { mux = (mut_lock cur m.mux unset).1 })
  unfolding pthread_mutex_lock lock_ticks finish_lock
  relock p now unset cur m init h =
      let there : (m.inited == 0) ≡ false = ground (arith, init) in
      let free = no_deadlock unset cur m h in ground (arith, there, free)

  -- `pthread_cond_timedwait` on an initialised condition variable, with a deadline that has not
  -- passed and a mutex that is unlocked without an error. What the others do meanwhile leaves the
  -- mutex initialised and either free or, where the variable with no value of
  -- `pthread_mutex_timedlock` happens to hold 0, with another task. The wait returns 0 if it got
  -- the semaphore and ETIMEDOUT if not; in either case the mutex is the caller's then if the
  -- others left it free, and otherwise it still is the other task's.
  pub pthread_cond_timedwait-owner :
      (p : Platform) (now now' unset cur : ℕ) (c : Cond K M) (m : PthreadMutex M)
      (abstime : Option Timespec) (others : Others K M)
      → 0 < c.inited
      → (cond_ticks p now wait abstime).0 ≡ ok
      → (pthread_mutex_unlock M cur m).0 ≡ ok
      → let left = others.meanwhile (add_waiter K M c, (pthread_mutex_unlock M cur m).1) in
        0 < left.1.inited
        → NoWait unset cur left.1
        → let r = pthread_cond_timedwait K M p others now now' unset cur c m abstime in
          let got = (sem_get left.0.cond (cond_ticks p now wait abstime).1).0 in
          (r.0 ≡ (if got then ok else errnum etimedout))
          × (own r.2.mux ≡ some (or_else (own left.1.mux) cur))
  unfolding wait_for
  pthread_cond_timedwait-owner p now now' unset cur c m abstime others init due unlocks minit h =
      let left = others.meanwhile (add_waiter K M c, (pthread_mutex_unlock M cur m).1) in
      let ticks = (cond_ticks p now wait abstime).1 in
      let again = relock p now' unset cur left.1 minit h in
      let owner = lock_own unset cur left.1 h in
      rw (waits K M p now now' unset cur c m abstime init due others unlocks)
        (elim (Bool-cases (sem_get left.0.cond ticks).0) [
          | inl got ↦ rw (again, got) (refl, owner)
          | inr late ↦ rw (again, late) (refl, owner)
        ])
