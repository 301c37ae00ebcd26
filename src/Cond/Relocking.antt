-- ===== src/Cond/Relocking.antt =====
-- src/posix_pthread_cond.c and src/posix_pthread_mutex.c together: who has the mutex when the wait
-- returns.
use libposix.Prelude.{ℕ, ◌+◌, ◌^◌, ◌<◌, ◌≡◌, ◌≢◌, refl, none, some, Option, ap, arith}
use libposix.Prelude.Int.{pos}
use libposix.Prelude.Status.{ok}
use libposix.Kernel.{Semaphores, Mutexes}
use libposix.Time.{Timespec, Platform}
use libposix.Mutex.{
  PthreadMutex, mutex_normal, lock_ticks, finish_lock, pthread_mutex_lock, pthread_mutex_unlock,
}
use libposix.Cond.{Cond, Others, cond_ticks, wait_for, pthread_cond_signal, pthread_cond_timedwait}
use libposix.Cond.Waking.{signal_lem, counts}

module _ (K : Semaphores) (M : Mutexes) where
  open K use {Sem, sem_get, sem_post, val, wait}
  open M use {own, mut_lock, mut_unlock}

  -- Another task signals once and takes the mutex.
  abbrev pub taken_by : ℕ → Others K M
  taken_by other = record {
    meanwhile =
        λ s. ((pthread_cond_signal K M s.0).1, record s.1 { mux = (mut_lock other s.1.mux 0).1 });
    between = λ c. c;
  }

  unlock_normal :
      (cur : ℕ) (m : PthreadMutex M)
      → 0 < m.inited
      → m.type ≡ mutex_normal
      → pthread_mutex_unlock M cur m ≡ (ok, record m { mux = mut_unlock m.mux })
  unfolding pthread_mutex_unlock
  unlock_normal cur m init normal = ground (arith, init, normal)

  lock_normal :
      (p : Platform) (now cur other : ℕ) (m : PthreadMutex M)
      → 0 < m.inited
      → m.type ≡ mutex_normal
      → own m.mux ≡ some other
      → other ≢ cur
      → pthread_mutex_lock M p now 0 cur m ≡ (ok, m)
  unfolding pthread_mutex_lock lock_ticks finish_lock
  lock_normal p now cur other m init normal held ne =
      rw (M.lock-no_wait cur other m.mux held ne) (ground (arith, init, normal))

  -- A thread waits with an initialised normal mutex, which is free once the thread has unlocked it,
  -- and while it waits another task signals and takes the mutex. Where the variable with no value of
  -- `pthread_mutex_timedlock` happens to hold 0, the wait returns 0 and the other task has the mutex.
  pthread_cond_timedwait-unheld :
      (p : Platform) (now now' cur other : ℕ) (c : Cond K M) (m : PthreadMutex M)
      (abstime : Option Timespec)
      → 0 < c.inited
      → (cond_ticks p now wait abstime).0 ≡ ok
      → (k : ℕ) → c.waiting ≡ pos k
      → k < 2 ^ 30
      → 0 < m.inited
      → m.type ≡ mutex_normal
      → own (mut_unlock m.mux) ≡ none
      → other ≢ cur
      → let r = pthread_cond_timedwait K M p (taken_by other) now now' 0 cur c m abstime in
        (r.0 ≡ ok) × (own r.2.mux ≡ some other)
  unfolding wait_for
  pthread_cond_timedwait-unheld p now now' cur other c m abstime init due k e few minit normal free
        ne =
      let unlocked = unlock_normal cur m minit normal in
      let took : PthreadMutex M = record m { mux = (mut_lock other (mut_unlock m.mux) 0).1 } in
      let ticks = (cond_ticks p now wait abstime).1 in
      let posted : 0 < val (sem_post c.cond) = omega (arith, K.val-sem_post c.cond) in
      let held = M.lock-own other (mut_unlock m.mux) 0 free in
      rw
        (counts K M p now now' 0 cur c m abstime init due (taken_by other) k e few
          (ap (λ r. r.0) unlocked))
        (rw unlocked (
          rw (signal_lem K M (record c { waiting = pos (k + 1) }) k init refl few) (
            rw
              (
                K.get-taken (sem_post c.cond) ticks posted,
                lock_normal p now' cur other took minit normal held ne,
              )
              (refl, held))))
