-- ===== src/Cond/Waking.antt =====
-- How the number of waiting threads and the semaphore of src/posix_pthread_cond.c go together.
use libposix.Prelude.{ℕ, ◌+◌, ◌^◌, ◌<◌, ◌≡◌, refl, sym, ap, ◌∙◌, Option, false, ◌==◌, arith}
use libposix.Prelude.Int.{pos, negsuc, ◌+ℤ◌, ◌-ℤ◌, int32, uint32}
use libposix.Prelude.Status.{ok, errnum, eperm, etimedout}
use libposix.Kernel.{Semaphores, Mutexes}
use libposix.Time.{Timespec, Platform}
use libposix.Mutex.{PthreadMutex, pthread_mutex_lock, pthread_mutex_unlock}
use libposix.Cond.{
  cond_ticks, Cond, Others, wake_one, add_waiter, drop_waiter, wait_for, pthread_cond_signal,
  pthread_cond_broadcast, pthread_cond_timedwait,
}

module _ (K : Semaphores) (M : Mutexes) where
  open K use {Sem, sem_get, sem_post, sem_post_n, val, wait}

  -- The others signal once and leave the mutex alone.
  abbrev pub signalled : Others K M
  signalled = record { meanwhile = λ s. ((pthread_cond_signal K M s.0).1, s.1); between = λ c. c }

  -- The others signal once, after the wait has timed out and before it is counted.
  abbrev pub signalled_late : Others K M
  signalled_late = record { meanwhile = λ s. s; between = λ c. (pthread_cond_signal K M c).1 }

  add_waiter_lem :
      (c : Cond K M) (k : ℕ)
      → c.waiting ≡ pos k
      → k < 2 ^ 30
      → add_waiter K M c ≡ record c { waiting = pos (k + 1) }
  unfolding int32 ◌+ℤ◌
  add_waiter_lem c k e few = rw e (ground (arith, few))

  pub signal_lem :
      (c : Cond K M) (k : ℕ)
      → 0 < c.inited
      → c.waiting ≡ pos (k + 1)
      → k < 2 ^ 30
      → (pthread_cond_signal K M c).1 ≡ record c { cond = sem_post c.cond; waiting = pos k }
  unfolding pthread_cond_signal wake_one int32 ◌-ℤ◌
  signal_lem c k init e few = rw e (ground (arith, init, few))

  broadcast_lem :
      (c : Cond K M)
      → 0 < c.inited
      → c.waiting ≡ negsuc 0
      → (pthread_cond_broadcast K M c).1
        ≡ record c { cond = sem_post_n c.cond 4294967295; waiting = pos 0 }
  unfolding pthread_cond_broadcast uint32
  broadcast_lem c init e =
      let there : (c.inited == 0) ≡ false = ground (arith, init) in rw (e, there)

  module _ (p : Platform) (now now' unset cur : ℕ) (c : Cond K M) (m : PthreadMutex M)
      (abstime : Option Timespec) (init : 0 < c.inited)
      (due : (cond_ticks p now wait abstime).0 ≡ ok) where
    pub waits :
        (others : Others K M)
        → (pthread_mutex_unlock M cur m).0 ≡ ok
        → pthread_cond_timedwait K M p others now now' unset cur c m abstime
          ≡ wait_for K M others
              (cond_ticks p now wait abstime).1
              (pthread_mutex_lock M p now' unset cur)
              (add_waiter K M c, (pthread_mutex_unlock M cur m).1)
    unfolding pthread_cond_timedwait
    waits others unlocks =
        let there : (c.inited == 0) ≡ false = ground (arith, init) in rw (there, due, unlocks) refl

    pub counts :
        (others : Others K M) (k : ℕ)
        → c.waiting ≡ pos k
        → k < 2 ^ 30
        → (pthread_mutex_unlock M cur m).0 ≡ ok
        → pthread_cond_timedwait K M p others now now' unset cur c m abstime
          ≡ wait_for K M others
              (cond_ticks p now wait abstime).1
              (pthread_mutex_lock M p now' unset cur)
              (record c { waiting = pos (k + 1) }, (pthread_mutex_unlock M cur m).1)
    counts others k e few unlocks =
        waits others unlocks
        ∙ ap
            (λ d.
              wait_for K M others (cond_ticks p now wait abstime).1
                (pthread_mutex_lock M p now' unset cur) (d, (pthread_mutex_unlock M cur m).1))
            (add_waiter_lem c k e few)

    -- A thread that waits and is signalled once returns what the lock of its mutex returns, and
    -- leaves the number of waiting threads and the semaphore's value as they were.
    pthread_cond_timedwait-signalled :
        (k : ℕ)
        → c.waiting ≡ pos k
        → k < 2 ^ 30
        → (pthread_mutex_unlock M cur m).0 ≡ ok
        → let r = pthread_cond_timedwait K M p signalled now now' unset cur c m abstime in
          let locked = pthread_mutex_lock M p now' unset cur (pthread_mutex_unlock M cur m).1 in
          (r.0 ≡ locked.0)
          × (r.2 ≡ locked.1)
          × (r.1.waiting ≡ c.waiting)
          × (val r.1.cond ≡ val c.cond)
    unfolding wait_for
    pthread_cond_timedwait-signalled k e few unlocks =
        let ticks = (cond_ticks p now wait abstime).1 in
        let posted : 0 < val (sem_post c.cond) = omega (arith, K.val-sem_post c.cond) in
        rw (counts signalled k e few unlocks) (
          (rw (signal_lem (record c { waiting = pos (k + 1) }) k init refl few) (
            rw (K.get-taken (sem_post c.cond) ticks posted) (
              refl,
              refl,
              sym e,
              omega (arith, K.get-val (sem_post c.cond) ticks posted, K.val-sem_post c.cond),
            ))))

    -- Where the mutex is not unlocked, since another task owns it, the thread does not wait, but it
    -- stays counted as a waiting one.
    pthread_cond_timedwait-eperm :
        (k : ℕ)
        → c.waiting ≡ pos k
        → k < 2 ^ 30
        → (pthread_mutex_unlock M cur m).0 ≡ errnum eperm
        → (others : Others K M)
        → let r = pthread_cond_timedwait K M p others now now' unset cur c m abstime in
          (r.0 ≡ errnum eperm) × (r.1.waiting ≡ pos (k + 1)) × (r.1.cond ≡ c.cond)
    unfolding pthread_cond_timedwait
    pthread_cond_timedwait-eperm k e few unlocks others =
        let there : (c.inited == 0) ≡ false = ground (arith, init) in
        rw (there, due, unlocks) (refl, ap (λ d. d.waiting) (add_waiter_lem c k e few), refl)

    late_lem :
        c.waiting ≡ pos 0
        → (pthread_mutex_unlock M cur m).0 ≡ ok
        → sem_get c.cond (cond_ticks p now wait abstime).1 ≡ (false, c.cond)
        → pthread_cond_timedwait K M p signalled_late now now' unset cur c m abstime ≡ (
          errnum etimedout,
          drop_waiter K M (record c { cond = sem_post c.cond; waiting = pos 0 }),
          (pthread_mutex_lock M p now' unset cur (pthread_mutex_unlock M cur m).1).1,
        )
    unfolding wait_for
    late_lem e unlocks late =
        counts signalled_late 0 e (omega arith) unlocks
        ∙ rw late
            (rw (signal_lem (record c { waiting = pos (0 + 1) }) 0 init refl (omega arith)) refl)

    -- Where nobody else waits and the wait times out, a signal that comes before the thread is
    -- taken off the count posts the semaphore and makes the number of waiting threads -1, and the next
    -- broadcast asks the kernel to post the semaphore 4294967295 times, and makes the number 0.
    pub pthread_cond_timedwait-late :
        c.waiting ≡ pos 0
        → (pthread_mutex_unlock M cur m).0 ≡ ok
        → sem_get c.cond (cond_ticks p now wait abstime).1 ≡ (false, c.cond)
        → let r = pthread_cond_timedwait K M p signalled_late now now' unset cur c m abstime in
          (r.0 ≡ errnum etimedout)
          × (r.1.waiting ≡ negsuc 0)
          × (r.1.cond ≡ sem_post c.cond)
          × ((pthread_cond_broadcast K M r.1).1
              ≡ record c { cond = sem_post_n (sem_post c.cond) 4294967295; waiting = pos 0 })
    unfolding int32 ◌-ℤ◌
    pthread_cond_timedwait-late e unlocks late = rw (late_lem e unlocks late) (
      refl,
      refl,
      refl,
      broadcast_lem (record c { cond = sem_post c.cond; waiting = negsuc 0 }) init refl,
    )
