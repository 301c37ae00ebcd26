-- ===== src/Pthread/Joining.antt =====
-- When `pthread_join` of src/posix_pthread.c returns, and with what.
use libposix.Prelude.{ℕ, ◌<◌, ◌≡◌, ◌≢◌, refl, none, some, true, false, [], ◌∷◌, arith}
use libposix.Prelude.Status.{ok, errnum, edeadlk}
use libposix.Kernel.{Semaphores, Mutexes}
use libposix.Attributes.{PthreadAttr, status_joinable}
use libposix.Pthread.{
  PthreadInternal, not_joined, new_thread, pthread_equal, pthread_join, finish_join, run_thread,
  exit_thread,
}

module _ (K : Semaphores) (M : Mutexes) where
  open K use {Sem, sem_get, wait}
  open M use {own, mut_lock}

  -- A joinable thread that nobody joins yet is joined by another thread.
  join_free :
      (task self a : ℕ) (t : PthreadInternal K M)
      → status_joinable t.attr.status ≡ true
      → own t.mux ≡ none
      → pthread_equal self a ≡ false
      → pthread_join K M task self a t
        ≡ finish_join K M a (record t { mux = (mut_lock task t.mux 0).1 })
  unfolding pthread_join
  join_free task self a t joinable free other =
      rw (joinable, M.lock-taken task t.mux 0 free, other) refl

  same_thread : (a : ℕ) → 0 < a → pthread_equal a a ≡ true
  unfolding pthread_equal
  same_thread a h = ground (arith, h)

  other_thread : (self a : ℕ) → self ≢ a → pthread_equal self a ≡ false
  unfolding pthread_equal
  other_thread self a other = ground (arith, other)

  -- A joinable thread that has just been created is joined by another thread at once: `pthread_join`
  -- does not wait, for the semaphore that it takes is above 0, returns 0, stores what the return
  -- value was before the start routine has run, and frees the thread's stack and structure.
  pthread_join-new_thread :
      (task self a stack : ℕ) (zero : PthreadInternal K M) (attr : PthreadAttr)
      → status_joinable attr.status ≡ true
      → self ≢ a
      → let t = new_thread K M zero attr stack in
        let r = pthread_join K M task self a t in
        ((sem_get t.barrier wait).0 ≡ true)
        × (r.result ≡ ok)
        × (r.value ≡ some zero.ret)
        × (r.freed ≡ stack ∷ a ∷ [])
  unfolding new_thread finish_join
  pthread_join-new_thread task self a stack zero attr joinable other =
      let made : PthreadInternal K M = record zero {
        attr = attr;
        stack = stack;
        barrier = K.sem_init 1;
        joined = K.sem_init 1;
        mux = M.mut_init;
      } in
      let e = join_free task self a made joinable M.own-mut_init (other_thread self a other) in
      rw joinable (
        rw e
          (K.get-taken (K.sem_init 1) wait (rw (K.val-sem_init 1) (omega arith)), refl, refl, refl))

  -- A joinable thread that nobody joins yet, and whose start routine returns `value`, frees nothing
  -- when it exits, and a `pthread_join` by another thread returns 0, stores the value, and frees the
  -- stack and the structure.
  pub pthread_join-run_thread :
      (task self a value : ℕ) (t : PthreadInternal K M)
      → status_joinable t.attr.status ≡ true
      → own t.mux ≡ none
      → self ≢ a
      → let ran = run_thread K M value a t in
        let r = pthread_join K M task self a ran.0 in
        (ran.1 ≡ []) × (r.result ≡ ok) × (r.value ≡ some value) × (r.freed ≡ t.stack ∷ a ∷ [])
  unfolding run_thread exit_thread finish_join
  pthread_join-run_thread task self a value t joinable free other =
      let over : PthreadInternal K M = record t {
        ret = value;
        barrier = K.sem_post t.barrier;
        joined = (sem_get t.joined wait).1;
      } in
      let e = join_free task self a over joinable free (other_thread self a other) in
      rw joinable (rw e (refl, refl, refl, refl))

  -- A joinable thread that nobody joins yet and that joins itself gets EDEADLK, but keeps the mutex
  -- that guards the join: after that `pthread_join` returns EDEADLK to every other task as well.
  pub pthread_join_self :
      (task task' self' a : ℕ) (t : PthreadInternal K M)
      → status_joinable t.attr.status ≡ true
      → own t.mux ≡ none
      → 0 < a
      → task ≢ task'
      → let r = pthread_join K M task a a t in
        (r.result ≡ errnum edeadlk)
        × (own r.thread.mux ≡ some task)
        × (pthread_join K M task' self' a r.thread ≡ not_joined K M r.thread)
  unfolding pthread_join
  pthread_join_self task task' self' a t joinable free h other =
      let same : pthread_equal a a ≡ true = same_thread a h in
      let held = M.lock-own task t.mux 0 free in
      rw (joinable, M.lock-taken task t.mux 0 free, same)
        (
          refl,
          held,
          rw joinable (rw (M.lock-no_wait task' task (mut_lock task t.mux 0).1 held other) refl),
        )
