-- ===== src/Pthread/Lifetime.antt =====
-- A thread of src/posix_pthread.c from its creation to its end.
use libposix.Prelude.{
  ℕ, ◌≡◌, ◌≢◌, refl, ◌⊎◌, inl, inr, Option, some, or_else, true, false, [], ◌∷◌, Bool-cases,
}
use libposix.Prelude.Int.{pos}
use libposix.Prelude.Status.{ok}
use libposix.Kernel.{Semaphores, Mutexes}
use libposix.Attributes.{PthreadAttr, default_attr, status_priority, status_joinable}
use libposix.Pthread.{
  PthreadInternal, new_thread, pthread_create, run_thread, exit_thread, pthread_join,
}
use libposix.Pthread.Creating.{allocated}
use libposix.Pthread.Joining.{pthread_join-run_thread}

module _ (K : Semaphores) (M : Mutexes) where
  abbrev pub made_joinable : PthreadInternal K M → PthreadAttr → ℕ → PthreadInternal K M
  made_joinable zero attr stack = record zero {
    attr = attr;
    stack = stack;
    barrier = K.sem_init 1;
    joined = K.sem_init 1;
    mux = M.mut_init;
  }

  pub made_lem :
      (zero : PthreadInternal K M) (attr : PthreadAttr) (stack : ℕ)
      → status_joinable attr.status ≡ true
      → new_thread K M zero attr stack ≡ made_joinable zero attr stack
  unfolding new_thread
  made_lem zero attr stack e = rw e refl

  detached_lem :
      (value a : ℕ) (zero : PthreadInternal K M) (attr : PthreadAttr) (stack : ℕ)
      → status_joinable attr.status ≡ false
      → (run_thread K M value a (new_thread K M zero attr stack)).1 ≡ stack ∷ a ∷ []
  unfolding run_thread exit_thread new_thread
  detached_lem value a zero attr stack e = rw e (rw e refl)

  -- A thread that was created and whose start routine has returned: if its attributes are detached,
  -- it gives back all memory that `pthread_create` got for it when it exits; if they are joinable,
  -- it gives back none, and a `pthread_join` by another thread returns 0, stores the routine's
  -- value and gives back all of it.
  run_thread-pthread_create :
      (tpri_num a stack value task self : ℕ) (zero : PthreadInternal K M)
      (attr : Option PthreadAttr)
      → self ≢ a
      → let given = or_else attr (default_attr tpri_num) in
        let t = new_thread K M zero given stack in
        let ran = run_thread K M value a t in
        let r = pthread_join K M task self a ran.0 in
        let memory = allocated true (some a) (some stack) in
        ((pthread_create K M tpri_num true (some a) (some stack) false zero attr).thread
          ≡ some (a, pos (status_priority given.status), t))
        × (((status_joinable given.status ≡ false) × (ran.1 ≡ memory))
            ⊎ ((status_joinable given.status ≡ true)
                × (ran.1 ≡ [])
                × (r.result ≡ ok)
                × (r.value ≡ some value)
                × (r.freed ≡ memory)))
  unfolding pthread_create
  run_thread-pthread_create tpri_num a stack value task self zero attr other =
      let given = or_else attr (default_attr tpri_num) in
      elim (Bool-cases (status_joinable given.status)) [
        | inl joinable ↦
            let joined =
              pthread_join-run_thread K M task self a value (made_joinable zero given stack)
                joinable M.own-mut_init other in
            (
              refl,
              rw (made_lem zero given stack joinable)
                  (inr (joinable, joined.0, joined.1, joined.2, joined.3)),
            )
        | inr detached ↦ (refl, inl (detached, detached_lem value a zero given stack detached))
      ]
