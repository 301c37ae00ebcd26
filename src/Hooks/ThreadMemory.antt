-- ===== src/Hooks/ThreadMemory.antt =====
-- src/posix_pthread.c with the memory of the application: a thread from its creation to its end.
use libposix.Prelude.{
  ℕ, ◌≡◌, ◌≢◌, refl, ◌⊎◌, inl, inr, Option, none, some, or_else, Bool, true, false, arith,
  Bool-cases,
}
use libposix.Prelude.Status.{ok}
use libposix.Prelude.Int.{pos}
use libposix.Kernel.{Semaphores, Mutexes}
use libposix.Attributes.{PthreadAttr, default_attr, status_priority, status_joinable}
use libposix.Pthread.{PthreadInternal, new_thread, run_thread, exit_thread, pthread_join}
use libposix.Pthread.Lifetime.{made_joinable, made_lem}
use libposix.Pthread.Joining.{pthread_join-run_thread}
use libposix.Hooks.{
  posix_thread, posix_stack, hcos_posix_init, create_thread, exit_memory, join_memory,
}
use libposix.Hooks.Memory.{
  Allocator, hooks, SameMemory, HasThread, two_back, create_thread-MakesThread,
}

module _ (A : Allocator) (K : Semaphores) (M : Mutexes) where
  open A use {W, free, holds}

  -- What becomes of the memory of a thread at `a` that ends: `before` is what it was without the
  -- thread, and `with_it` what it is when the thread ends.
  abbrev pub Ends : (value task self a : ℕ) → PthreadInternal K M → (before with_it : W) → Type 0
  Ends value task self a t before with_it =
      let ran = (run_thread K M value a t).0 in
      let left = exit_memory (hooks A) K M a t with_it in
      let r = pthread_join K M task self a ran in
      ((status_joinable t.attr.status ≡ false) × SameMemory A left before)
      ⊎ ((status_joinable t.attr.status ≡ true)
          × (left ≡ with_it)
          × (r.result ≡ ok)
          × (r.value ≡ some value)
          × SameMemory A (join_memory (hooks A) K M task self a ran left) before)

  detached-Ends :
      (value task self a stack : ℕ) (zero : PthreadInternal K M) (attr : PthreadAttr) (w w' : W)
      → status_joinable attr.status ≡ false
      → HasThread A w a stack w'
      → Ends value task self a (new_thread K M zero attr stack) w w'
  unfolding exit_memory new_thread hcos_posix_init
  detached-Ends value task self a stack zero attr w w' e h =
      rw e (inl (e, rw e (two_back A posix_thread posix_stack a stack w w' h)))

  exit_joinable :
      (a : ℕ) (t : PthreadInternal K M) (w : W)
      → status_joinable t.attr.status ≡ true
      → exit_memory (hooks A) K M a t w ≡ w
  unfolding exit_memory
  exit_joinable a t w e = rw e refl

  join_back :
      (task self a : ℕ) (t : PthreadInternal K M) (w : W)
      → (pthread_join K M task self a t).result ≡ ok
      → join_memory (hooks A) K M task self a t w ≡ free posix_thread a (free posix_stack t.stack w)
  unfolding join_memory hcos_posix_init
  join_back task self a t w e = rw e refl

  run_thread-stack :
      (value a : ℕ) (t : PthreadInternal K M) → (run_thread K M value a t).0.stack ≡ t.stack
  unfolding run_thread exit_thread
  run_thread-stack value a t = ground arith

  joinable-Ends :
      (value task self a stack : ℕ) (zero : PthreadInternal K M) (attr : PthreadAttr) (w w' : W)
      → status_joinable attr.status ≡ true
      → self ≢ a
      → HasThread A w a stack w'
      → Ends value task self a (new_thread K M zero attr stack) w w'
  joinable-Ends value task self a stack zero attr w w' e other h =
      let t = made_joinable K M zero attr stack in
      let ran = (run_thread K M value a t).0 in
      let joined = pthread_join-run_thread K M task self a value t e M.own-mut_init other in
      rw (made_lem K M zero attr stack e) (
        rw (exit_joinable a t w' e) (
          inr (
            e,
            refl,
            joined.1,
            joined.2,
            rw (join_back task self a ran w' joined.1, run_thread-stack value a t)
                (two_back A posix_thread posix_stack a stack w w' h),
          )))

  -- The application's functions are set by `hcos_posix_init`, and a thread of the library calls
  -- `pthread_create`. Either no thread is made, and the same stands at each address as before; or a
  -- structure and a stack are got, in memory that was free, and once the start routine has
  -- returned: a detached thread has given back both; and a joinable one has given back nothing, and a
  -- `pthread_join` by the calling thread returns 0, stores the routine's value and gives back
  -- both, so that in the end the same stands at each address as before.
  pub create_thread-Ends :
      (tpri_num size value task self : ℕ) (refused : Bool) (zero : PthreadInternal K M)
      (attr : Option PthreadAttr) (w : W)
      → holds w self ≡ some posix_thread
      → let given = or_else attr (default_attr tpri_num) in
        let c = create_thread (hooks A) K M tpri_num size refused zero attr w in
        ((c.0.thread ≡ none) × SameMemory A c.1 w)
        ⊎ ((a : ℕ) × (stack : ℕ) × (c.0.thread
              ≡ some (a, pos (status_priority given.status), new_thread K M zero given stack))
            × HasThread A w a stack c.1
            × Ends value task self a (new_thread K M zero given stack) w c.1)
  create_thread-Ends tpri_num size value task self refused zero attr w here =
      let given = or_else attr (default_attr tpri_num) in
      let c = create_thread (hooks A) K M tpri_num size refused zero attr w in
      elim (create_thread-MakesThread A K M tpri_num size refused zero attr w) [
        | inl failed ↦ inl failed
        | inr (a, stack, made, h) ↦
            let other : self ≢ a = λ same. ground (arith, same, here, h.free_a) in
            inr (
              a,
              stack,
              made,
              h,
              elim (Bool-cases (status_joinable given.status)) [
                | inl e ↦ joinable-Ends value task self a stack zero given w c.1 e other h
                | inr e ↦ detached-Ends value task self a stack zero given w c.1 e h
              ],
            )
      ]
