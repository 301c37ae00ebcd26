-- ===== src/Pthread/Creating.antt =====
-- What `pthread_create` of src/posix_pthread.c gives back when it fails.
use libposix.Prelude.{
  ℕ, ◌≡◌, ◌⊎◌, inl, inr, refl, Option, none, some, or_else, Bool, true, false, List, [], ◌∷◌,
}
use libposix.Prelude.Int.{pos}
use libposix.Prelude.Status.{ok, errnum, eagain}
use libposix.Kernel.{Semaphores, Mutexes}
use libposix.Attributes.{PthreadAttr, default_attr, status_priority}
use libposix.Pthread.{PthreadInternal, new_thread, pthread_create}

-- The memory that the allocator hands out to a call: nothing without the hook, and a stack only after
-- the structure.
abbrev pub allocated : Bool → Option ℕ → Option ℕ → List ℕ
allocated false alloc alloc_stack = []
allocated true none alloc_stack = []
allocated true (some a) none = a ∷ []
allocated true (some a) (some stack) = stack ∷ a ∷ []

module _ (K : Semaphores) (M : Mutexes) where
  -- A call of `pthread_create` either returns EAGAIN, makes no thread and gives back all memory that
  -- it was handed, the stack first; or it returns 0 and gives back nothing, and the task of the new
  -- thread has the priority of the attributes, or of the default ones where none are given.
  pthread_create-allocated :
      (tpri_num : ℕ) (hook : Bool) (alloc alloc_stack : Option ℕ) (refused : Bool)
      (zero : PthreadInternal K M) (attr : Option PthreadAttr)
      → let c = pthread_create K M tpri_num hook alloc alloc_stack refused zero attr in
        ((c.result ≡ errnum eagain)
          × (c.thread ≡ none)
          × (c.freed ≡ allocated hook alloc alloc_stack))
        ⊎ ((c.result ≡ ok)
            × (c.freed ≡ [])
            × (a : ℕ) × (stack : ℕ) × (allocated hook alloc alloc_stack ≡ stack ∷ a ∷ [])
            × (c.thread
                ≡ some (
                  a,
                  pos (status_priority (or_else attr (default_attr tpri_num)).status),
                  new_thread K M zero (or_else attr (default_attr tpri_num)) stack,
                )))
  unfolding pthread_create
  pthread_create-allocated tpri_num false alloc alloc_stack refused zero attr =
      inl (refl, refl, refl)
  pthread_create-allocated tpri_num true none alloc_stack refused zero attr = inl (refl, refl, refl)
  pthread_create-allocated tpri_num true (some a) none refused zero attr = inl (refl, refl, refl)
  pthread_create-allocated tpri_num true (some a) (some stack) true zero attr =
      inl (refl, refl, refl)
  pthread_create-allocated tpri_num true (some a) (some stack) false zero attr =
      inr (refl, refl, a, stack, refl, refl)
