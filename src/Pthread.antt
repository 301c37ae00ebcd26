-- ===== src/Pthread.antt =====
-- The threads of src/posix_pthread.c, with `pthread_internal_t` of include/hcos_types.h, over the
-- kernel's semaphores and mutexes. A thread is the address of its structure. The addresses that are
-- given to `hcos_posix_free` are part of the results, the first one first.
pub mod Creating
pub mod Joining
pub mod Lifetime
pub mod Schedule
pub mod Counts
pub mod Kept
pub mod Reached
pub mod Joins
pub mod Twice
pub mod Priorities
mod Examples
mod Interleavings
use libposix.Prelude.{
  ℕ, Option, none, some, or_else, Bool, true, false, not, ◌&&◌, ◌==◌, if◌then◌else◌, List, [], ◌∷◌,
}
use libposix.Prelude.Int.{ℤ, pos}
use libposix.Prelude.Status.{Errno, Ret, ok, fail, errnum, eagain, edeadlk, is_ok}
use libposix.Kernel.{Semaphores, Mutexes}
use libposix.Attributes.{
  PthreadAttr, default_attr, status_priority, status_joinable, pthread_attr_setschedparam,
}

-- 0 is NULL; any value but 0 is true.
unfoldable pub pthread_equal : ℕ → ℕ → Bool
pthread_equal t1 t2 = not (t1 == 0) && not (t2 == 0) && t1 == t2

module _ (K : Semaphores) (M : Mutexes) where
  open K use {Sem, sem_get, sem_post, sem_init as kernel_init, wait}
  open M use {Mut, mut_init, mut_lock, mut_unlock}

  -- The start routine and its argument are those of the call; `ret` is what the routine returned.
  pub record PthreadInternal : Type 0 where
    pub attr : PthreadAttr
    pub stack : ℕ
    pub barrier : Sem
    pub joined : Sem
    pub mux : Mut
    pub ret : ℕ

  -- What a call of `pthread_create` leaves: the new thread, its address and the priority of its task.
  pub record Created : Type 0 where
    pub result : Ret
    pub errno : Option Errno
    pub thread : Option (ℕ × ℤ × PthreadInternal)
    pub freed : List ℕ
    pub null_written : Bool

  abbrev pub not_created : Option Errno → List ℕ → Bool → Created
  not_created e freed null_written = record {
    result = errnum eagain;
    errno = e;
    thread = none;
    freed = freed;
    null_written = null_written;
  }

  -- The structure, cleared and then filled in: `zero` is what the objects of the kernel are like when
  -- all their bytes are 0.
  unfoldable pub new_thread : PthreadInternal → PthreadAttr → ℕ → PthreadInternal
  new_thread zero attr stack =
      if status_joinable attr.status
      then record zero {
        attr = attr;
        stack = stack;
        barrier = kernel_init 1;
        joined = kernel_init 1;
        mux = mut_init;
      }
      else record zero { attr = attr; stack = stack }

  -- `hook` says whether `hcos_posix_alloc` is set; `alloc` and `alloc_stack` are its results (`none` is
  -- NULL, to which `memset` writes before the test), and `refused` whether `task_init` fails.
  unfoldable pub pthread_create :
      ℕ
      → (hook : Bool) → (alloc alloc_stack : Option ℕ) → (refused : Bool) → PthreadInternal
      → Option PthreadAttr
      → Created
  pthread_create tpri_num false alloc alloc_stack refused zero attr =
      not_created (some eagain) [] false
  pthread_create tpri_num true none alloc_stack refused zero attr = not_created none [] true
  pthread_create tpri_num true (some a) none refused zero attr = not_created none (a ∷ []) false
  pthread_create tpri_num true (some a) (some stack) true zero attr =
      not_created none (stack ∷ a ∷ []) false
  pthread_create tpri_num true (some a) (some stack) false zero attr =
      let given = or_else attr (default_attr tpri_num) in
      record {
        result = ok;
        errno = none;
        thread = some (a, pos (status_priority given.status), new_thread zero given stack);
        freed = [];
        null_written = false;
      }

  unfoldable pub pthread_getschedparam : PthreadInternal → Ret × ℤ
  pthread_getschedparam t = (ok, pos (status_priority t.attr.status))

  -- `exit_thread` of the thread at `self`: the structure afterwards, and what is freed. For a
  -- joinable thread the call waits for `joined`.
  unfoldable pub exit_thread : ℕ → PthreadInternal → PthreadInternal × List ℕ
  exit_thread self t =
      if status_joinable t.attr.status
      then (record t { barrier = sem_post t.barrier; joined = (sem_get t.joined wait).1 }, [])
      else (t, t.stack ∷ self ∷ [])

  unfoldable pub pthread_exit : ℕ → ℕ → PthreadInternal → PthreadInternal × List ℕ
  unfolding exit_thread
  pthread_exit value self t = exit_thread self (record t { ret = value })

  -- `run_thread`, where the start routine returns `value`.
  unfoldable pub run_thread : ℕ → ℕ → PthreadInternal → PthreadInternal × List ℕ
  unfolding exit_thread
  run_thread value self t = exit_thread self (record t { ret = value })

  -- What a call of `pthread_join` leaves, with what it stores through `retval` if that is not NULL.
  pub record Joined : Type 0 where
    pub result : Ret
    pub thread : PthreadInternal
    pub value : Option ℕ
    pub freed : List ℕ

  abbrev pub not_joined : PthreadInternal → Joined
  not_joined t = record { result = errnum edeadlk; thread = t; value = none; freed = [] }

  -- The last part, where the joining thread waits for the other.
  unfoldable pub finish_join : ℕ → PthreadInternal → Joined
  finish_join a t = record {
    result = ok;
    thread = record t {
      barrier = (sem_get t.barrier wait).1;
      joined = sem_post t.joined;
      mux = mut_unlock t.mux;
    };
    value = some t.ret;
    freed = t.stack ∷ a ∷ [];
  }

  -- `task` is the calling task and `self` its thread, `pthread_self()`; WAIT_NO is 0.
  unfoldable pub pthread_join : (task self a : ℕ) → PthreadInternal → Joined
  pthread_join task self a t =
      let r = mut_lock task t.mux 0 in
      let locked = record t { mux = r.1 } in
      if not (status_joinable t.attr.status)
      then not_joined t
      else if not r.0
      then not_joined locked
      else if pthread_equal self a
      then not_joined locked
      else finish_join a locked

  -- The priority that `task_pri` is called with, if it is.
  unfoldable pub pthread_setschedparam :
      ℕ → PthreadInternal → Option ℤ → Ret × Option ℤ × PthreadInternal
  pthread_setschedparam tpri_num t param =
      let r = pthread_attr_setschedparam tpri_num t.attr param in
      (r.0, if is_ok r.0 then param else none, record t { attr = r.1 })
