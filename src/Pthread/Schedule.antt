-- ===== src/Pthread/Schedule.antt =====
-- src/posix_pthread.c: the end of a thread, and any number of calls of `pthread_join` on it by other
-- threads, which interleave in any order. `exit_thread` and `pthread_join` are cut at each call of the
-- kernel, of the allocator, and at each access of the return value. Memory that was given back keeps
-- what it holds, as long as the allocator hands it out to nobody.
use libposix.Prelude.{
  ℕ, Option, none, some, not, ltb, if◌then◌else◌, List, [], ◌∷◌, ◌++◌, ◌≡◌, get_elem?, set,
}
use libposix.Prelude.Counting.{replicate}
use libposix.Prelude.Status.{Ret, ok, errnum, edeadlk}
use libposix.Kernel.{Semaphores, Mutexes}
use libposix.Attributes.{PthreadAttr, status_joinable}
use libposix.Pthread.{PthreadInternal, pthread_equal, new_thread}

-- Where a call of `pthread_join` is: before it locks the mutex, before it takes `barrier`, posts
-- `joined`, unlocks the mutex, reads the return value, gives back the stack, and the structure; or
-- returned, with its result and the value that it stored.
pub data Joiner : Type 0 where
  calling : Joiner
  locked : Joiner
  taken : Joiner
  posted : Joiner
  unlocked : Joiner
  stored : ℕ → Joiner
  stackless : ℕ → Joiner
  returned : Ret → Option ℕ → Joiner

-- Where the thread is: in its start routine, in `exit_thread`, waiting there for `joined`, between the
-- two calls that give back the memory of a detached thread, or at its end.
pub data Stage : Type 0 where
  running : Stage
  exiting : Stage
  waiting : Stage
  freeing : Stage
  ended : Stage

module _ (K : Semaphores) (M : Mutexes) where
  open K use {val, sem_get, sem_post, wait}
  open M use {mut_lock, mut_unlock}

  -- The next move of a call by `task`, whose thread is `self`, if it can make one: the thread that is
  -- joined, what the move gives back, and where the call is then.
  unfoldable pub join_move :
      (task self a : ℕ)
      → PthreadInternal K M
      → Joiner
      → Option (PthreadInternal K M × List ℕ × Joiner)
  join_move task self a t calling =
      let r = mut_lock task t.mux 0 in
      if not (status_joinable t.attr.status)
      then some (t, [], returned (errnum edeadlk) none)
      else if not r.0
      then some (record t { mux = r.1 }, [], returned (errnum edeadlk) none)
      else if pthread_equal self a
      then some (record t { mux = r.1 }, [], returned (errnum edeadlk) none)
      else some (record t { mux = r.1 }, [], locked)
  join_move task self a t locked =
      if ltb 0 (val t.barrier)
      then some (record t { barrier = (sem_get t.barrier wait).1 }, [], taken)
      else none
  join_move task self a t taken = some (record t { joined = sem_post t.joined }, [], posted)
  join_move task self a t posted = some (record t { mux = mut_unlock t.mux }, [], unlocked)
  join_move task self a t unlocked = some (t, [], stored t.ret)
  join_move task self a t (stored v) = some (t, t.stack ∷ [], stackless v)
  join_move task self a t (stackless v) = some (t, a ∷ [], returned ok (some v))
  join_move task self a t (returned r v) = none

  -- The next move of the thread at `a` itself, whose start routine returns `value`.
  unfoldable pub exit_move :
      (value a : ℕ) → PthreadInternal K M → Stage → Option (PthreadInternal K M × List ℕ × Stage)
  exit_move value a t running = some (record t { ret = value }, [], exiting)
  exit_move value a t exiting =
      if status_joinable t.attr.status
      then some (record t { barrier = sem_post t.barrier }, [], waiting)
      else some (t, t.stack ∷ [], freeing)
  exit_move value a t waiting =
      if ltb 0 (val t.joined)
      then some (record t { joined = (sem_get t.joined wait).1 }, [], ended)
      else none
  exit_move value a t freeing = some (t, a ∷ [], ended)
  exit_move value a t ended = none

  -- The thread, the memory that was given back so far, the first first, and the calls.
  pub record System : Type 0 where
    pub thread : PthreadInternal K M
    pub freed : List ℕ
    pub stage : Stage
    pub calls : List Joiner

  -- A system once the `i`-th call, or the thread itself, has moved.
  abbrev pub after_join : System → ℕ → PthreadInternal K M × List ℕ × Joiner → System
  after_join s i (t, f, w) = record {
    thread = t;
    freed = s.freed ++ f;
    stage = s.stage;
    calls = set s.calls i w;
  }

  abbrev pub after_exit : System → PthreadInternal K M × List ℕ × Stage → System
  after_exit s (t, f, g) = record { thread = t; freed = s.freed ++ f; stage = g; calls = s.calls }

  -- The `i`-th call is made by the task `i`, in the thread `self i`.
  module _ (a : ℕ) (self : ℕ → ℕ) where
    pub data Step : System → System → Type 0 where
      joins :
          (s : System) (i : ℕ) (w : Joiner) (r : PthreadInternal K M × List ℕ × Joiner)
          → get_elem? s.calls i ≡ some w
          → join_move i (self i) a s.thread w ≡ some r
          → Step s (after_join s i r)
      exits :
          (s : System) (value : ℕ) (r : PthreadInternal K M × List ℕ × Stage)
          → exit_move value a s.thread s.stage ≡ some r
          → Step s (after_exit s r)

    pub data Reach (s : System) : System → Type 0 where
      start : Reach s s
      next : {t u : System} → Reach s t → Step t u → Reach s u

  -- A thread that was just created, and `k` calls.
  abbrev pub fresh : ℕ → PthreadInternal K M → PthreadAttr → ℕ → System
  fresh k zero attr stack = record {
    thread = new_thread K M zero attr stack;
    freed = [];
    stage = running;
    calls = replicate k calling;
  }
