-- ===== src/Pthread/Counts.antt =====
-- src/posix_pthread.c: counting the calls of `pthread_join` on a thread by where they are, and the
-- invariant of its semaphores, its mutex and the memory that was given back.
use libposix.Prelude.{ℕ, ◌+◌, ◌<◌, ◌≡◌, ◌≢◌, none, some, true, length}
use libposix.Prelude.Counting.{total, weight_at}
use libposix.Prelude.Status.{ok}
use libposix.Kernel.{Semaphores, Mutexes}
use libposix.Attributes.{status_joinable}
use libposix.Pthread.Schedule.{
  Joiner, calling, locked, taken, posted, stackless, returned, Stage, waiting, freeing, ended,
  System,
}

-- A call that has taken `barrier`, and one that has posted `joined`; the latter two hold the mutex
-- before they unlock it.
abbrev pub is_passed : Joiner → ℕ
is_passed calling = 0
is_passed locked = 0
is_passed (returned ok v) = 1
is_passed (returned _ v) = 0
is_passed _ = 1

abbrev pub is_posted : Joiner → ℕ
is_posted taken = 0
is_posted w = is_passed w

abbrev pub is_inside : Joiner → ℕ
is_inside locked = 1
is_inside taken = 1
is_inside posted = 1
is_inside _ = 0

-- What a call has given back so far.
abbrev pub n_given : Joiner → ℕ
n_given (stackless v) = 1
n_given (returned ok v) = 2
n_given _ = 0

-- Whether the thread has posted `barrier`, and taken `joined`.
abbrev pub has_posted : Stage → ℕ
has_posted waiting = 1
has_posted ended = 1
has_posted _ = 0

abbrev pub has_ended : Stage → ℕ
has_ended ended = 1
has_ended _ = 0

module _ (K : Semaphores) (M : Mutexes) where
  open K use {val}
  open M use {own, mut_unlock}

  -- The mutex is free, or the one call between its lock and its unlock owns it.
  pub data IsGuarded (s : System K M) : Type 0 where
    free : own s.thread.mux ≡ none → total is_inside s.calls ≡ 0 → IsGuarded s
    held :
        (i : ℕ)
        → own s.thread.mux ≡ some i
        → own (mut_unlock s.thread.mux) ≡ none
        → 0 < weight_at is_inside s.calls i
        → total is_inside s.calls ≡ 1
        → IsGuarded s

  pub record IsGood (s : System K M) : Type 0 where
    pub joinable : status_joinable s.thread.attr.status ≡ true
    pub attached : s.stage ≢ freeing
    pub passes : total is_passed s.calls + val s.thread.barrier ≡ 1 + has_posted s.stage
    pub posts : val s.thread.joined + has_ended s.stage ≡ 1 + total is_posted s.calls
    pub gives : length s.freed ≡ total n_given s.calls
    pub guarded : IsGuarded s
