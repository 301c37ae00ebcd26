-- ===== src/Cond/Schedule.antt =====
-- src/posix_pthread_cond.c with any number of threads. A call of `pthread_cond_timedwait` is cut where
-- another thread may come between: what stands between `mut_lock` and `mut_unlock` of the mutex inside
-- the condition variable is one move, and so are the unlocking of the caller's mutex and the wait for
-- the semaphore. The relocking of the caller's mutex leaves the condition variable as it is and is no
-- move. Where the outcome is not decided by the condition variable, a `Choice` is.
use libposix.Prelude.{ℕ, Option, none, some, or_else, ltb, if◌then◌else◌, List, ◌∷◌, ◌++◌, ◌≡◌}
use libposix.Prelude.Counting.{replicate}
use libposix.Kernel.{Semaphores, Mutexes}
use libposix.Cond.{
  Cond, add_waiter, drop_waiter, wake_one, pthread_cond_init, pthread_cond_broadcast,
}

-- How a call returns: having taken the semaphore, with ETIMEDOUT, or with the error of the unlocking.
pub data Outcome : Type 0 where
  woken : Outcome
  timed_out : Outcome
  refused : Outcome

-- Where a call is: before it counts itself, before it unlocks the mutex, waiting for the semaphore,
-- after a wait that timed out and before it takes itself off the count, or done.
pub data Sleeper : Type 0 where
  arriving : Sleeper
  counted : Sleeper
  asleep : Sleeper
  expired : Sleeper
  returned : Outcome → Sleeper

-- Whether the mutex is unlocked, and whether the wait for the semaphore, of a number of ticks, goes on
-- until it is posted.
pub data Choice : Type 0 where
  proceeds : ℕ → Choice
  gives_up : Choice

module _ (K : Semaphores) (M : Mutexes) where
  open K use {Sem, sem_get, val, wait}

  -- The next move of a call, if it can make that one. A wait ends without the semaphore only while
  -- the semaphore is at 0.
  unfoldable pub move : Choice → Cond K M → Sleeper → Option (Cond K M × Sleeper)
  move choice c arriving = some (add_waiter K M c, counted)
  move (proceeds ticks) c counted = some (c, asleep)
  move gives_up c counted = some (c, returned refused)
  move (proceeds ticks) c asleep =
      if ltb 0 (val c.cond)
      then some (record c { cond = (sem_get c.cond ticks).1 }, returned woken)
      else none
  move gives_up c asleep = if ltb 0 (val c.cond) then none else some (c, expired)
  move choice c expired = some (drop_waiter K M c, returned timed_out)
  move choice c (returned o) = none

  -- The condition variable and the calls of `pthread_cond_timedwait` on it, by any threads.
  pub record System : Type 0 where
    pub cond : Cond K M
    pub calls : List Sleeper

  -- Any one of the calls moves, or some thread signals or broadcasts. Of `pthread_cond_signal` the
  -- step is the section under the mutex.
  pub data Step : System → System → Type 0 where
    moves :
        (choice : Choice) (before after : List Sleeper) (c c' : Cond K M) (w w' : Sleeper)
        → move choice c w ≡ some (c', w')
        → Step
            (record { cond = c; calls = before ++ w ∷ after })
            (record { cond = c'; calls = before ++ w' ∷ after })
    signals : (s : System) → Step s (record s { cond = wake_one K M s.cond })
    broadcasts : (s : System) → Step s (record s { cond = (pthread_cond_broadcast K M s.cond).1 })

  pub data Reach (s : System) : System → Type 0 where
    start : Reach s s
    next : {t u : System} → Reach s t → Step t u → Reach s u

  -- A condition variable after `pthread_cond_init`, and `k` calls.
  abbrev pub fresh : ℕ → Cond K M → System
  fresh k old = record {
    cond = or_else (pthread_cond_init K M (some old)).1 old;
    calls = replicate k arriving;
  }
