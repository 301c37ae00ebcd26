-- ===== src/Barrier/Counts.antt =====
-- src/posix_pthread_barrier.c: counting the calls of `pthread_barrier_wait` by where they are, and the
-- invariant of the barrier's counter, its semaphore and those numbers.
use libposix.Prelude.{ℕ, ◌+◌, ◌^◌, ◌≤◌, ◌<◌, ◌≡◌, ◌⊎◌, if◌then◌else◌, ◌==◌}
use libposix.Kernel.{Semaphores}
use libposix.Barrier.{
  serial_thread, zero_, invalid, Waiter, outside, counted, posting, waiting, returned, Barrier,
}

-- The calls that have not begun, that have returned EINVAL, that have been counted, that have not
-- tested the counter or not posted yet, that are about to post, that wait, that have passed, and
-- the one that was counted first.
abbrev pub is_outside : Waiter → ℕ
is_outside outside = 1
is_outside _ = 0

abbrev pub is_invalid : Waiter → ℕ
is_invalid (returned invalid) = 1
is_invalid _ = 0

abbrev pub is_counted : Waiter → ℕ
is_counted outside = 0
is_counted (returned invalid) = 0
is_counted _ = 1

abbrev pub is_pending : Waiter → ℕ
is_pending (counted cur) = 1
is_pending (posting cur) = 1
is_pending _ = 0

abbrev pub is_posting : Waiter → ℕ
is_posting (posting cur) = 1
is_posting _ = 0

abbrev pub is_waiting : Waiter → ℕ
is_waiting (waiting cur) = 1
is_waiting _ = 0

abbrev pub is_passed : Waiter → ℕ
is_passed (returned serial_thread) = 1
is_passed (returned zero_) = 1
is_passed _ = 0

abbrev pub first_of : ℕ → ℕ
first_of cur = if cur == 1 then 1 else 0

abbrev pub is_first : Waiter → ℕ
is_first outside = 0
is_first (counted cur) = first_of cur
is_first (posting cur) = first_of cur
is_first (waiting cur) = first_of cur
is_first (returned serial_thread) = 1
is_first (returned _) = 0

module _ (K : Semaphores) (count k : ℕ) where
  open K use {val, sem_get, sem_post_n, wait}

  -- `n` gives the number of calls of each kind.
  pub record IsGood (b : Barrier K) (n : (Waiter → ℕ) → ℕ) : Type 0 where
    pub range : b.threshold < 2 ^ 32
    pub fixed : b.threshold ≡ count
    pub le : b.cur_thread ≤ b.threshold
    pub all_counted : n is_counted ≡ b.cur_thread
    pub parts : n is_counted ≡ n is_pending + n is_waiting + n is_passed
    pub every : n is_outside + n is_invalid + n is_counted ≡ k
    -- A call is turned away only when the threshold is reached.
    pub away : (n is_invalid ≡ 0) ⊎ (b.cur_thread ≡ b.threshold)
    -- The semaphore is posted only when the threshold is reached.
    pub early : (val b.sem + n is_passed + n is_posting ≡ 0) ⊎ (b.cur_thread ≡ b.threshold)
    -- Once it is reached, some call is going to post or the semaphore has enough for all.
    pub woken :
        (b.cur_thread < b.threshold) ⊎ (0 < n is_pending) ⊎ (b.threshold ≤ val b.sem + n is_passed)
    pub none_first : (0 < b.cur_thread) ⊎ (n is_first ≡ 0)
    pub one_first : (b.cur_thread ≡ 0) ⊎ (n is_first ≡ 1)
