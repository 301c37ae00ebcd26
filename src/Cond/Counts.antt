-- ===== src/Cond/Counts.antt =====
-- src/posix_pthread_cond.c: counting the calls of `pthread_cond_timedwait` by where they are, and the
-- invariant of the number of waiting threads, the semaphore and those numbers.
use libposix.Prelude.{
  ℕ, ◌+◌, ◌%◌, ◌^◌, ◌<◌, ◌≡◌, refl, ◌⊎◌, inl, inr, ◌==◌, false, arith, Bool-cases,
}
use libposix.Prelude.Int.{
  pos, pos_part, neg_part, ltb_ℤ, uint32, uint32-add_one, uint32-sub_one, int32-add_one,
  int32-sub_one, uint32_fits,
}
use libposix.Prelude.Counting.{beside}
use libposix.Kernel.{Semaphores, Mutexes}
use libposix.Cond.{Cond, add_waiter, drop_waiter, wake_one, pthread_cond_broadcast}
use libposix.Cond.Schedule.{
  Sleeper, woken, timed_out, refused, arriving, counted, asleep, expired, returned,
}

-- A call that has counted itself, has not been taken off the count and has not used a post of the
-- semaphore; one that has not begun or is over; and one whose wait timed out or that could not unlock the mutex.
abbrev pub is_counted : Sleeper → ℕ
is_counted counted = 1
is_counted asleep = 1
is_counted expired = 1
is_counted (returned refused) = 1
is_counted _ = 0

abbrev pub is_done : Sleeper → ℕ
is_done arriving = 1
is_done (returned woken) = 1
is_done (returned timed_out) = 1
is_done _ = 0

abbrev pub is_troubled : Sleeper → ℕ
is_troubled expired = 1
is_troubled (returned timed_out) = 1
is_troubled (returned refused) = 1
is_troubled _ = 0

module _ (K : Semaphores) (M : Mutexes) (k : ℕ) where
  open K use {val, sem_get, sem_post, sem_post_n, wait}

  -- `n` gives the number of calls of each kind.
  pub record IsGood (c : Cond K M) (n : (Sleeper → ℕ) → ℕ) : Type 0 where
    pub set_up : 0 < c.inited
    pub every : n is_counted + n is_done ≡ k
    pub balance : (uint32 c.waiting + val c.cond) % 2 ^ 32 ≡ n is_counted % 2 ^ 32
    -- Without a call in trouble the two numbers are exact.
    pub calm :
        (0 < n is_troubled)
        ⊎ ((neg_part c.waiting ≡ 0) × (pos_part c.waiting + val c.cond ≡ n is_counted))

  pub arrive-IsGood :
      (c : Cond K M) (n : (Sleeper → ℕ) → ℕ)
      → k < 2 ^ 31
      → IsGood c (beside arriving n)
      → IsGood (add_waiter K M c) (beside counted n)
  arrive-IsGood c n range g = record {
    set_up = g.set_up;
    every = omega (arith, g.every);
    balance = omega (arith, g.balance, uint32-add_one c.waiting);
    calm = ground (arith, g.calm, g.every, range, int32-add_one c.waiting);
  }

  pub wake-IsGood :
      (c : Cond K M) (ticks : ℕ) (n : (Sleeper → ℕ) → ℕ)
      → 0 < val c.cond
      → IsGood c (beside asleep n)
      → IsGood (record c { cond = (sem_get c.cond ticks).1 }) (beside (returned woken) n)
  wake-IsGood c ticks n open_ g = record {
    set_up = g.set_up;
    every = omega (arith, g.every);
    balance = omega (arith, g.balance, K.get-val c.cond ticks open_);
    calm = ground (arith, g.calm, K.get-val c.cond ticks open_);
  }

  pub drop-IsGood :
      (c : Cond K M) (n : (Sleeper → ℕ) → ℕ)
      → IsGood c (beside expired n)
      → IsGood (drop_waiter K M c) (beside (returned timed_out) n)
  drop-IsGood c n g = record {
    set_up = g.set_up;
    every = omega (arith, g.every);
    balance = omega (arith, g.balance, uint32-sub_one c.waiting);
    calm = inl (omega arith);
  }

  pub expire-IsGood :
      (c : Cond K M) (n : (Sleeper → ℕ) → ℕ)
      → IsGood c (beside asleep n)
      → IsGood c (beside expired n)
  expire-IsGood c n g = record {
    set_up = g.set_up;
    every = omega (arith, g.every);
    balance = omega (arith, g.balance);
    calm = inl (omega arith);
  }

  pub refuse-IsGood :
      (c : Cond K M) (n : (Sleeper → ℕ) → ℕ)
      → IsGood c (beside counted n)
      → IsGood c (beside (returned refused) n)
  refuse-IsGood c n g = record {
    set_up = g.set_up;
    every = omega (arith, g.every);
    balance = omega (arith, g.balance);
    calm = inl (omega arith);
  }

  pub sleep-IsGood :
      (c : Cond K M) (n : (Sleeper → ℕ) → ℕ)
      → IsGood c (beside counted n)
      → IsGood c (beside asleep n)
  sleep-IsGood c n g = record {
    set_up = g.set_up;
    every = omega (arith, g.every);
    balance = omega (arith, g.balance);
    calm = ground (arith, g.calm);
  }

  pub wake_one-IsGood :
      (c : Cond K M) (n : (Sleeper → ℕ) → ℕ) → k < 2 ^ 31 → IsGood c n → IsGood (wake_one K M c) n
  unfolding wake_one
  wake_one-IsGood c n range g = elim (Bool-cases (ltb_ℤ (pos 0) c.waiting)) [
    | inl some_ ↦ rw some_ (record {
      set_up = g.set_up;
      every = g.every;
      balance = omega (arith, g.balance, uint32-sub_one c.waiting, K.val-sem_post c.cond);
      calm =
          ground
            (arith, g.calm, g.every, range, some_, int32-sub_one c.waiting, K.val-sem_post c.cond);
    })
    | inr none_ ↦ rw none_ g
  ]

  pub broadcast-IsGood :
      (c : Cond K M) (n : (Sleeper → ℕ) → ℕ)
      → k < 2 ^ 31
      → IsGood c n
      → IsGood (pthread_cond_broadcast K M c).1 n
  unfolding pthread_cond_broadcast
  broadcast-IsGood c n range g =
      let there : (c.inited == 0) ≡ false = ground (arith, g.set_up) in
      rw there (record {
        set_up = g.set_up;
        every = g.every;
        balance = omega (
          arith,
          g.balance,
          K.val-sem_post_n c.cond (uint32 c.waiting),
          uint32_fits (pos 0) refl (omega arith),
        );
        calm = ground (
          arith,
          g.calm,
          g.every,
          range,
          uint32_fits c.waiting,
          K.val-sem_post_n c.cond (uint32 c.waiting),
        );
      })
