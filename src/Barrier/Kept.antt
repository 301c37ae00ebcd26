-- ===== src/Barrier/Kept.antt =====
-- src/posix_pthread_barrier.c: the invariant and each move of a call of `pthread_barrier_wait`.
use libposix.Prelude.{ℕ, ◌+◌, ◌<◌, ◌≡◌, inl, inr, if◌then◌else◌, leb, arith, ◌==◌, Bool-cases}
use libposix.Prelude.Counting.{beside}
use libposix.Kernel.{Semaphores}
use libposix.Barrier.{Waiter, outside, counted, posting, waiting, returned, outcome, Barrier, enter}
use libposix.Barrier.Counts.{IsGood}

module _ (K : Semaphores) (count k : ℕ) where
  open K use {val, sem_get, sem_post_n, wait}

  -- One more call is counted.
  counted-IsGood :
      (b : Barrier K) (n : (Waiter → ℕ) → ℕ) (cur : ℕ)
      → IsGood K count k b (beside outside n)
      → b.cur_thread < b.threshold
      → cur ≡ b.cur_thread + 1
      → IsGood K count k (record b { cur_thread = cur }) (beside (counted cur) n)
  counted-IsGood b n cur g room e = record {
    range = g.range;
    fixed = g.fixed;
    le = omega (arith, room, e);
    all_counted = omega (arith, g.all_counted, e);
    parts = omega (arith, g.parts);
    every = omega (arith, g.every);
    away = ground (arith, g.away, room);
    early = ground (arith, g.early, room);
    woken = inr (inl (omega arith));
    none_first = inl (omega (arith, e));
    one_first = inr (ground (arith, g.none_first, g.one_first, e));
  }

  pub enter-IsGood :
      (b : Barrier K) (n : (Waiter → ℕ) → ℕ)
      → IsGood K count k b (beside outside n)
      → IsGood K count k (enter K b).0 (beside (enter K b).1 n)
  unfolding enter
  enter-IsGood b n g = elim (Bool-cases (leb b.threshold b.cur_thread)) [
    | inl full ↦ rw full (record {
      range = g.range;
      fixed = g.fixed;
      le = g.le;
      all_counted = g.all_counted;
      parts = g.parts;
      every = omega (arith, g.every);
      away = inr (ground (arith, g.le, full));
      early = g.early;
      woken = g.woken;
      none_first = g.none_first;
      one_first = g.one_first;
    })
    | inr room ↦
        rw room (counted-IsGood b n _ g (ground (arith, room)) (ground (arith, g.range, room)))
  ]

  pub test-IsGood :
      (b : Barrier K) (cur : ℕ) (n : (Waiter → ℕ) → ℕ)
      → IsGood K count k b (beside (counted cur) n)
      → IsGood K count k b
          (beside (if leb b.threshold b.cur_thread then posting cur else waiting cur) n)
  test-IsGood b cur n g = elim (Bool-cases (leb b.threshold b.cur_thread)) [
    | inl full ↦ rw full (record {
      range = g.range;
      fixed = g.fixed;
      le = g.le;
      all_counted = g.all_counted;
      parts = g.parts;
      every = omega (arith, g.every);
      away = ground (arith, g.away);
      early = ground (arith, g.le, full);
      woken = g.woken;
      none_first = g.none_first;
      one_first = g.one_first;
    })
    | inr room ↦ rw room (record {
      range = g.range;
      fixed = g.fixed;
      le = g.le;
      all_counted = g.all_counted;
      parts = ground (arith, g.parts);
      every = omega (arith, g.every);
      away = ground (arith, g.away);
      early = ground (arith, g.early);
      woken = ground (arith, room);
      none_first = g.none_first;
      one_first = g.one_first;
    })
  ]

  pub post-IsGood :
      (b : Barrier K) (cur : ℕ) (n : (Waiter → ℕ) → ℕ)
      → IsGood K count k b (beside (posting cur) n)
      → IsGood K count k (record b { sem = sem_post_n b.sem b.threshold }) (beside (waiting cur) n)
  post-IsGood b cur n g = record {
    range = g.range;
    fixed = g.fixed;
    le = g.le;
    all_counted = g.all_counted;
    parts = omega (arith, g.parts);
    every = omega (arith, g.every);
    away = ground (arith, g.away);
    early = inr (ground (arith, g.early));
    woken = inr (inr (omega (arith, K.val-sem_post_n b.sem b.threshold)));
    none_first = g.none_first;
    one_first = g.one_first;
  }

  pub pass-IsGood :
      (b : Barrier K) (cur : ℕ) (n : (Waiter → ℕ) → ℕ)
      → IsGood K count k b (beside (waiting cur) n)
      → 0 < val b.sem
      → IsGood K count k
          (record b { sem = (sem_get b.sem wait).1 })
          (beside (returned (outcome cur)) n)
  pass-IsGood b cur n g h = elim (Bool-cases (cur == 1)) [
    | inl first ↦ rw first (record {
      range = g.range;
      fixed = g.fixed;
      le = g.le;
      all_counted = g.all_counted;
      parts = omega (arith, g.parts);
      every = omega (arith, g.every);
      away = ground (arith, g.away);
      early = ground (arith, g.early, h);
      woken = ground (arith, g.woken, K.get-val b.sem wait h);
      none_first = ground (arith, g.none_first, first);
      one_first = ground (arith, g.one_first, first);
    })
    | inr other ↦ rw other (record {
      range = g.range;
      fixed = g.fixed;
      le = g.le;
      all_counted = g.all_counted;
      parts = omega (arith, g.parts);
      every = omega (arith, g.every);
      away = ground (arith, g.away);
      early = ground (arith, g.early, h);
      woken = ground (arith, g.woken, K.get-val b.sem wait h);
      none_first = ground (arith, g.none_first, other);
      one_first = ground (arith, g.one_first, other);
    })
  ]
