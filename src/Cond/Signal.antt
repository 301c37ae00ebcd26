-- ===== src/Cond/Signal.antt =====
-- src/posix_pthread_cond.c: what a signal lets the calls of the wait do.
use libposix.Prelude.{ℕ, zero, suc, ◌+◌, ◌^◌, ◌<◌, ◌≡◌, refl, false, true, arith, ◌==◌}
use libposix.Prelude.Int.{pos, ltb_ℤ, int32, ◌-ℤ◌}
use libposix.Prelude.Status.{Ret, ok}
use libposix.Prelude.Counting.{total}
use libposix.Kernel.{Semaphores, Mutexes}
use libposix.Cond.{Cond, wake_one, pthread_cond_signal}
use libposix.Cond.Schedule.{System, Step, Reach, fresh}
use libposix.Cond.Counts.{is_counted, is_troubled}
use libposix.Cond.Balance.{fresh-IsGood, Reach-IsGood, Reach-exact}
use libposix.Cond.Broadcast.{is_asleep, is_woken, Woken, wake_some, total_asleep-le}

count_down : (w : ℕ) → suc w < 2 ^ 31 → int32 (pos (suc w) -ℤ pos 1) ≡ pos w
unfolding int32 ◌-ℤ◌
count_down w few = ground (arith, few)

module _ (K : Semaphores) (M : Mutexes) where
  open K use {val, sem_post}

  -- With somebody on the count a signal posts the semaphore once, and with nobody it does nothing.
  signal_some :
      (c : Cond K M) (w : ℕ)
      → 0 < c.inited
      → c.waiting ≡ pos (suc w)
      → suc w < 2 ^ 31
      → pthread_cond_signal K M c ≡ (ok, record c { cond = sem_post c.cond; waiting = pos w })
  unfolding pthread_cond_signal wake_one
  signal_some c w init e few =
      let there : (c.inited == 0) ≡ false = ground (arith, init) in
      let some_ : ltb_ℤ (pos 0) (pos (suc w)) ≡ true = ground arith in
      rw (there, e, some_) (rw (count_down w few) refl)

  signal_none :
      (c : Cond K M) → 0 < c.inited → c.waiting ≡ pos 0 → pthread_cond_signal K M c ≡ (ok, c)
  unfolding pthread_cond_signal
  signal_none c init e =
      let there : (c.inited == 0) ≡ false = ground (arith, init) in
      let none_ : ltb_ℤ (pos 0) c.waiting ≡ false = rw e refl in rw (there, none_) refl

  -- A signal, and a move that it allows.
  record Signalled (t : System K M) (r : Ret × Cond K M) : Type 0 where
    pub result : r.0 ≡ ok
    pub kept : (w : ℕ) × (r.1.waiting ≡ pos w) × (w + val r.1.cond ≡ total is_counted t.calls)
    pub wakes : Woken K M (record t { cond = r.1 })

  signalled :
      (t : System K M) (w : ℕ)
      → 0 < t.cond.inited
      → t.cond.waiting ≡ pos w
      → w < 2 ^ 31
      → w + val t.cond.cond ≡ total is_counted t.calls
      → 0 < total is_asleep t.calls
      → Signalled t (pthread_cond_signal K M t.cond)
  signalled t zero init e few sum_ h = rw (signal_none t.cond init e) (record {
    result = refl;
    kept = (0, e, sum_);
    wakes = wake_some K M t.cond t.calls h (omega (arith, sum_, h, total_asleep-le t.calls));
  })
  signalled t (suc w) init e few sum_ h =
      let c : Cond K M = record t.cond { cond = sem_post t.cond.cond; waiting = pos w } in
      rw (signal_some t.cond w init e few) (record {
        result = refl;
        kept = (w, refl, omega (arith, sum_, K.val-sem_post t.cond.cond));
        wakes = wake_some K M c t.calls h (omega (arith, K.val-sem_post t.cond.cond));
      })

  -- From `pthread_cond_init`, in any interleaving of fewer than 2 ^ 31 calls in which no wait has
  -- timed out and no unlocking has failed, while some call sleeps: a signal returns 0, the number of
  -- waiting threads and the semaphore's value together stay the number of calls that are counted,
  -- and a sleeping call can move then and is woken, one alone, for one post of the semaphore.
  pub Reach-signal :
      (k : ℕ)
      → k < 2 ^ 31
      → (old : Cond K M) (t : System K M) → Reach K M (fresh K M k old) t
      → total is_troubled t.calls ≡ 0
      → 0 < total is_asleep t.calls
      → let r = pthread_cond_signal K M t.cond in
        (r.0 ≡ ok)
        × ((w : ℕ) × (r.1.waiting ≡ pos w) × (w + val r.1.cond ≡ total is_counted t.calls))
        × ((u : System K M) × Step K M (record t { cond = r.1 }) u
            × (suc (total is_asleep u.calls) ≡ total is_asleep t.calls)
            × (total is_woken u.calls ≡ suc (total is_woken t.calls))
            × (suc (val u.cond.cond) ≡ val r.1.cond))
  Reach-signal k range old t r none_ h =
      let g = Reach-IsGood K M k range (fresh K M k old) t (fresh-IsGood K M k range old) r in
      let (w, e, sum_) = Reach-exact K M k range old t r none_ in
      let s = signalled t w g.set_up e (omega (arith, sum_, g.every, range)) sum_ h in
      (s.result, s.kept, (s.wakes.after, s.wakes.step, s.wakes.fewer, s.wakes.more, s.wakes.used))
