-- ===== src/Cond/Broadcast.antt =====
-- src/posix_pthread_cond.c: what a broadcast lets the calls of the wait do.
use libposix.Prelude.{
  ℕ, zero, suc, ◌+◌, ◌^◌, ◌<◌, ◌≤◌, ◌≡◌, refl, sym, ltb, true, false, List, [], ◌∷◌, ◌++◌, ◌==◌,
  arith,
}
use mathlib.Core.Path.{subst}
use libposix.Prelude.Int.{pos, uint32_fits}
use libposix.Prelude.Status.{ok}
use libposix.Prelude.Counting.{total, total-split, find}
use libposix.Kernel.{Semaphores, Mutexes}
use libposix.Cond.{Cond, pthread_cond_broadcast}
use libposix.Cond.Schedule.{
  Sleeper, woken, arriving, counted, asleep, expired, returned, proceeds, move, System, Step, moves,
  Reach, start, next, fresh,
}
use libposix.Cond.Counts.{is_counted, is_troubled}
use libposix.Cond.Balance.{fresh-IsGood, Reach-IsGood, Reach-exact}

abbrev pub is_asleep : Sleeper → ℕ
is_asleep asleep = 1
is_asleep _ = 0

abbrev pub is_woken : Sleeper → ℕ
is_woken (returned woken) = 1
is_woken _ = 0

asleep_eq : (w : Sleeper) → 0 < is_asleep w → w ≡ asleep
asleep_eq arriving h = absurd (omega (arith, h))
asleep_eq counted h = absurd (omega (arith, h))
asleep_eq asleep h = refl
asleep_eq expired h = absurd (omega (arith, h))
asleep_eq (returned o) h = absurd (ground (arith, h))

asleep-le-counted : (w : Sleeper) → is_asleep w ≤ is_counted w
asleep-le-counted arriving = omega arith
asleep-le-counted counted = omega arith
asleep-le-counted asleep = omega arith
asleep-le-counted expired = omega arith
asleep-le-counted (returned o) = ground arith

pub total_asleep-le : (ws : List Sleeper) → total is_asleep ws ≤ total is_counted ws
total_asleep-le [] = omega arith
total_asleep-le (w ∷ ws) = omega (arith, asleep-le-counted w, total_asleep-le ws)

module _ (K : Semaphores) (M : Mutexes) where
  open K use {val, sem_get, sem_post_n, wait}

  Reach-trans : (s t u : System K M) → Reach K M s t → Reach K M t u → Reach K M s u
  Reach-trans s t u r start = r
  Reach-trans s t u r (next {t = v} q st) = next (Reach-trans s t v r q) st

  -- One sleeping call that finds the semaphore above 0.
  pub record Woken (s : System K M) : Type 0 where
    pub after : System K M
    pub step : Step K M s after
    pub fewer : suc (total is_asleep after.calls) ≡ total is_asleep s.calls
    pub more : total is_woken after.calls ≡ suc (total is_woken s.calls)
    pub used : suc (val after.cond.cond) ≡ val s.cond.cond

  wake :
      (c : Cond K M) (xs ys : List Sleeper)
      → 0 < val c.cond
      → Woken (record { cond = c; calls = xs ++ asleep ∷ ys })
  unfolding move
  wake c xs ys open_ =
      let c' : Cond K M = record c { cond = (sem_get c.cond wait).1 } in
      let can : ltb 0 (val c.cond) ≡ true = ground (arith, open_) in
      record {
        after = record { cond = c'; calls = xs ++ returned woken ∷ ys };
        step = moves (proceeds wait) xs ys c c' asleep (returned woken) (rw can refl);
        fewer = omega (
          arith,
          total-split xs ys asleep is_asleep,
          total-split xs ys (returned woken) is_asleep,
        );
        more =
            omega (
              arith,
              total-split xs ys asleep is_woken,
              total-split xs ys (returned woken) is_woken,
            );
        used = K.get-val c.cond wait open_;
      }

  pub wake_some :
      (c : Cond K M) (ws : List Sleeper)
      → 0 < total is_asleep ws
      → 0 < val c.cond
      → Woken (record { cond = c; calls = ws })
  wake_some c ws h open_ =
      let f = find is_asleep ws h in
      let here : f.before ++ asleep ∷ f.after ≡ ws =
        sym (subst (λ w. ws ≡ f.before ++ w ∷ f.after) (asleep_eq f.item f.counts) f.here) in
      subst (λ xs. Woken (record { cond = c; calls = xs })) here (wake c f.before f.after open_)

  -- A run in which every sleeping call returns, having taken the semaphore.
  record AllWoken (s : System K M) : Type 0 where
    pub last : System K M
    pub run : Reach K M s last
    pub none_asleep : total is_asleep last.calls ≡ 0
    pub all_woken : total is_woken last.calls ≡ total is_woken s.calls + total is_asleep s.calls

  wake_all :
      (n : ℕ) (s : System K M) → total is_asleep s.calls ≡ n → n ≤ val s.cond.cond → AllWoken s
  wake_all zero s e h = record {
    last = s;
    run = start;
    none_asleep = e;
    all_woken = omega (arith, e);
  }
  wake_all (suc n) s e h =
      let w = wake_some s.cond s.calls (omega (arith, e)) (omega (arith, h)) in
      let rest = wake_all n w.after (omega (arith, w.fewer, e)) (omega (arith, w.used, h)) in
      record {
        last = rest.last;
        run = Reach-trans s w.after rest.last (next start w.step) rest.run;
        none_asleep = rest.none_asleep;
        all_woken = omega (arith, rest.all_woken, w.fewer, w.more);
      }

  broadcast_lem :
      (c : Cond K M) (w : ℕ)
      → 0 < c.inited
      → c.waiting ≡ pos w
      → w < 2 ^ 32
      → pthread_cond_broadcast K M c
        ≡ (ok, record c { cond = sem_post_n c.cond w; waiting = pos 0 })
  unfolding pthread_cond_broadcast
  broadcast_lem c w init e few =
      let there : (c.inited == 0) ≡ false = ground (arith, init) in
      rw (there, e, uint32_fits (pos w) refl few) refl

  -- From `pthread_cond_init`, in any interleaving of fewer than 2 ^ 31 calls in which no wait has
  -- timed out and no unlocking has failed, a broadcast leaves the number of waiting threads at 0 and
  -- the semaphore at the number of calls that are counted, and there is a run in which every
  -- sleeping call is woken.
  pub Reach-broadcast :
      (k : ℕ)
      → k < 2 ^ 31
      → (old : Cond K M) (t : System K M) → Reach K M (fresh K M k old) t
      → total is_troubled t.calls ≡ 0
      → let b = (pthread_cond_broadcast K M t.cond).1 in
        (b.waiting ≡ pos 0)
        × (val b.cond ≡ total is_counted t.calls)
        × ((u : System K M) × Reach K M (record t { cond = b }) u
            × (total is_asleep u.calls ≡ 0)
            × (total is_woken u.calls ≡ total is_woken t.calls + total is_asleep t.calls))
  Reach-broadcast k range old t r none_ =
      let g = Reach-IsGood K M k range (fresh K M k old) t (fresh-IsGood K M k range old) r in
      let (w, e, sum_) = Reach-exact K M k range old t r none_ in
      let posted = broadcast_lem t.cond w g.set_up e (omega (arith, sum_, g.every, range)) in
      let full = K.val-sem_post_n t.cond.cond w in
      let woken_ =
        wake_all (total is_asleep t.calls)
          (record t { cond = record t.cond { cond = sem_post_n t.cond.cond w; waiting = pos 0 } })
          refl (omega (arith, full, sum_, total_asleep-le t.calls)) in
      rw posted (
        refl,
        omega (arith, full, sum_),
        (woken_.last, woken_.run, woken_.none_asleep, woken_.all_woken),
      )
