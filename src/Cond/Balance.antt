-- ===== src/Cond/Balance.antt =====
-- The number of waiting threads, the semaphore and the calls of src/posix_pthread_cond.c, from
-- `pthread_cond_init` through any interleaving.
use libposix.Prelude.{
  some-subst, ℕ, ◌+◌, ◌%◌, ◌^◌, ◌<◌, ◌≡◌, refl, sym, ◌∙◌, inl, inr, some, Bool-cases, ltb, arith,
}
use libposix.Prelude.Int.{pos, uint32, uint32_fits, pos_part, eq_of_parts}
use libposix.Prelude.Counting.{
  split-keeps, total, beside, total-replicate_zero, total-replicate_one,
}
use libposix.Kernel.{Semaphores, Mutexes}
use libposix.Cond.{Cond, add_waiter, drop_waiter, pthread_cond_init}
use libposix.Cond.Schedule.{
  Sleeper, woken, timed_out, refused, arriving, counted, asleep, expired, returned, Choice,
  proceeds, gives_up, move, System, Step, moves, signals, broadcasts, Reach, start, next, fresh,
}
use libposix.Cond.Counts.{
  is_counted, is_done, is_troubled, IsGood, arrive-IsGood, wake-IsGood, drop-IsGood, expire-IsGood,
  refuse-IsGood, sleep-IsGood, wake_one-IsGood, broadcast-IsGood,
}

module _ (K : Semaphores) (M : Mutexes) (k : ℕ) (range : k < 2 ^ 31) where
  open K use {val, sem_get, wait}

  abbrev Landed : ((Sleeper → ℕ) → ℕ) → Cond K M × Sleeper → Type 0
  Landed n r = IsGood K M k r.0 (beside r.1 n)

  move-IsGood :
      (choice : Choice) (c c' : Cond K M) (w w' : Sleeper) (n : (Sleeper → ℕ) → ℕ)
      → IsGood K M k c (beside w n)
      → move K M choice c w ≡ some (c', w')
      → IsGood K M k c' (beside w' n)
  unfolding move
  move-IsGood choice c c' arriving w' n g e =
      some-subst (Landed n) (add_waiter K M c, counted) (c', w') e (arrive-IsGood K M k c n range g)
  move-IsGood (proceeds ticks) c c' counted w' n g e =
      some-subst (Landed n) (c, asleep) (c', w') e (sleep-IsGood K M k c n g)
  move-IsGood gives_up c c' counted w' n g e =
      some-subst (Landed n) (c, returned refused) (c', w') e (refuse-IsGood K M k c n g)
  move-IsGood (proceeds ticks) c c' asleep w' n g e = elim (Bool-cases (ltb 0 (val c.cond))) [
    | inl open_ ↦
        some-subst (Landed n) (record c { cond = (sem_get c.cond ticks).1 }, returned woken)
          (c', w') (sym (rw open_ refl) ∙ e) (wake-IsGood K M k c ticks n (ground (arith, open_)) g)
    | inr shut ↦ absurd (ground (arith, e, shut))
  ]
  move-IsGood gives_up c c' asleep w' n g e = elim (Bool-cases (ltb 0 (val c.cond))) [
    | inl open_ ↦ absurd (ground (arith, e, open_))
    | inr shut ↦
        some-subst (Landed n) (c, expired) (c', w') (sym (rw shut refl) ∙ e)
          (expire-IsGood K M k c n g)
  ]
  move-IsGood choice c c' expired w' n g e =
      some-subst (Landed n) (drop_waiter K M c, returned timed_out) (c', w') e
        (drop-IsGood K M k c n g)
  move-IsGood choice c c' (returned o) w' n g e = cc

  pub Step-IsGood :
      (s t : System K M)
      → IsGood K M k s.cond (λ weight. total weight s.calls)
      → Step K M s t
      → IsGood K M k t.cond (λ weight. total weight t.calls)
  Step-IsGood s t g (moves choice xs ys c c' w w' e) =
      split-keeps (IsGood K M k) c c' xs ys w w' (λ n h. move-IsGood choice c c' w w' n h e) g
  Step-IsGood s t g (signals _) = wake_one-IsGood K M k s.cond _ range g
  Step-IsGood s t g (broadcasts _) = broadcast-IsGood K M k s.cond _ range g

  pub Reach-IsGood :
      (s t : System K M)
      → IsGood K M k s.cond (λ weight. total weight s.calls)
      → Reach K M s t
      → IsGood K M k t.cond (λ weight. total weight t.calls)
  Reach-IsGood s t g start = g
  Reach-IsGood s t g (next {t = u} r st) = Step-IsGood u t (Reach-IsGood s u g r) st

  pub fresh-IsGood :
      (old : Cond K M)
      → let s = fresh K M k old in IsGood K M k s.cond (λ weight. total weight s.calls)
  unfolding pthread_cond_init
  fresh-IsGood old =
      let none_ = total-replicate_zero k arriving is_counted refl in
      record {
        set_up = omega arith;
        every = omega (arith, none_, total-replicate_one k arriving is_done refl);
        balance = omega (arith, none_, K.val-sem_init 0, uint32_fits (pos 0) refl (omega arith));
        calm = inr (refl, omega (arith, none_, K.val-sem_init 0));
      }

  -- From `pthread_cond_init`, in any interleaving of fewer than 2 ^ 31 calls of the wait with signals
  -- and broadcasts, the number of waiting threads and the semaphore's value together are, modulo
  -- 2 ^ 32, the number of calls that have counted themselves and have neither been woken nor been
  -- taken off the count.
  pub Reach-balance :
      (old : Cond K M) (t : System K M)
      → Reach K M (fresh K M k old) t
      → (uint32 t.cond.waiting + val t.cond.cond) % 2 ^ 32 ≡ total is_counted t.calls % 2 ^ 32
  Reach-balance old t r = (Reach-IsGood (fresh K M k old) t (fresh-IsGood old) r).balance

  -- As long as no wait has timed out and no unlocking has failed, the sum is exact and the number of
  -- waiting threads is not negative.
  pub Reach-exact :
      (old : Cond K M) (t : System K M)
      → Reach K M (fresh K M k old) t
      → total is_troubled t.calls ≡ 0
      → (w : ℕ) × (t.cond.waiting ≡ pos w) × (w + val t.cond.cond ≡ total is_counted t.calls)
  Reach-exact old t r none_ =
      let g = Reach-IsGood (fresh K M k old) t (fresh-IsGood old) r in
      (
        pos_part t.cond.waiting,
        eq_of_parts t.cond.waiting (pos (pos_part t.cond.waiting)) (ground (arith, g.calm, none_)),
        ground (arith, g.calm, none_),
      )
