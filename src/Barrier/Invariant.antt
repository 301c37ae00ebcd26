-- ===== src/Barrier/Invariant.antt =====
-- src/posix_pthread_barrier.c: the invariant, from `pthread_barrier_init` through any interleaving.
use libposix.Prelude.{
  some-subst, ℕ, ◌^◌, ◌<◌, ◌≡◌, inl, inr, some, if◌then◌else◌, leb, arith, ◌==◌, Bool-cases, false,
  refl, sym, ◌∙◌, ltb,
}
use libposix.Prelude.Counting.{
  split-keeps, total, beside, replicate, total-replicate_zero, total-replicate_one,
}
use libposix.Kernel.{Semaphores}
use libposix.Barrier.{
  Waiter, outside, counted, posting, waiting, returned, outcome, Barrier, enter,
  pthread_barrier_init, move, System, Step, moves, Reach, start, next,
}
use libposix.Barrier.Counts.{
  is_outside, is_invalid, is_counted, is_pending, is_posting, is_waiting, is_passed, is_first,
  IsGood,
}
use libposix.Barrier.Kept.{enter-IsGood, test-IsGood, post-IsGood, pass-IsGood}

module _ (K : Semaphores) (count k : ℕ) where
  open K use {val, sem_get, sem_post_n, wait}

  abbrev Landed : ((Waiter → ℕ) → ℕ) → Barrier K × Waiter → Type 0
  Landed n r = IsGood K count k r.0 (beside r.1 n)

  move-IsGood :
      (b b' : Barrier K) (w w' : Waiter) (n : (Waiter → ℕ) → ℕ)
      → IsGood K count k b (beside w n)
      → move K b w ≡ some (b', w')
      → IsGood K count k b' (beside w' n)
  unfolding move
  move-IsGood b b' outside w' n g e =
      some-subst (Landed n) (enter K b) (b', w') e (enter-IsGood K count k b n g)
  move-IsGood b b' (counted cur) w' n g e =
      some-subst (Landed n) (b, if leb b.threshold b.cur_thread then posting cur else waiting cur)
        (b', w') e (test-IsGood K count k b cur n g)
  move-IsGood b b' (posting cur) w' n g e =
      some-subst (Landed n) (record b { sem = sem_post_n b.sem b.threshold }, waiting cur) (b', w')
        e (post-IsGood K count k b cur n g)
  move-IsGood b b' (waiting cur) w' n g e = elim (Bool-cases (ltb 0 (val b.sem))) [
    | inl open_ ↦
        some-subst (Landed n) (record b { sem = (sem_get b.sem wait).1 }, returned (outcome cur))
          (b', w') (sym (rw open_ refl) ∙ e)
          (pass-IsGood K count k b cur n g (ground (arith, open_)))
    | inr shut ↦ absurd (ground (arith, e, shut))
  ]
  move-IsGood b b' (returned o) w' n g e = cc

  pub Step-IsGood :
      (s t : System K)
      → IsGood K count k s.barrier (λ weight. total weight s.calls)
      → Step K s t
      → IsGood K count k t.barrier (λ weight. total weight t.calls)
  Step-IsGood s t g (moves xs ys b b' w w' e) =
      split-keeps (IsGood K count k) b b' xs ys w w' (λ n h. move-IsGood b b' w w' n h e) g

  pub Reach-IsGood :
      (s t : System K)
      → IsGood K count k s.barrier (λ weight. total weight s.calls)
      → Reach K s t
      → IsGood K count k t.barrier (λ weight. total weight t.calls)
  Reach-IsGood s t g start = g
  Reach-IsGood s t g (next {t = u} r st) = Step-IsGood u t (Reach-IsGood s u g r) st

  -- A barrier of `count` threads after `pthread_barrier_init`, and `k` calls.
  abbrev pub fresh : Barrier K → System K
  fresh old = record { barrier = (pthread_barrier_init K old count).1; calls = replicate k outside }

  pub fresh-IsGood :
      (old : Barrier K)
      → 0 < count
      → count < 2 ^ 32
      → let s = fresh old in IsGood K count k s.barrier (λ weight. total weight s.calls)
  unfolding pthread_barrier_init
  fresh-IsGood old h r =
      let positive : (count == 0) ≡ false = ground (arith, h) in
      rw positive (record {
        range = r;
        fixed = refl;
        le = omega arith;
        all_counted = total-replicate_zero k outside is_counted refl;
        parts = omega (
          arith,
          total-replicate_zero k outside is_counted refl,
          total-replicate_zero k outside is_pending refl,
          total-replicate_zero k outside is_waiting refl,
          total-replicate_zero k outside is_passed refl,
        );
        every = omega (
          arith,
          total-replicate_one k outside is_outside refl,
          total-replicate_zero k outside is_invalid refl,
          total-replicate_zero k outside is_counted refl,
        );
        away = inl (total-replicate_zero k outside is_invalid refl);
        early = inl (
            omega (
              arith,
              K.val-sem_init 0,
              total-replicate_zero k outside is_passed refl,
              total-replicate_zero k outside is_posting refl,
            ));
        woken = inl h;
        none_first = inr (total-replicate_zero k outside is_first refl);
        one_first = inl refl;
      })
