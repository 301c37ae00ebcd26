-- ===== src/Barrier/Moves.antt =====
-- src/posix_pthread_barrier.c: which calls of `pthread_barrier_wait` can move, and how often.
use libposix.Prelude.{
  some-subst, ℕ, suc, ◌+◌, ◌≤◌, ◌<◌, ◌≡◌, refl, sym, ◌∙◌, inl, inr, some, if◌then◌else◌, leb, ltb,
  List, ◌∷◌, ◌++◌, arith, Bool-cases, true, false, Bool,
}
use mathlib.Core.Path.{subst}
use libposix.Prelude.Counting.{total, total-split, find}
use libposix.Kernel.{Semaphores}
use libposix.Barrier.{
  Waiter, outside, counted, posting, waiting, returned, outcome, Barrier, enter, move, System, Step,
  moves, Reach, start, next,
}
use libposix.Barrier.Counts.{is_outside, is_pending, is_waiting}

-- How many moves a call has left at most.
abbrev pub moves_left : Waiter → ℕ
moves_left outside = 4
moves_left (counted cur) = 3
moves_left (posting cur) = 2
moves_left (waiting cur) = 1
moves_left (returned o) = 0

module _ (K : Semaphores) where
  open K use {val, sem_get, sem_post_n, wait}

  -- A call that is pending can move.
  pub pending_moves :
      (b : Barrier K) (w : Waiter)
      → 0 < is_pending w
      → (r : Barrier K × Waiter) × (move K b w ≡ some r)
  unfolding move
  pending_moves b outside h = absurd (omega (arith, h))
  pending_moves b (counted cur) h = (_, refl)
  pending_moves b (posting cur) h = (_, refl)
  pending_moves b (waiting cur) h = absurd (omega (arith, h))
  pending_moves b (returned o) h = absurd (omega (arith, h))

  -- So can one that has not begun.
  pub outside_moves :
      (b : Barrier K) (w : Waiter)
      → 0 < is_outside w
      → (r : Barrier K × Waiter) × (move K b w ≡ some r)
  unfolding move
  outside_moves b outside h = (_, refl)
  outside_moves b (counted cur) h = absurd (omega (arith, h))
  outside_moves b (posting cur) h = absurd (omega (arith, h))
  outside_moves b (waiting cur) h = absurd (omega (arith, h))
  outside_moves b (returned o) h = absurd (ground (arith, h))

  -- So can one that waits for a semaphore above 0.
  pub waiting_moves :
      (b : Barrier K) (w : Waiter)
      → 0 < is_waiting w
      → 0 < val b.sem
      → (r : Barrier K × Waiter) × (move K b w ≡ some r)
  unfolding move
  waiting_moves b outside h v = absurd (omega (arith, h))
  waiting_moves b (counted cur) h v = absurd (omega (arith, h))
  waiting_moves b (posting cur) h v = absurd (omega (arith, h))
  waiting_moves b (waiting cur) h v =
      let open_ : ltb 0 (val b.sem) ≡ true = ground (arith, v) in
      ((record b { sem = (sem_get b.sem wait).1 }, returned (outcome cur)), rw open_)
  waiting_moves b (returned o) h v = absurd (omega (arith, h))

  pub Step-find :
      (b : Barrier K) (ws : List Waiter) (weight : Waiter → ℕ)
      → ((w : Waiter) → 0 < weight w → (r : Barrier K × Waiter) × (move K b w ≡ some r))
      → 0 < total weight ws
      → (u : System K) × Step K (record { barrier = b; calls = ws }) u
  Step-find b ws weight can h =
      let f = find weight ws h in
      let r = can f.item f.counts in
      (
        record { barrier = r.0.0; calls = f.before ++ r.0.1 ∷ f.after },
        subst
            (λ xs.
              Step K (record { barrier = b; calls = xs })
                (record { barrier = r.0.0; calls = f.before ++ r.0.1 ∷ f.after }))
            (sym f.here) (moves f.before f.after b r.0.0 f.item r.0.1 r.1),
      )

  abbrev Fewer : ℕ → Barrier K × Waiter → Type 0
  Fewer n r = moves_left r.1 < n

  tested-lt :
      (b : Barrier K) (cur : ℕ) (c : Bool) → moves_left (if c then posting cur else waiting cur) < 3
  tested-lt b cur true = omega arith
  tested-lt b cur false = omega arith

  entered-lt : (b : Barrier K) → moves_left (enter K b).1 < 4
  unfolding enter
  entered-lt b = elim (Bool-cases (leb b.threshold b.cur_thread)) [
    | inl full ↦ rw full (omega arith)
    | inr room ↦ rw room (omega arith)
  ]

  move-moves_left :
      (b b' : Barrier K) (w w' : Waiter) → move K b w ≡ some (b', w') → moves_left w' < moves_left w
  unfolding move
  move-moves_left b b' outside w' e = some-subst (Fewer 4) (enter K b) (b', w') e (entered-lt b)
  move-moves_left b b' (counted cur) w' e =
      some-subst (Fewer 3) (b, if leb b.threshold b.cur_thread then posting cur else waiting cur)
        (b', w') e (tested-lt b cur (leb b.threshold b.cur_thread))
  move-moves_left b b' (posting cur) w' e =
      some-subst (Fewer 2) (record b { sem = sem_post_n b.sem b.threshold }, waiting cur) (b', w') e
        (omega arith)
  move-moves_left b b' (waiting cur) w' e = elim (Bool-cases (ltb 0 (val b.sem))) [
    | inl open_ ↦
        some-subst (Fewer 1) (record b { sem = (sem_get b.sem wait).1 }, returned (outcome cur))
          (b', w') (sym (rw open_ refl) ∙ e) (omega arith)
    | inr shut ↦ absurd (ground (arith, e, shut))
  ]
  move-moves_left b b' (returned o) w' e = cc

  pub Step-moves_left :
      (s t : System K) → Step K s t → total moves_left t.calls < total moves_left s.calls
  Step-moves_left s t (moves xs ys b b' w w' e) = omega (
    arith,
    total-split xs ys w moves_left,
    total-split xs ys w' moves_left,
    move-moves_left b b' w w' e,
  )

  -- A move before a run.
  pub Reach-after : {s t u : System K} → Step K s t → Reach K t u → Reach K s u
  Reach-after st start = next start st
  Reach-after st (next r last) = next (Reach-after st r) last

  -- The number of moves in a run.
  abbrev pub n_moves : {s t : System K} → Reach K s t → ℕ
  n_moves start = 0
  n_moves (next r st) = suc (n_moves r)

  pub n_moves-le :
      (s t : System K) (r : Reach K s t)
      → n_moves r + total moves_left t.calls ≤ total moves_left s.calls
  n_moves-le s t start = omega arith
  n_moves-le s t (next {t = u} r st) = omega (arith, n_moves-le s u r, Step-moves_left u t st)
