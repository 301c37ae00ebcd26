-- ===== src/Barrier/Gate.antt =====
-- What src/posix_pthread_barrier.c promises: a gate that opens once, for `count` calls. It forgets which
-- calls they are, the counter, the semaphore and how a call of `pthread_barrier_wait` is cut.
use libposix.Prelude.{
  some-subst, ℕ, suc, ◌^◌, ◌<◌, ◌≡◌, refl, sym, ap, ◌∙◌, ◌⊎◌, inl, inr, some, leb, ltb,
  if◌then◌else◌, ◌==◌, Bool, Bool-cases, true, false, arith,
}
use mathlib.Core.Path.{subst}
use libposix.Prelude.Counting.{total, total-split, total-replicate_zero}
use libposix.Kernel.{Semaphores}
use libposix.Barrier.{
  Waiter, outside, counted, posting, waiting, returned, outcome, Barrier, enter, move, System, Step,
  moves, Reach,
}
use libposix.Barrier.Counts.{is_counted, is_passed, IsGood}
use libposix.Barrier.Invariant.{Step-IsGood, Reach-IsGood, fresh, fresh-IsGood}

-- How many calls have come to the gate, and how many have passed it.
pub record Gate : Type 0 where
  pub arrived : ℕ
  pub passed : ℕ

-- A call comes while there is room; one passes once all have come.
pub data Advance (count : ℕ) (g : Gate) : Gate → Type 0 where
  arrives : g.arrived < count → Advance count g (record g { arrived = suc g.arrived })
  passes :
      g.arrived ≡ count → g.passed < count → Advance count g (record g { passed = suc g.passed })

module _ (K : Semaphores) where
  open K use {val, sem_get, sem_post_n, wait}

  -- The gate that a barrier and its calls stand for.
  abbrev pub gate : System K → Gate
  gate s = record { arrived = total is_counted s.calls; passed = total is_passed s.calls }

  -- What a move changes: nothing, the calls that came, or the calls that passed.
  abbrev Changes : Waiter → Waiter → Type 0
  Changes w w' =
      ((is_counted w' ≡ is_counted w) × (is_passed w' ≡ is_passed w))
      ⊎ ((is_counted w' ≡ suc (is_counted w)) × (is_passed w' ≡ is_passed w))
      ⊎ ((is_counted w' ≡ is_counted w) × (is_passed w' ≡ suc (is_passed w)))

  abbrev Changed : Waiter → Barrier K × Waiter → Type 0
  Changed w r = Changes w r.1

  enter-Changes : (b : Barrier K) → Changes outside (enter K b).1
  unfolding enter
  enter-Changes b = elim (Bool-cases (leb b.threshold b.cur_thread)) [
    | inl full ↦ rw full (inl (refl, refl))
    | inr room ↦ rw room (inr (inl (refl, refl)))
  ]

  test-Changes :
      (cur : ℕ) (c : Bool) → Changes (counted cur) (if c then posting cur else waiting cur)
  test-Changes cur true = inl (refl, refl)
  test-Changes cur false = inl (refl, refl)

  outcome-Changes : (cur : ℕ) → Changes (waiting cur) (returned (outcome cur))
  outcome-Changes cur = elim (Bool-cases (cur == 1)) [
    | inl first ↦ rw first (inr (inr (refl, refl)))
    | inr other ↦ rw other (inr (inr (refl, refl)))
  ]

  move-Changes : (b b' : Barrier K) (w w' : Waiter) → move K b w ≡ some (b', w') → Changes w w'
  unfolding move
  move-Changes b b' outside w' e =
      some-subst (Changed outside) (enter K b) (b', w') e (enter-Changes b)
  move-Changes b b' (counted cur) w' e =
      some-subst (Changed (counted cur))
        (b, if leb b.threshold b.cur_thread then posting cur else waiting cur) (b', w') e
        (test-Changes cur (leb b.threshold b.cur_thread))
  move-Changes b b' (posting cur) w' e =
      some-subst (Changed (posting cur))
        (record b { sem = sem_post_n b.sem b.threshold }, waiting cur) (b', w') e (inl (refl, refl))
  move-Changes b b' (waiting cur) w' e = elim (Bool-cases (ltb 0 (val b.sem))) [
    | inl open_ ↦
        some-subst (Changed (waiting cur))
          (record b { sem = (sem_get b.sem wait).1 }, returned (outcome cur)) (b', w')
          (sym (rw open_ refl) ∙ e) (outcome-Changes cur)
    | inr shut ↦ absurd (ground (arith, e, shut))
  ]
  move-Changes b b' (returned o) w' e = cc

  gate_eq : (g h : Gate) → g.arrived ≡ h.arrived → g.passed ≡ h.passed → g ≡ h
  gate_eq g h e f =
      ap (λ a. record { arrived = a; passed = g.passed }) e
      ∙ ap (λ p. record { arrived = h.arrived; passed = p }) f

  -- The same of the gate.
  Step-gate :
      (s t : System K)
      → Step K s t
      → ((gate t).arrived ≡ (gate s).arrived) × ((gate t).passed ≡ (gate s).passed)
        ⊎ (((gate t).arrived ≡ suc (gate s).arrived) × ((gate t).passed ≡ (gate s).passed))
        ⊎ (((gate t).arrived ≡ (gate s).arrived) × ((gate t).passed ≡ suc (gate s).passed))
  Step-gate s t (moves xs ys b b' w w' e) = ground (
    arith,
    move-Changes b b' w w' e,
    total-split xs ys w is_counted,
    total-split xs ys w' is_counted,
    total-split xs ys w is_passed,
    total-split xs ys w' is_passed,
  )

  module _ (count k : ℕ) where
    Step-Advance :
        (s t : System K)
        → IsGood K count k s.barrier (λ weight. total weight s.calls)
        → Step K s t
        → (gate t ≡ gate s) ⊎ Advance count (gate s) (gate t)
    Step-Advance s t g st =
        let h = Step-IsGood K count k s t g st in
        elim (Step-gate s t st) [
          | inl (same, same') ↦ inl (gate_eq (gate t) (gate s) same same')
          | inr (inl (one, same)) ↦
              let room : (gate s).arrived < count =
                omega (arith, one, h.all_counted, h.le, h.fixed) in
              inr (
                subst (Advance count (gate s))
                  (sym (
                    gate_eq (gate t) (record (gate s) { arrived = suc (gate s).arrived }) one same))
                  (arrives room))
          | inr (inr (same, one)) ↦
              let full : (gate s).arrived ≡ count =
                ground (arith, same, one, h.early, h.all_counted, h.fixed) in
              inr (
                subst (Advance count (gate s))
                  (sym
                    (gate_eq (gate t) (record (gate s) { passed = suc (gate s).passed }) same one))
                  (passes full (omega (arith, one, same, full, h.parts))))
        ]

    -- A barrier of `count` threads, used by any number of calls in any interleaving, stands for a gate
    -- that calls come to and pass: at first none has come and none has passed, and from every state that is
    -- reached each move of each call leaves the gate as it is, lets one call come while fewer than
    -- `count` have come, or lets one pass when `count` have come and fewer have passed.
    pub Reach-Advance :
        (old : Barrier K)
        → 0 < count
        → count < 2 ^ 32
        → (t u : System K) → Reach K (fresh K count k old) t
        → Step K t u
        → (gate (fresh K count k old) ≡ record { arrived = 0; passed = 0 })
          × ((gate u ≡ gate t) ⊎ Advance count (gate t) (gate u))
    Reach-Advance old h range t u r st =
        let s = fresh K count k old in
        let good = Reach-IsGood K count k s t (fresh-IsGood K count k old h range) r in
        (
          gate_eq (gate s) (record { arrived = 0; passed = 0 })
              (total-replicate_zero k outside is_counted refl)
              (total-replicate_zero k outside is_passed refl),
          Step-Advance t u good st,
        )
