-- ===== src/Barrier/Passing.antt =====
-- src/posix_pthread_barrier.c: what the calls of `pthread_barrier_wait` return, and whether they do,
-- in the interleavings from a barrier that `pthread_barrier_init` has set up.
use libposix.Prelude.{
  ℕ, zero, suc, ◌+◌, ◌*◌, ◌^◌, ◌≤◌, ◌<◌, ◌≡◌, refl, ◌⊎◌, inl, inr, some, leb, ltb, List, [], ◌∷◌,
  arith, Bool-cases, true,
}
use libposix.Prelude.Counting.{total, replicate}
use libposix.Kernel.{Semaphores}
use libposix.Barrier.{
  serial_thread, zero_, invalid, Waiter, outside, counted, posting, waiting, returned, Barrier,
  enter, move, System, Step, Reach, start, next,
}
use libposix.Barrier.Counts.{
  is_outside, is_counted, is_pending, is_waiting, is_passed, is_first, IsGood,
}
use libposix.Barrier.Moves.{
  moves_left, outside_moves, pending_moves, waiting_moves, Step-find, Step-moves_left, Reach-after,
  n_moves, n_moves-le,
}
use libposix.Barrier.Invariant.{Reach-IsGood, fresh, fresh-IsGood}

abbrev pub is_serial : Waiter → ℕ
is_serial (returned serial_thread) = 1
is_serial _ = 0

serial-le-first : (w : Waiter) → is_serial w ≤ is_first w
serial-le-first outside = omega arith
serial-le-first (counted cur) = omega arith
serial-le-first (posting cur) = omega arith
serial-le-first (waiting cur) = omega arith
serial-le-first (returned serial_thread) = omega arith
serial-le-first (returned zero_) = omega arith
serial-le-first (returned invalid) = omega arith

first-le-serial : (w : Waiter) → is_first w ≤ is_serial w + is_pending w + is_waiting w
first-le-serial outside = omega arith
first-le-serial (counted cur) = ground arith
first-le-serial (posting cur) = ground arith
first-le-serial (waiting cur) = ground arith
first-le-serial (returned serial_thread) = omega arith
first-le-serial (returned zero_) = omega arith
first-le-serial (returned invalid) = omega arith

total_serial-le : (ws : List Waiter) → total is_serial ws ≤ total is_first ws
total_serial-le [] = omega arith
total_serial-le (w ∷ ws) = omega (arith, serial-le-first w, total_serial-le ws)

total_first-le :
    (ws : List Waiter)
    → total is_first ws ≤ total is_serial ws + total is_pending ws + total is_waiting ws
total_first-le [] = omega arith
total_first-le (w ∷ ws) = omega (arith, first-le-serial w, total_first-le ws)

all_left : (k : ℕ) → total moves_left (replicate k outside) ≡ 4 * k
all_left zero = refl
all_left (suc k) = omega (arith, all_left k)

module _ (K : Semaphores) where
  open K use {val, sem_get, sem_post_n, wait}

  all_at_rest :
      {count k : ℕ} (t : System K)
      → IsGood K count k t.barrier (λ weight. total weight t.calls)
      → total is_counted t.calls ≡ count
      → total is_pending t.calls ≡ 0
      → (total is_passed t.calls ≡ count) ⊎ ((u : System K) × Step K t u)
  all_at_rest t g full rest = elim (Bool-cases (ltb 0 (total is_waiting t.calls))) [
    | inl some_ ↦
        let enough : 0 < val t.barrier.sem =
          ground (arith, some_, rest, g.woken, g.parts, g.all_counted, g.fixed, full) in
        inr (
          Step-find K t.barrier t.calls is_waiting (λ w h. waiting_moves K t.barrier w h enough)
            (ground (arith, some_)))
    | inr none_ ↦ inl (ground (arith, none_, rest, g.parts, full))
  ]

  module _ (old : Barrier K) (count k : ℕ) (pos_ : 0 < count) (range : count < 2 ^ 32) where
    -- No call of `pthread_barrier_wait` passes, in any interleaving of any number of calls, before as
    -- many calls as the barrier's count have come to it, and no more than that number ever pass.
    pub Reach-no_early :
        (t : System K)
        → Reach K (fresh K count k old) t
        → 0 < total is_passed t.calls
        → (total is_counted t.calls ≡ count) × (total is_passed t.calls ≤ count)
    Reach-no_early t r h =
        let g = Reach-IsGood K count k _ t (fresh-IsGood K count k old pos_ range) r in
        (
          ground (arith, g.early, g.all_counted, g.fixed, h),
          ground (arith, g.early, g.all_counted, g.fixed, g.parts, h),
        )

    -- At most one call returns PTHREAD_BARRIER_SERIAL_THREAD, and exactly one when as many calls as
    -- the barrier's count have passed.
    pub Reach-serial :
        (t : System K)
        → Reach K (fresh K count k old) t
        → (total is_serial t.calls ≤ 1)
          × ((total is_passed t.calls < count) ⊎ (total is_serial t.calls ≡ 1))
    Reach-serial t r =
        let g = Reach-IsGood K count k _ t (fresh-IsGood K count k old pos_ range) r in
        let up = total_serial-le t.calls in
        let down = total_first-le t.calls in
        (
          ground (arith, g.none_first, g.one_first, up),
          ground
              (arith, g.none_first, g.one_first, g.parts, g.all_counted, g.fixed, g.le, up, down),
        )

    -- Where there are as many calls as the barrier's count or more, in every interleaving either that
    -- number of calls has passed or some call can move: none is left waiting for good.
    pub Reach-no_deadlock :
        count ≤ k
        → (t : System K) → Reach K (fresh K count k old) t
        → (total is_passed t.calls ≡ count) ⊎ ((u : System K) × Step K t u)
    Reach-no_deadlock many t r =
        let g = Reach-IsGood K count k _ t (fresh-IsGood K count k old pos_ range) r in
        elim (Bool-cases (ltb 0 (total is_outside t.calls))) [
          | inl some_ ↦ inr (
              Step-find K t.barrier t.calls is_outside (outside_moves K t.barrier)
                (ground (arith, some_)))
          | inr begun ↦ elim (Bool-cases (ltb 0 (total is_pending t.calls))) [
            | inl some_ ↦ inr (
                Step-find K t.barrier t.calls is_pending (pending_moves K t.barrier)
                  (ground (arith, some_)))
            | inr rest ↦
                let all_ : total is_counted t.calls ≡ count =
                  ground (arith, begun, g.away, g.every, g.all_counted, g.fixed, g.le, many) in
                all_at_rest t g all_ (ground (arith, rest))
          ]
        ]

    -- Once as many calls as the barrier's count have come, every later call returns EINVAL and leaves
    -- the barrier alone: the barrier is never open for a second round.
    pub Reach-closed :
        (t : System K)
        → Reach K (fresh K count k old) t
        → total is_counted t.calls ≡ count
        → move K t.barrier outside ≡ some (t.barrier, returned invalid)
    unfolding move enter
    Reach-closed t r full =
        let g = Reach-IsGood K count k _ t (fresh-IsGood K count k old pos_ range) r in
        let shut : leb t.barrier.threshold t.barrier.cur_thread ≡ true =
          ground (arith, g.all_counted, g.fixed, full) in
        rw shut

    completes :
        (fuel : ℕ) (t : System K)
        → count ≤ k
        → Reach K (fresh K count k old) t
        → total moves_left t.calls ≤ fuel
        → (u : System K) × Reach K t u × (total is_passed u.calls ≡ count)
    completes zero t many r few = elim (Reach-no_deadlock many t r) [
      | inl done ↦ (t, start, done)
      | inr (u, st) ↦ absurd (omega (arith, few, Step-moves_left K t u st))
    ]
    completes (suc fuel) t many r few = elim (Reach-no_deadlock many t r) [
      | inl done ↦ (t, start, done)
      | inr (u, st) ↦
          let less : total moves_left u.calls ≤ fuel =
            omega (arith, few, Step-moves_left K t u st) in
          let (v, rest, done) = completes fuel u many (next r st) less in
          (v, Reach-after K st rest, done)
    ]

    -- Where there are as many calls as the barrier's count or more, every run of the calls is finite, with
    -- at most four moves for each call of `pthread_barrier_wait` in all, and can be continued until the
    -- barrier's count of calls have passed.
    pub Reach-completes :
        count ≤ k
        → (t : System K) (r : Reach K (fresh K count k old) t)
        → (n_moves K r ≤ 4 * k) × ((u : System K) × Reach K t u × (total is_passed u.calls ≡ count))
    Reach-completes many t r = (
      omega (arith, n_moves-le K _ t r, all_left k),
      completes (total moves_left t.calls) t many r (omega arith),
    )
