-- ===== src/Pthread/Joins.antt =====
-- src/posix_pthread.c: what holds of a thread and any number of calls of `pthread_join` on it, in any
-- interleaving.
use libposix.Prelude.{
  ℕ, ◌+◌, ◌*◌, ◌≤◌, ◌≡◌, refl, ◌⊎◌, inl, inr, none, some, false, true, ltb, List, [], ◌∷◌, length,
  get_elem?, arith, Bool-cases, lt→ltb,
}
use mathlib.Core.Path.{subst}
use libposix.Prelude.Counting.{total}
use libposix.Prelude.Status.{errnum, edeadlk}
use libposix.Kernel.{Semaphores, Mutexes}
use libposix.Attributes.{PthreadAttr, status_joinable}
use libposix.Pthread.{PthreadInternal, pthread_equal}
use libposix.Pthread.Schedule.{
  Joiner, calling, locked, taken, posted, unlocked, stored, stackless, returned, Stage, running,
  exiting, waiting, freeing, ended, join_move, exit_move, System, Reach, fresh,
}
use libposix.Pthread.Counts.{
  is_passed, is_posted, is_inside, n_given, has_posted, has_ended, IsGuarded, free, held, IsGood,
}
use libposix.Pthread.Reached.{fresh-IsGood, Reach-IsGood}

n_given-le : (w : Joiner) → n_given w ≤ is_passed w * 2
n_given-le calling = omega arith
n_given-le locked = omega arith
n_given-le taken = omega arith
n_given-le posted = omega arith
n_given-le unlocked = omega arith
n_given-le (stored v) = omega arith
n_given-le (stackless v) = omega arith
n_given-le (returned r v) = ground arith

total_given-le : (ws : List Joiner) → total n_given ws ≤ total is_passed ws * 2
total_given-le [] = omega arith
total_given-le (w ∷ ws) = omega (arith, n_given-le w, total_given-le ws)

abbrev pub HasReturned : Joiner → Type 0
HasReturned (returned r v) = Unit
HasReturned _ = ⊥

module _ (K : Semaphores) (M : Mutexes) where
  open K use {val, sem_get, sem_post, wait}
  open M use {mut_lock}

  inside-le : (s : System K M) → IsGuarded K M s → total is_inside s.calls ≤ 1
  inside-le s (free o n) = omega (arith, n)
  inside-le s (held j o u p n) = omega (arith, n)

  -- The thread finds `joined` above 0 when it exits.
  can_exit :
      (value a : ℕ) (s : System K M) (stage : Stage)
      → s.stage ≡ stage
      → IsGood K M s
      → (stage ≡ ended)
        ⊎ ((r : PthreadInternal K M × List ℕ × Stage) × (exit_move K M value a s.thread stage
              ≡ some r))
  unfolding exit_move
  can_exit value a s running at_ g = inr (_, refl)
  can_exit value a s exiting at_ g =
      inr
        ((record s.thread { barrier = sem_post s.thread.barrier }, [], waiting), rw g.joinable refl)
  can_exit value a s waiting at_ g =
      let posts : val s.thread.joined + 0 ≡ 1 + total is_posted s.calls =
        subst (λ g'. val s.thread.joined + has_ended g' ≡ 1 + total is_posted s.calls) at_
          g.posts in
      let can : ltb 0 (val s.thread.joined) ≡ true = lt→ltb 0 _ (omega (arith, posts)) in
      inr ((record s.thread { joined = (sem_get s.thread.joined wait).1 }, [], ended), rw can refl)
  can_exit value a s freeing at_ g = inr (_, refl)
  can_exit value a s ended at_ g = inl refl

  can_join :
      (task self a : ℕ) (s : System K M) (w : Joiner)
      → IsGood K M s
      → HasReturned w
        ⊎ (((r : PthreadInternal K M × List ℕ × Joiner) × (join_move K M task self a s.thread w
                ≡ some r))
            ⊎ ((w ≡ locked) × (total is_passed s.calls ≡ 1 + has_posted s.stage)))
  unfolding join_move
  can_join task self a s calling g =
      let t : PthreadInternal K M = record s.thread { mux = (mut_lock task s.thread.mux 0).1 } in
      inr (
        inl (elim (Bool-cases (mut_lock task s.thread.mux 0).0) [
          | inl got ↦ elim (Bool-cases (pthread_equal self a)) [
            | inl same ↦ ((t, [], returned (errnum edeadlk) none), rw (g.joinable, got, same) refl)
            | inr other ↦ ((t, [], locked), rw (g.joinable, got, other) refl)
          ]
          | inr no_ ↦ ((t, [], returned (errnum edeadlk) none), rw (g.joinable, no_) refl)
        ]))
  can_join task self a s locked g = elim (Bool-cases (ltb 0 (val s.thread.barrier))) [
    | inl can ↦ inr (
        inl (
          (record s.thread { barrier = (sem_get s.thread.barrier wait).1 }, [], taken),
          rw can refl,
        ))
    | inr no_ ↦ inr (inr (refl, ground (arith, g.passes, no_)))
  ]
  can_join task self a s taken g = inr (inl (_, refl))
  can_join task self a s posted g = inr (inl (_, refl))
  can_join task self a s unlocked g = inr (inl (_, refl))
  can_join task self a s (stored v) g = inr (inl (_, refl))
  can_join task self a s (stackless v) g = inr (inl (_, refl))
  can_join task self a s (returned o v) g = inl tt

  module _ (a : ℕ) (self : ℕ → ℕ) (apart : (i : ℕ) → pthread_equal (self i) a ≡ false) where
    -- A joinable thread that was just created, and any number of calls of `pthread_join` by other
    -- threads, in any interleaving with its end: the calls that are past their wait and the value of
    -- `barrier` together are 1 until the thread has posted `barrier`, and 2 after that; two pieces of
    -- memory at most are given back before, and four after; and one call at most is between locking
    -- the mutex and unlocking it.
    pub Reach-passed :
        (k : ℕ) (zero : PthreadInternal K M) (attr : PthreadAttr) (stack : ℕ)
        → status_joinable attr.status ≡ true
        → (t : System K M) → Reach K M a self (fresh K M k zero attr stack) t
        → (total is_passed t.calls + val t.thread.barrier ≡ 1 + has_posted t.stage)
          × (length t.freed ≤ (1 + has_posted t.stage) * 2)
          × (total is_inside t.calls ≤ 1)
    Reach-passed k zero attr stack joinable t r =
        let g = Reach-IsGood K M a self apart (fresh-IsGood K M k zero attr stack joinable) r in
        (g.passes, omega (arith, g.gives, g.passes, total_given-le t.calls), inside-le t g.guarded)

    -- A joinable thread that was just created, and any number of calls of `pthread_join` by other
    -- threads, in any interleaving: the thread is at its end or can move, whoever joins it; and each
    -- call has returned or can move, or waits for `barrier`, which it does only after another call
    -- got past its wait while the thread has not posted, or after two calls did.
    pub Reach-can_move :
        (k : ℕ) (zero : PthreadInternal K M) (attr : PthreadAttr) (stack : ℕ)
        → status_joinable attr.status ≡ true
        → (t : System K M) → Reach K M a self (fresh K M k zero attr stack) t
        → ((value : ℕ)
            → (t.stage ≡ ended)
              ⊎ ((r : PthreadInternal K M × List ℕ × Stage) × (exit_move K M value a t.thread
                      t.stage
                    ≡ some r)))
          × ((i : ℕ) (w : Joiner)
              → get_elem? t.calls i ≡ some w
              → HasReturned w
                ⊎ (((r : PthreadInternal K M × List ℕ × Joiner) × (join_move K M i
                          (self i)
                          a
                          t.thread
                          w
                        ≡ some r))
                    ⊎ ((w ≡ locked) × (total is_passed t.calls ≡ 1 + has_posted t.stage))))
    Reach-can_move k zero attr stack joinable t r =
        let g = Reach-IsGood K M a self apart (fresh-IsGood K M k zero attr stack joinable) r in
        (λ value. can_exit value a t t.stage refl g, λ i w at_i. can_join i (self i) a t w g)
