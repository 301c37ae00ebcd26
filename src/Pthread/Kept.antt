-- ===== src/Pthread/Kept.antt =====
-- src/posix_pthread.c: each move of a call of `pthread_join`, and of the thread itself, keeps the
-- invariant.
use libposix.Prelude.{
  ℕ, ◌+◌, ◌<◌, ◌≡◌, ◌≢◌, refl, ◌∙◌, inl, inr, ap, none, some, false, true, ltb, [], ◌∷◌, List,
  length, length-append, get_elem?, arith, Bool-cases, some-subst, ltb→lt,
}
use mathlib.Core.Path.{subst}
use libposix.Prelude.Counting.{
  total-set, weight_at, weight_at-get_elem?, weight_at-set_self, weight_at-le-set,
}
use libposix.Prelude.Status.{ok, errnum, edeadlk}
use libposix.Kernel.{Semaphores, Mutexes}
use libposix.Attributes.{status_joinable}
use libposix.Pthread.{PthreadInternal, pthread_equal}
use libposix.Pthread.Schedule.{
  Joiner, calling, locked, taken, posted, unlocked, stored, stackless, returned, join_move, System,
  after_join,
}
use libposix.Pthread.Counts.{
  is_passed, is_posted, is_inside, n_given, IsGuarded, free, held, IsGood,
}

module _ (K : Semaphores) (M : Mutexes) where
  open K use {val, sem_get, sem_post, wait}
  open M use {own, mut_lock, mut_unlock}

  -- What the numbers need of a move from `w` to `w'`.
  move-IsGood :
      (s : System K M) (i : ℕ) (w w' : Joiner) (t : PthreadInternal K M) (f : List ℕ)
      → get_elem? s.calls i ≡ some w
      → IsGood K M s
      → t.attr ≡ s.thread.attr
      → is_passed w' + val t.barrier ≡ is_passed w + val s.thread.barrier
      → val t.joined + is_posted w ≡ val s.thread.joined + is_posted w'
      → length f + n_given w ≡ n_given w'
      → IsGuarded K M (after_join K M s i (t, f, w'))
      → IsGood K M (after_join K M s i (t, f, w'))
  move-IsGood s i w w' t f at_i g same p q r guard = record {
    joinable = ap (λ attr. status_joinable attr.status) same ∙ g.joinable;
    attached = g.attached;
    passes = omega (arith, p, g.passes, total-set s.calls i w w' is_passed at_i);
    posts = omega (arith, q, g.posts, total-set s.calls i w w' is_posted at_i);
    gives =
        omega (arith, r, g.gives, length-append s.freed f, total-set s.calls i w w' n_given at_i);
    guarded = guard;
  }

  -- A move that leaves the mutex alone.
  keep-IsGuarded :
      (s : System K M) (i : ℕ) (w w' : Joiner) (t : PthreadInternal K M) (f : List ℕ)
      → get_elem? s.calls i ≡ some w
      → t.mux ≡ s.thread.mux
      → is_inside w' ≡ is_inside w
      → IsGuarded K M s
      → IsGuarded K M (after_join K M s i (t, f, w'))
  keep-IsGuarded s i w w' t f at_i m e (free o n) =
      free (rw m o) (omega (arith, n, e, total-set s.calls i w w' is_inside at_i))
  keep-IsGuarded s i w w' t f at_i m e (held j o u p n) =
      held j (rw m o) (rw m u)
        (omega (arith, p, weight_at-le-set s.calls i j w w' is_inside at_i (omega (arith, e))))
        (omega (arith, n, e, total-set s.calls i w w' is_inside at_i))

  -- A call that has not locked the mutex is not the one that owns it.
  not_owner :
      (xs : List Joiner) (i j : ℕ)
      → get_elem? xs i ≡ some calling
      → 0 < weight_at is_inside xs j
      → j ≢ i
  not_owner xs i j at_i p e =
      let q : 0 < weight_at is_inside xs i = subst (λ k. 0 < weight_at is_inside xs k) e p in
      omega (arith, q, weight_at-get_elem? xs i calling is_inside at_i)

  -- It locks the mutex without waiting only if that is free, and otherwise leaves it alone.
  lock-IsGuarded :
      (s : System K M) (i : ℕ) (t : PthreadInternal K M)
      → get_elem? s.calls i ≡ some calling
      → t.mux ≡ (mut_lock i s.thread.mux 0).1
      → (mut_lock i s.thread.mux 0).0 ≡ true
      → IsGuarded K M s
      → IsGuarded K M (after_join K M s i (t, [], locked))
  lock-IsGuarded s i t at_i m got (free o n) =
      held i (rw m (M.lock-own i s.thread.mux 0 o)) (rw m (M.own-mut_unlock i s.thread.mux 0 o))
        (omega (arith, weight_at-set_self s.calls i calling locked is_inside at_i))
        (omega (arith, n, total-set s.calls i calling locked is_inside at_i))
  lock-IsGuarded s i t at_i m got (held j o u p n) =
      let shut = M.lock-no_wait i j s.thread.mux o (not_owner s.calls i j at_i p) in
      absurd (ground (arith, got, shut))

  refused :
      (s : System K M) (i : ℕ)
      → get_elem? s.calls i ≡ some calling
      → (mut_lock i s.thread.mux 0).0 ≡ false
      → IsGuarded K M s
      → (mut_lock i s.thread.mux 0).1 ≡ s.thread.mux
  refused s i at_i no_ (free o n) = absurd (ground (arith, no_, M.lock-taken i s.thread.mux 0 o))
  refused s i at_i no_ (held j o u p n) =
      ap (λ r. r.1) (M.lock-no_wait i j s.thread.mux o (not_owner s.calls i j at_i p))

  unlock-IsGuarded :
      (s : System K M) (i : ℕ) (t : PthreadInternal K M)
      → get_elem? s.calls i ≡ some posted
      → t.mux ≡ mut_unlock s.thread.mux
      → IsGuarded K M s
      → IsGuarded K M (after_join K M s i (t, [], unlocked))
  unlock-IsGuarded s i t at_i m (free o n) =
      absurd (omega (arith, n, total-set s.calls i posted unlocked is_inside at_i))
  unlock-IsGuarded s i t at_i m (held j o u p n) =
      free (rw m u) (omega (arith, n, total-set s.calls i posted unlocked is_inside at_i))

  moved-IsGood :
      (s : System K M) (i : ℕ) (w w' : Joiner) (t : PthreadInternal K M) (f : List ℕ)
      (r : PthreadInternal K M × List ℕ × Joiner)
      → get_elem? s.calls i ≡ some w
      → some (t, f, w') ≡ some r
      → IsGood K M s
      → t.attr ≡ s.thread.attr
      → is_passed w' + val t.barrier ≡ is_passed w + val s.thread.barrier
      → val t.joined + is_posted w ≡ val s.thread.joined + is_posted w'
      → length f + n_given w ≡ n_given w'
      → IsGuarded K M (after_join K M s i (t, f, w'))
      → IsGood K M (after_join K M s i r)
  moved-IsGood s i w w' t f r at_i e g same p q l guard =
      some-subst (λ r. IsGood K M (after_join K M s i r)) (t, f, w') r e
        (move-IsGood s i w w' t f at_i g same p q l guard)

  -- Every move of a call by another thread than the one that is joined.
  pub join_move-IsGood :
      (self a : ℕ) (s : System K M) (i : ℕ) (w : Joiner) (r : PthreadInternal K M × List ℕ × Joiner)
      → pthread_equal self a ≡ false
      → get_elem? s.calls i ≡ some w
      → join_move K M i self a s.thread w ≡ some r
      → IsGood K M s
      → IsGood K M (after_join K M s i r)
  unfolding join_move
  join_move-IsGood self a s i calling r apart at_i e g =
      let t = record s.thread { mux = (mut_lock i s.thread.mux 0).1 } in
      elim (Bool-cases (mut_lock i s.thread.mux 0).0) [
        | inl got ↦
            moved-IsGood s i calling locked t [] r at_i (rw (g.joinable, got, apart) at e) g refl
              refl refl refl (lock-IsGuarded s i t at_i refl got g.guarded)
        | inr no_ ↦
            moved-IsGood s i calling (returned (errnum edeadlk) none) t [] r at_i
              (rw (g.joinable, no_) at e) g refl refl refl refl
              (keep-IsGuarded s i calling _ t [] at_i (refused s i at_i no_ g.guarded) refl
                g.guarded)
      ]
  join_move-IsGood self a s i locked r apart at_i e g =
      let t = record s.thread { barrier = (sem_get s.thread.barrier wait).1 } in
      elim (Bool-cases (ltb 0 (val s.thread.barrier))) [
        | inl can ↦
            moved-IsGood s i locked taken t [] r at_i (rw can at e) g refl
              (omega (arith, K.get-val s.thread.barrier wait (ltb→lt 0 _ can))) refl refl
              (keep-IsGuarded s i locked taken t [] at_i refl refl g.guarded)
        | inr no_ ↦ cc (rw no_ at e)
      ]
  join_move-IsGood self a s i taken r apart at_i e g =
      let t = record s.thread { joined = sem_post s.thread.joined } in
      moved-IsGood s i taken posted t [] r at_i e g refl refl
        (omega (arith, K.val-sem_post s.thread.joined)) refl
        (keep-IsGuarded s i taken posted t [] at_i refl refl g.guarded)
  join_move-IsGood self a s i posted r apart at_i e g =
      let t = record s.thread { mux = mut_unlock s.thread.mux } in
      moved-IsGood s i posted unlocked t [] r at_i e g refl refl refl refl
        (unlock-IsGuarded s i t at_i refl g.guarded)
  join_move-IsGood self a s i unlocked r apart at_i e g =
      moved-IsGood s i unlocked (stored s.thread.ret) s.thread [] r at_i e g refl refl refl refl
        (keep-IsGuarded s i unlocked _ s.thread [] at_i refl refl g.guarded)
  join_move-IsGood self a s i (stored v) r apart at_i e g =
      moved-IsGood s i (stored v) (stackless v) s.thread (s.thread.stack ∷ []) r at_i e g refl refl
        refl refl (keep-IsGuarded s i (stored v) _ s.thread _ at_i refl refl g.guarded)
  join_move-IsGood self a s i (stackless v) r apart at_i e g =
      moved-IsGood s i (stackless v) (returned ok (some v)) s.thread (a ∷ []) r at_i e g refl refl
        refl refl (keep-IsGuarded s i (stackless v) _ s.thread _ at_i refl refl g.guarded)
  join_move-IsGood self a s i (returned o v) r apart at_i e g = cc e
