-- ===== src/Pthread/Reached.antt =====
-- src/posix_pthread.c: the moves of the thread itself keep the invariant, and so it holds of what is
-- reached from a thread that was just created, in any interleaving.
use libposix.Prelude.{
  ℕ, ◌+◌, ◌≡◌, ◌≢◌, refl, ◌∙◌, sym, ap, inl, inr, some, false, true, ltb, List, [], length-append,
  arith, Bool-cases, some-subst, ltb→lt,
}
use libposix.Prelude.Counting.{total-replicate_zero}
use libposix.Kernel.{Semaphores, Mutexes}
use libposix.Attributes.{PthreadAttr, status_joinable}
use libposix.Pthread.{PthreadInternal, pthread_equal, new_thread}
use libposix.Pthread.Schedule.{
  calling, Stage, running, exiting, waiting, freeing, ended, exit_move, System, after_exit, Step,
  joins, exits, Reach, start, next, fresh,
}
use libposix.Pthread.Counts.{
  is_passed, is_posted, is_inside, n_given, has_posted, has_ended, IsGuarded, free, held, IsGood,
}
use libposix.Pthread.Kept.{join_move-IsGood}

module _ (K : Semaphores) (M : Mutexes) where
  open K use {val, sem_get, sem_post, wait}
  open M use {own, mut_lock}

  -- The mutex and the calls are not touched by the thread itself.
  exit-IsGuarded :
      (s : System K M) (t : PthreadInternal K M) (f : List ℕ) (g : Stage)
      → t.mux ≡ s.thread.mux
      → IsGuarded K M s
      → IsGuarded K M (after_exit K M s (t, f, g))
  exit-IsGuarded s t f g m (free o n) = free (rw m o) n
  exit-IsGuarded s t f g m (held j o u p n) = held j (rw m o) (rw m u) p n

  exited-IsGood :
      (s : System K M) (t : PthreadInternal K M) (stage : Stage)
      (r : PthreadInternal K M × List ℕ × Stage)
      → some (t, [], stage) ≡ some r
      → IsGood K M s
      → stage ≢ freeing
      → t.attr ≡ s.thread.attr
      → val t.barrier + has_posted s.stage ≡ val s.thread.barrier + has_posted stage
      → val t.joined + has_ended stage ≡ val s.thread.joined + has_ended s.stage
      → t.mux ≡ s.thread.mux
      → IsGood K M (after_exit K M s r)
  exited-IsGood s t stage r e g attached same p q m =
      some-subst (λ r. IsGood K M (after_exit K M s r)) (t, [], stage) r e
        (record {
          joinable = ap (λ attr. status_joinable attr.status) same ∙ g.joinable;
          attached = attached;
          passes = omega (arith, g.passes, p);
          posts = omega (arith, g.posts, q);
          gives = omega (arith, g.gives, length-append {0} s.freed []);
          guarded = exit-IsGuarded s t [] stage m g.guarded;
        })

  exit_move-IsGood :
      (value a : ℕ) (s : System K M) (stage : Stage) (r : PthreadInternal K M × List ℕ × Stage)
      → s.stage ≡ stage
      → exit_move K M value a s.thread stage ≡ some r
      → IsGood K M s
      → IsGood K M (after_exit K M s r)
  unfolding exit_move
  exit_move-IsGood value a s running r at_ e g =
      exited-IsGood s (record s.thread { ret = value }) exiting r e g (λ h. cc) refl (rw at_ refl)
        (rw at_ refl) refl
  exit_move-IsGood value a s exiting r at_ e g =
      exited-IsGood s (record s.thread { barrier = sem_post s.thread.barrier }) waiting r
        (rw g.joinable at e) g (λ h. cc) refl
        (rw at_ (omega (arith, K.val-sem_post s.thread.barrier))) (rw at_ refl) refl
  exit_move-IsGood value a s waiting r at_ e g = elim (Bool-cases (ltb 0 (val s.thread.joined))) [
    | inl can ↦
        exited-IsGood s (record s.thread { joined = (sem_get s.thread.joined wait).1 }) ended r
          (rw can at e) g (λ h. cc) refl (rw at_ refl)
          (rw at_ (omega (arith, K.get-val s.thread.joined wait (ltb→lt 0 _ can)))) refl
    | inr no_ ↦ cc (rw no_ at e)
  ]
  exit_move-IsGood value a s freeing r at_ e g = absurd (g.attached at_)
  exit_move-IsGood value a s ended r at_ e g = cc e

  pub fresh-IsGood :
      (k : ℕ) (zero : PthreadInternal K M) (attr : PthreadAttr) (stack : ℕ)
      → status_joinable attr.status ≡ true
      → IsGood K M (fresh K M k zero attr stack)
  unfolding new_thread
  fresh-IsGood k zero attr stack joinable = rw joinable (record {
    joinable = joinable;
    attached = λ h. cc;
    passes = omega (arith, K.val-sem_init 1, total-replicate_zero k calling is_passed refl);
    posts = omega (arith, K.val-sem_init 1, total-replicate_zero k calling is_posted refl);
    gives = sym (total-replicate_zero k calling n_given refl);
    guarded = free M.own-mut_init (total-replicate_zero k calling is_inside refl);
  })

  module _ (a : ℕ) (self : ℕ → ℕ) (apart : (i : ℕ) → pthread_equal (self i) a ≡ false) where
    Step-IsGood : {s t : System K M} → Step K M a self s t → IsGood K M s → IsGood K M t
    Step-IsGood (joins s i w r at_i e) g =
        join_move-IsGood K M (self i) a s i w r (apart i) at_i e g
    Step-IsGood (exits s value r e) g = exit_move-IsGood value a s s.stage r refl e g

    pub Reach-IsGood : {s t : System K M} → IsGood K M s → Reach K M a self s t → IsGood K M t
    Reach-IsGood g start = g
    Reach-IsGood g (next r st) = Step-IsGood st (Reach-IsGood g r)
