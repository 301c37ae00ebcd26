-- ===== src/Cond/Posts.antt =====
-- src/posix_pthread_cond.c: the posts of the semaphore, and the calls of the wait that are woken.
use libposix.Prelude.{
  some-subst, ℕ, ◌+◌, ◌≤◌, ◌≡◌, refl, sym, ◌∙◌, inl, inr, some, ltb, ◌==◌, Bool-cases, arith,
}
use libposix.Prelude.Int.{pos, ltb_ℤ, uint32}
use libposix.Prelude.Counting.{total, total-split, total-replicate_zero}
use libposix.Kernel.{Semaphores, Mutexes}
use libposix.Cond.{
  Cond, add_waiter, drop_waiter, wake_one, pthread_cond_init, pthread_cond_broadcast,
}
use libposix.Cond.Schedule.{
  Sleeper, woken, timed_out, refused, arriving, counted, asleep, expired, returned, Choice,
  proceeds, gives_up, move, System, Step, moves, signals, broadcasts, Reach, start, next, fresh,
}
use libposix.Cond.Broadcast.{is_woken}

module _ (K : Semaphores) (M : Mutexes) where
  open K use {val, sem_get, sem_post, sem_post_n, wait}

  -- A signal posts the semaphore once at most, and a broadcast once for each waiting thread.
  abbrev pub posts_of : {s t : System K M} → Step K M s t → ℕ
  posts_of (moves choice xs ys c c' w w' e) = 0
  posts_of (signals s) = 1
  posts_of (broadcasts s) = uint32 s.cond.waiting

  abbrev pub n_posts : {s t : System K M} → Reach K M s t → ℕ
  n_posts start = 0
  n_posts (next r st) = posts_of st + n_posts r

  -- The posts that are left and the calls that were woken are no more than before.
  abbrev Spends : Cond K M → Sleeper → Cond K M × Sleeper → Type 0
  Spends c w r = val r.0.cond + is_woken r.1 ≤ val c.cond + is_woken w

  move-Spends :
      (choice : Choice) (c c' : Cond K M) (w w' : Sleeper)
      → move K M choice c w ≡ some (c', w')
      → Spends c w (c', w')
  unfolding move
  move-Spends choice c c' arriving w' e =
      some-subst (Spends c arriving) (add_waiter K M c, counted) (c', w') e (omega arith)
  move-Spends (proceeds ticks) c c' counted w' e =
      some-subst (Spends c counted) (c, asleep) (c', w') e (omega arith)
  move-Spends gives_up c c' counted w' e =
      some-subst (Spends c counted) (c, returned refused) (c', w') e (omega arith)
  move-Spends (proceeds ticks) c c' asleep w' e = elim (Bool-cases (ltb 0 (val c.cond))) [
    | inl open_ ↦
        some-subst (Spends c asleep) (record c { cond = (sem_get c.cond ticks).1 }, returned woken)
          (c', w') (sym (rw open_ refl) ∙ e)
          (omega (arith, K.get-val c.cond ticks (ground (arith, open_))))
    | inr shut ↦ absurd (ground (arith, e, shut))
  ]
  move-Spends gives_up c c' asleep w' e = elim (Bool-cases (ltb 0 (val c.cond))) [
    | inl open_ ↦ absurd (ground (arith, e, open_))
    | inr shut ↦
        some-subst (Spends c asleep) (c, expired) (c', w') (sym (rw shut refl) ∙ e) (omega arith)
  ]
  move-Spends choice c c' expired w' e =
      some-subst (Spends c expired) (drop_waiter K M c, returned timed_out) (c', w') e (omega arith)
  move-Spends choice c c' (returned o) w' e = cc

  wake_one-le : (c : Cond K M) → val (wake_one K M c).cond ≤ val c.cond + 1
  unfolding wake_one
  wake_one-le c = elim (Bool-cases (ltb_ℤ (pos 0) c.waiting)) [
    | inl some_ ↦ rw some_ (omega (arith, K.val-sem_post c.cond))
    | inr none_ ↦ rw none_ (omega arith)
  ]

  broadcast-le :
      (c : Cond K M) → val (pthread_cond_broadcast K M c).1.cond ≤ val c.cond + uint32 c.waiting
  unfolding pthread_cond_broadcast
  broadcast-le c = elim (Bool-cases (c.inited == 0)) [
    | inl none_ ↦ rw none_ (omega arith)
    | inr there ↦ rw there (omega (arith, K.val-sem_post_n c.cond (uint32 c.waiting)))
  ]

  -- The posts that are left with the calls that were woken.
  abbrev spent : System K M → ℕ
  spent s = val s.cond.cond + total is_woken s.calls

  Step-le : (s t : System K M) (st : Step K M s t) → spent t ≤ spent s + posts_of st
  Step-le s t (moves choice xs ys c c' w w' e) = omega (
    arith,
    total-split xs ys w is_woken,
    total-split xs ys w' is_woken,
    move-Spends choice c c' w w' e,
  )
  Step-le s t (signals _) = omega (arith, wake_one-le s.cond)
  Step-le s t (broadcasts _) = omega (arith, broadcast-le s.cond)

  Reach-le : (s t : System K M) (r : Reach K M s t) → spent t ≤ spent s + n_posts r
  Reach-le s t start = omega arith
  Reach-le s t (next {t = u} r st) = omega (arith, Reach-le s u r, Step-le u t st)

  -- From `pthread_cond_init`, in any interleaving of any number of calls, the calls that were woken
  -- and the value of the semaphore together are no more than the signals and, for each broadcast,
  -- the number of waiting threads that it found: no call is woken without a post for it.
  pub Reach-posted :
      (k : ℕ) (old : Cond K M) (t : System K M) (r : Reach K M (fresh K M k old) t)
      → total is_woken t.calls + val t.cond.cond ≤ n_posts r
  unfolding pthread_cond_init
  Reach-posted k old t r = omega (
    arith,
    Reach-le (fresh K M k old) t r,
    K.val-sem_init 0,
    total-replicate_zero k arriving is_woken refl,
  )
