-- ===== src/Pthread/Twice.antt =====
-- src/posix_pthread.c: two calls of `pthread_join` on one thread.
use libposix.Prelude.{
  ℕ, suc, ◌<◌, ◌≡◌, refl, none, some, false, true, [], ◌∷◌, lt→ltb, get_elem?, arith,
}
use libposix.Prelude.Counting.{replicate}
use libposix.Prelude.Status.{ok}
use libposix.Kernel.{Semaphores, Mutexes}
use libposix.Attributes.{PthreadAttr, status_joinable}
use libposix.Pthread.{PthreadInternal, pthread_equal}
use libposix.Pthread.Lifetime.{made_joinable, made_lem}
use libposix.Pthread.Schedule.{
  calling, locked, taken, posted, unlocked, stored, stackless, returned, running, exiting, waiting,
  join_move, exit_move, System, joins, exits, Reach, start, next, fresh,
}

module _ (K : Semaphores) (M : Mutexes) where
  open K use {val, sem_get, sem_post, wait}
  open M use {own, mut_lock, mut_unlock}

  module _ (a : ℕ) (self : ℕ → ℕ) (apart : (i : ℕ) → pthread_equal (self i) a ≡ false) where
    lock_move :
        (i : ℕ) (t : PthreadInternal K M)
        → status_joinable t.attr.status ≡ true
        → own t.mux ≡ none
        → join_move K M i (self i) a t calling
          ≡ some (record t { mux = (mut_lock i t.mux 0).1 }, [], locked)
    unfolding join_move
    lock_move i t joinable free = rw (joinable, M.lock-taken i t.mux 0 free, apart i) refl

    take_move :
        (i : ℕ) (t : PthreadInternal K M)
        → 0 < val t.barrier
        → join_move K M i (self i) a t locked
          ≡ some (record t { barrier = (sem_get t.barrier wait).1 }, [], taken)
    unfolding join_move
    take_move i t h = rw (lt→ltb 0 _ h) refl

    post_move :
        (value : ℕ) (t : PthreadInternal K M)
        → status_joinable t.attr.status ≡ true
        → exit_move K M value a t exiting
          ≡ some (record t { barrier = sem_post t.barrier }, [], waiting)
    unfolding exit_move
    post_move value t joinable = rw joinable refl

    abbrev first_passed : PthreadInternal K M → PthreadInternal K M
    first_passed t = record t {
      barrier = (sem_get t.barrier wait).1;
      joined = sem_post t.joined;
      mux = mut_unlock (mut_lock 0 t.mux 0).1;
    }

    abbrev begun : ℕ → PthreadInternal K M → System K M
    begun k t = record {
      thread = t;
      freed = [];
      stage = running;
      calls = calling ∷ calling ∷ replicate k calling;
    }

    run_first :
        (k : ℕ) (t : PthreadInternal K M)
        → status_joinable t.attr.status ≡ true
        → own t.mux ≡ none
        → 0 < val t.barrier
        → Reach K M a self (begun k t) (record {
          thread = first_passed t;
          freed = [];
          stage = running;
          calls = unlocked ∷ calling ∷ replicate k calling;
        })
    unfolding join_move
    run_first k t joinable free h =
        let t1 : PthreadInternal K M = record t { mux = (mut_lock 0 t.mux 0).1 } in
        let r1 = next start (joins (begun k t) 0 calling _ refl (lock_move 0 t joinable free)) in
        let r2 = next r1 (joins _ 0 locked _ refl (take_move 0 t1 h)) in
        let r3 = next r2 (joins _ 0 taken _ refl refl) in next r3 (joins _ 0 posted _ refl refl)

    -- The thread has ended, and the second call has locked, waited and unlocked as well.
    abbrev second_passed : ℕ → PthreadInternal K M → PthreadInternal K M
    second_passed value t = record t {
      ret = value;
      barrier = (sem_get (sem_post t.barrier) wait).1;
      joined = sem_post t.joined;
      mux = mut_unlock (mut_lock 1 t.mux 0).1;
    }

    run_second :
        (k value : ℕ) (s : System K M) (t : PthreadInternal K M)
        → status_joinable t.attr.status ≡ true
        → own t.mux ≡ none
        → Reach K M a self s (record {
          thread = t;
          freed = [];
          stage = running;
          calls = unlocked ∷ calling ∷ replicate k calling;
        })
        → Reach K M a self s (record {
          thread = second_passed value t;
          freed = [];
          stage = waiting;
          calls = unlocked ∷ unlocked ∷ replicate k calling;
        })
    unfolding join_move exit_move
    run_second k value s t joinable free r =
        let t1 : PthreadInternal K M = record t { ret = value } in
        let t2 : PthreadInternal K M = record t1 { barrier = sem_post t.barrier } in
        let t3 : PthreadInternal K M = record t2 { mux = (mut_lock 1 t.mux 0).1 } in
        let open_ : 0 < val t2.barrier = omega (arith, K.val-sem_post t.barrier) in
        let r1 = next r (exits _ value _ refl) in
        let r2 = next r1 (exits _ value _ (post_move value t1 joinable)) in
        let r3 = next r2 (joins _ 1 calling _ refl (lock_move 1 t2 joinable free)) in
        let r4 = next r3 (joins _ 1 locked _ refl (take_move 1 t3 open_)) in
        let r5 = next r4 (joins _ 1 taken _ refl refl) in next r5 (joins _ 1 posted _ refl refl)

    -- Each of the two gives the stack back before either gives back the structure.
    run_frees :
        (k : ℕ) (s : System K M) (t : PthreadInternal K M)
        → Reach K M a self s (record {
          thread = t;
          freed = [];
          stage = waiting;
          calls = unlocked ∷ unlocked ∷ replicate k calling;
        })
        → Reach K M a self s (record {
          thread = t;
          freed = t.stack ∷ t.stack ∷ a ∷ a ∷ [];
          stage = waiting;
          calls = returned ok (some t.ret) ∷ returned ok (some t.ret) ∷ replicate k calling;
        })
    unfolding join_move
    run_frees k s t r =
        let r1 = next r (joins _ 0 unlocked _ refl refl) in
        let r2 = next r1 (joins _ 1 unlocked _ refl refl) in
        let r3 = next r2 (joins _ 0 (stored t.ret) _ refl refl) in
        let r4 = next r3 (joins _ 1 (stored t.ret) _ refl refl) in
        let r5 = next r4 (joins _ 0 (stackless t.ret) _ refl refl) in
        next r5 (joins _ 1 (stackless t.ret) _ refl refl)

    -- However many threads, two or more, join a joinable thread that was just created, an interleaving
    -- of two of their calls with the end of the thread is reached in which both calls have returned 0
    -- with the thread's return value, and its stack and its structure were each given back twice, the
    -- stack while neither call had given back the structure.
    pub Reach-twice :
        (k value : ℕ) (zero : PthreadInternal K M) (attr : PthreadAttr) (stack : ℕ)
        → status_joinable attr.status ≡ true
        → (t : System K M) × Reach K M a self (fresh K M (suc (suc k)) zero attr stack) t
          × (t.freed ≡ stack ∷ stack ∷ a ∷ a ∷ [])
          × (get_elem? t.calls 0 ≡ some (returned ok (some value)))
          × (get_elem? t.calls 1 ≡ some (returned ok (some value)))
    Reach-twice k value zero attr stack joinable =
        let t : PthreadInternal K M = made_joinable K M zero attr stack in
        let t' : PthreadInternal K M = first_passed t in
        let first = run_first k t joinable M.own-mut_init (rw (K.val-sem_init 1) (omega arith)) in
        let second =
          run_second k value (begun k t) t' joinable
            (M.own-mut_unlock 0 M.mut_init 0 M.own-mut_init) first in
        let both = run_frees k (begun k t) (second_passed value t') second in
        rw (made_lem K M zero attr stack joinable) (_, both, refl, refl, refl)
