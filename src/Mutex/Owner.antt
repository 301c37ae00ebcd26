-- ===== src/Mutex/Owner.antt =====
-- What an error-checking mutex of src/posix_pthread_mutex.c promises to tasks that try to lock it and
-- unlock it: who owns it, and what each call returns. The kernel's mutex is forgotten.
use libposix.Prelude.{
  ℕ, ◌*◌, ◌/◌, ◌^◌, ◌≤◌, ◌<◌, ◌≡◌, refl, ap, ◌∙◌, inl, inr, Option, none, some, true, false, ◌==◌,
  if◌then◌else◌, List, [], ◌∷◌, map, Bool-cases, arith,
}
use libposix.Prelude.Replay.{replay, replay-refines}
use libposix.Prelude.Status.{Ret, ok, errnum, ebusy, edeadlk, eperm}
use libposix.Kernel.{Mutexes}
use libposix.Time.{Platform, nanoseconds_per_tick}
use libposix.Mutex.{
  PthreadMutex, mutex_errorcheck, is_owner, finish_lock, pthread_mutex_trylock,
  pthread_mutex_unlock,
}
use mathlib.Core.Path.{subst}
use libposix.Mutex.Locking.{pthread_mutex_trylock-held, lock_ticks-zero}

-- A call by a task.
pub data Call : Type 0 where
  tries : ℕ → Call
  unlocks : ℕ → Call

-- What the call is to return, and the owner afterwards: `pthread_mutex_trylock` fails immediately if the
-- mutex is already locked.
unfoldable pub serve : Call → Option ℕ → Ret × Option ℕ
serve (tries cur) none = (ok, some cur)
serve (tries cur) (some owner) = (errnum (if owner == cur then edeadlk else ebusy), some owner)
serve (unlocks cur) none = (errnum eperm, none)
serve (unlocks cur) (some owner) = if owner == cur then (ok, none) else (errnum eperm, some owner)

-- The code does not report that another task has the mutex.
abbrev pub unreported : Ret → Ret
unreported (errnum ebusy) = ok
unreported r = r

-- The same with that failure unreported.
abbrev lenient : Call → Option ℕ → Ret × Option ℕ
lenient c owner = (unreported (serve c owner).0, (serve c owner).1)

replay-lenient :
    (cs : List Call) (owner : Option ℕ)
    → ((replay lenient cs owner).0 ≡ map unreported (replay serve cs owner).0)
      × ((replay lenient cs owner).1 ≡ (replay serve cs owner).1)
replay-lenient [] owner = (refl, refl)
replay-lenient (c ∷ cs) owner =
    let rest = replay-lenient cs (serve c owner).1 in
    (ap (λ rs. unreported (serve c owner).0 ∷ rs) rest.0, rest.1)

module _ (K : Mutexes) where
  open K use {Mut, own, mut_lock, mut_unlock}

  module _ (p : Platform) (now unset : ℕ) where
    -- The same call of the code.
    unfoldable pub call : Call → PthreadMutex K → Ret × PthreadMutex K
    call (tries cur) m = pthread_mutex_trylock K p now unset cur m
    call (unlocks cur) m = pthread_mutex_unlock K cur m

  -- A mutex is free, or its owner has locked it once.
  pub data Held (m : Mut) : Option ℕ → Type 0 where
    free : own m ≡ none → Held m none
    once :
        (task : ℕ) (before : Mut) (t : ℕ)
        → own before ≡ none
        → m ≡ (mut_lock task before t).1
        → Held m (some task)

  -- An initialised error-checking mutex with this owner.
  pub record Serves (m : PthreadMutex K) (owner : Option ℕ) : Type 0 where
    pub init : 0 < m.inited
    pub checks : m.type ≡ mutex_errorcheck
    pub held : Held m.mux owner

  Held-own : (m : Mut) (owner : Option ℕ) → Held m owner → own m ≡ owner
  Held-own m owner (free e) = e
  Held-own m owner (once task before t e f) = ap own f ∙ K.lock-own task before t e

  Held-unlock : (m : Mut) (task : ℕ) → Held m (some task) → own (mut_unlock m) ≡ none
  Held-unlock m task (once _ before t e f) =
      ap (λ x. own (mut_unlock x)) f ∙ K.own-mut_unlock task before t e

  module _ (p : Platform) (now unset : ℕ) (range : now < 2 ^ 32)
      (fit : now * nanoseconds_per_tick p / 1000000000 ≤ p.time_max) where
    -- One call: the same reply, and the mutex serves the owner that there is then.
    abbrev Agrees : Call → PthreadMutex K → Option ℕ → Type 0
    Agrees c m owner =
        ((call p now unset c m).0 ≡ (lenient c owner).0)
        × Serves (call p now unset c m).1 (lenient c owner).1

    tries_free :
        (cur : ℕ) (m : PthreadMutex K)
        → Serves m none
        → pthread_mutex_trylock K p now unset cur m
          ≡ (ok, record m { mux = (mut_lock cur m.mux 0).1 })
    unfolding pthread_mutex_trylock finish_lock
    tries_free cur m s =
        rw (lock_ticks-zero p now unset range fit)
          (rw (Held-own m.mux none s.held) (ground (arith, s.init)))

    tries_own :
        (cur : ℕ) (m : PthreadMutex K)
        → Serves m (some cur)
        → pthread_mutex_trylock K p now unset cur m ≡ (errnum edeadlk, m)
    unfolding pthread_mutex_trylock finish_lock
    tries_own cur m s =
        rw (lock_ticks-zero p now unset range fit)
          (rw (Held-own m.mux (some cur) s.held) (ground (arith, s.init, s.checks)))

    tries-Agrees :
        (cur : ℕ) (m : PthreadMutex K) (owner : Option ℕ)
        → Serves m owner
        → Agrees (tries cur) m owner
    unfolding call serve
    tries-Agrees cur m none s = rw (tries_free cur m s) (
      refl,
      record {
        init = s.init;
        checks = s.checks;
        held = once cur m.mux 0 (Held-own m.mux none s.held) refl;
      },
    )
    tries-Agrees cur m (some owner) s = elim (Bool-cases (owner == cur)) [
      | inl same ↦
          let e : owner ≡ cur = ground (arith, same) in
          let own_ : Serves m (some cur) = subst (λ o. Serves m (some o)) e s in
          rw (tries_own cur m own_, same) (refl, s)
      | inr other ↦
          let held =
            pthread_mutex_trylock-held K p now unset cur owner m range fit s.init
              (Held-own m.mux (some owner) s.held) (ground (arith, other)) in
          rw (held, other) (refl, s)
    ]

    unlocks_refused :
        (cur : ℕ) (m : PthreadMutex K) (owner : Option ℕ)
        → Serves m owner
        → is_owner owner cur ≡ false
        → pthread_mutex_unlock K cur m ≡ (errnum eperm, m)
    unfolding pthread_mutex_unlock
    unlocks_refused cur m owner s other =
        rw (Held-own m.mux owner s.held, other) (ground (arith, s.init, s.checks))

    unlocks_own :
        (cur : ℕ) (m : PthreadMutex K) (owner : ℕ)
        → Serves m (some owner)
        → (owner == cur) ≡ true
        → pthread_mutex_unlock K cur m ≡ (ok, record m { mux = mut_unlock m.mux })
    unfolding pthread_mutex_unlock
    unlocks_own cur m owner s same =
        rw (Held-own m.mux (some owner) s.held, same) (ground (arith, s.init, s.checks))

    unlocks-Agrees :
        (cur : ℕ) (m : PthreadMutex K) (owner : Option ℕ)
        → Serves m owner
        → Agrees (unlocks cur) m owner
    unfolding call serve
    unlocks-Agrees cur m none s = rw (unlocks_refused cur m none s refl) (refl, s)
    unlocks-Agrees cur m (some owner) s = elim (Bool-cases (owner == cur)) [
      | inl same ↦
          rw (unlocks_own cur m owner s same, same)
            (
              refl,
              record {
                init = s.init;
                checks = s.checks;
                held = free (Held-unlock m.mux owner s.held);
              },
            )
      | inr other ↦ rw (unlocks_refused cur m (some owner) s other, other) (refl, s)
    ]

    call-Agrees :
        (c : Call) (m : PthreadMutex K) (owner : Option ℕ) → Serves m owner → Agrees c m owner
    call-Agrees (tries cur) = tries-Agrees cur
    call-Agrees (unlocks cur) = unlocks-Agrees cur

    -- For any sequence of `pthread_mutex_trylock` and `pthread_mutex_unlock` by any tasks on an
    -- initialised error-checking mutex, with the clock within range: the kernel's mutex has the owner in
    -- the end that it is to have, and the replies are those that are promised of the owners, but for
    -- one: where `pthread_mutex_trylock` fails with EBUSY since another task has the mutex, the code
    -- leaves the mutex alone as well but returns 0, against the comment in include/pthread.h that it
    -- fails immediately.
    pub replay-call-serve :
        (cs : List Call) (m : PthreadMutex K) (owner : Option ℕ)
        → Serves m owner
        → ((replay (call p now unset) cs m).0 ≡ map unreported (replay serve cs owner).0)
          × (own (replay (call p now unset) cs m).1.mux ≡ (replay serve cs owner).1)
    replay-call-serve cs m owner s =
        let (replies, last) =
          replay-refines (call p now unset) lenient Serves call-Agrees cs m owner s in
        let same = replay-lenient cs owner in (replies ∙ same.0, Held-own _ _ last.held ∙ same.1)
