-- ===== src/Semaphore/Counter.antt =====
-- What a semaphore of src/posix_semaphore.c promises to calls that do not wait: a number, and errno of
-- the caller. The kernel's semaphore is forgotten.
use libposix.Prelude.{
  ℕ, suc, ◌+◌, ◌-◌, ◌*◌, ◌/◌, ◌^◌, ◌≤◌, ◌<◌, ◌≡◌, refl, ◌⊎◌, inl, inr, some, false, ◌==◌,
  if◌then◌else◌, List, Bool-cases, arith,
}
use mathlib.Core.Path.{subst}
use libposix.Prelude.Replay.{replay, AllAlong, replay-refines_allowed}
use libposix.Prelude.Int.{ℤ, pos, int32, ◌<ℤ◌}
use libposix.Prelude.Status.{Ret, ok, fail, einval, etimedout, eagain}
use libposix.Kernel.{Semaphores}
use libposix.Time.{Timespec, Platform, IsValid, nanos, nanoseconds_per_tick}
use libposix.Utils.{validate_timespec}
use libposix.Clock.{Thread, set_errno, zero_time}
use libposix.Clock.Due.{IsValid-validate}
use libposix.Semaphore.{sem_trywait, sem_timedwait, sem_getvalue}
use libposix.Semaphore.Waiting.{
  sem_timedwait-available, sem_timedwait-invalid, sem_timedwait-past, sem_trywait-empty,
}

-- `sem_post` is the kernel's.
pub data Call : Type 0 where
  tries : Call
  waits_until : Timespec → Call
  posts : Call
  reads : Call

pub data Reply : Type 0 where
  returned : Ret → Reply
  posted : Reply
  value : ℤ → Reply

-- With nothing to take, a valid deadline is reported as passed.
unfoldable pub count : Call → ℕ × Thread → Reply × (ℕ × Thread)
count tries (v, th) =
    if v == 0 then (returned fail, (0, set_errno eagain th)) else (returned ok, (v - 1, th))
count (waits_until t) (v, th) =
    if v == 0
    then (
      returned fail,
      (0, set_errno (if validate_timespec (some t) then etimedout else einval) th),
    )
    else (returned ok, (v - 1, th))
count posts (v, th) = (posted, (v + 1, th))
count reads (v, th) = (value (int32 (pos v)), (v, th))

module _ (K : Semaphores) where
  open K use {Sem, sem_post, val}

  abbrev pub with_ret : Ret × Thread × Sem → Reply × (Sem × Thread)
  with_ret r = (returned r.0, (r.2, r.1))

  module _ (p : Platform) (now : ℕ) where
    -- The same call of the code.
    unfoldable pub call : Call → Sem × Thread → Reply × (Sem × Thread)
    call tries (s, th) = with_ret (sem_trywait K p now s th)
    call (waits_until t) (s, th) = with_ret (sem_timedwait K p now s (some t) th)
    call posts (s, th) = (posted, (sem_post s, th))
    call reads (s, th) = (value (sem_getvalue K s).1, (s, th))

    -- A deadline that nobody waits for: it is invalid, or it has passed.
    abbrev pub IsDue : Call → ℕ × Thread → Type 0
    IsDue (waits_until t) state =
        (validate_timespec (some t) ≡ false)
        ⊎ (IsValid t × (nanos t <ℤ pos (now * nanoseconds_per_tick p)))
    IsDue _ state = Unit

  abbrev pub Holds : Sem × Thread → ℕ × Thread → Type 0
  Holds s c = (val s.0 ≡ c.0) × (s.1 ≡ c.1)

  module _ (p : Platform) (now : ℕ) (range : now < 2 ^ 32)
      (fit : now * nanoseconds_per_tick p / 1000000000 ≤ p.time_max) where
    abbrev Agrees : Call → Sem × Thread → ℕ × Thread → Type 0
    Agrees c s v = ((call p now c s).0 ≡ (count c v).0) × Holds (call p now c s).1 (count c v).1

    tries_available :
        (s : Sem) (th : Thread)
        → 0 < val s
        → (s' : Sem) × (sem_trywait K p now s th ≡ (ok, th, s')) × (suc (val s') ≡ val s)
    unfolding sem_trywait
    tries_available s th h =
        let (s', e, less) = sem_timedwait-available K p now s (some zero_time) th h in
        (s', rw e refl, less)

    call_here :
        (c : Call) (s : Sem) (th : Thread)
        → IsDue p now c (val s, th)
        → Agrees c (s, th) (val s, th)
    unfolding call count sem_getvalue
    call_here tries s th due = elim (Bool-cases (val s == 0)) [
      | inl none_ ↦
          let zero_ : val s ≡ 0 = ground (arith, none_) in
          rw (sem_trywait-empty K p now s th range fit zero_, none_) (refl, (zero_, refl))
      | inr some_ ↦
          let (s', e, less) = tries_available s th (ground (arith, some_)) in
          rw (e, some_) (refl, (omega (arith, less), refl))
    ]
    call_here (waits_until t) s th due = elim (Bool-cases (val s == 0)) [
      | inl none_ ↦
          let zero_ : val s ≡ 0 = ground (arith, none_) in
          elim due [
            | inl invalid ↦
                rw (sem_timedwait-invalid K p now s t th zero_ invalid, none_, invalid)
                  (refl, (zero_, refl))
            | inr (valid, lt) ↦
                rw
                  (
                    sem_timedwait-past K p now s t th range fit zero_ valid lt,
                    none_,
                    IsValid-validate t valid,
                  )
                  (refl, (zero_, refl))
          ]
      | inr some_ ↦
          let (s', e, less) =
            sem_timedwait-available K p now s (some t) th (ground (arith, some_)) in
          rw (e, some_) (refl, (omega (arith, less), refl))
    ]
    call_here posts s th due = (refl, (omega (arith, K.val-sem_post s), refl))
    call_here reads s th due = (refl, (refl, refl))

    call-Holds :
        (c : Call) (s : Sem × Thread) (v : ℕ × Thread) → Holds s v → IsDue p now c v → Agrees c s v
    call-Holds c (s, th) (v, th') (same, same') due =
        let pair : (val s, th) ≡ (v, th') = rw (same, same') refl in
        subst (λ w. IsDue p now c w → Agrees c (s, th) w) pair (call_here c s th) due

    -- The replies to any sequence of `sem_trywait`, `sem_getvalue`, posts, and `sem_timedwait` with a
    -- deadline that is invalid or has passed, are those of a number that is counted up and down and
    -- never below 0, which `sem_getvalue` reads as an int, with EAGAIN, EINVAL and ETIMEDOUT in errno
    -- for the three ways to find it 0; and the kernel's semaphore has that number in the end.
    pub replay-call-count :
        (cs : List Call) (s : Sem) (th : Thread)
        → AllAlong (IsDue p now) count cs (val s, th)
        → let r = replay (call p now) cs (s, th) in
          let c = replay count cs (val s, th) in (r.0 ≡ c.0) × (val r.1.0 ≡ c.1.0) × (r.1.1 ≡ c.1.1)
    replay-call-count cs s th due =
        let (replies, last) =
          replay-refines_allowed (call p now) count Holds (IsDue p now) call-Holds cs (s, th)
            (val s, th) (refl, refl) due in
        (replies, last.0, last.1)
