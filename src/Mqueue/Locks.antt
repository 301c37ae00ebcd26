-- ===== src/Mqueue/Locks.antt =====
-- The static mutex of src/posix_mqueue.c, which every call is to leave as it found it.
use libposix.Prelude.{
  ℕ, suc, ◌+◌, ◌≤◌, ◌≡◌, refl, Option, none, some, or_else, ltb, Bool, true, false, List,
  Bool-cases, Option-cases, inl, inr, arith,
}
use libposix.Kernel.{Queues}
use libposix.Time.{Timespec, Platform}
use libposix.Mqueue.{def_attr, Flags, Attr, validate_name}
use libposix.Mqueue.State.{
  mq_free, State, lock, unlock, mq_check_init, mq_extract_locked, mq_find_locked,
}
use libposix.Mqueue.Close.{mq_close, mq_getattr, mq_unlink, close_found, free_if}
use libposix.Mqueue.Open.{mq_open, open_found, create}
use libposix.Mqueue.Transfer.{
  mq_timedreceive, mq_timedsend, prepare, checks, finish_send, finish_receive,
}
use libposix.Mqueue.Reach.{
  Call, opens, closes, getattrs, unlinks, receives, sends, step, Reach, start, next,
}

-- 1 where one of the two results of the allocator is NULL.
abbrev pub lacks : Option ℕ → Option ℕ → ℕ
lacks none alloc_buf = 1
lacks (some a) none = 1
lacks (some a) (some buf) = 0

module _ (K : Queues) where
  -- The calls of `mq_open` whose allocator has no memory.
  abbrev pub is_failed : Call K → ℕ
  is_failed (opens name oflag attr am ab) = lacks am ab
  is_failed _ = 0

  abbrev pub n_failed : {s t : State K} → Reach K s t → ℕ
  n_failed start = 0
  n_failed (next c r) = is_failed c + n_failed r

  check_locks : (s : State K) → (mq_check_init K s).locks ≤ s.locks
  unfolding mq_check_init
  check_locks s = ground arith

  create_locks :
      (name : List ℕ) (oflag : Flags) (attr : Attr) (am ab : Option ℕ) (s : State K) (n : ℕ)
      → s.locks ≡ suc n
      → (create K name oflag attr am ab s).1.locks ≡ n + lacks am ab
  unfolding create
  create_locks name oflag attr none ab s n e = omega (arith, e)
  create_locks name oflag attr (some a) none s n e = omega (arith, e)
  create_locks name oflag attr (some a) (some b) s n e = omega (arith, e)

  open_found_locks :
      (name : List ℕ) (oflag : Flags) (attr : Option Attr) (am ab : Option ℕ) (s : State K) (n : ℕ)
      (found : Option ℕ)
      → s.locks ≡ suc n
      → (open_found K name oflag attr am ab s found).1.locks ≤ n + lacks am ab
  unfolding open_found
  open_found_locks name oflag attr am ab s n none e =
      ground (arith, e, create_locks name oflag (or_else attr def_attr) am ab s n e)
  open_found_locks name oflag attr am ab s n (some a) e = ground (arith, e)

  open_locks :
      (name : List ℕ) (oflag : Flags) (attr : Option Attr) (am ab : Option ℕ) (s : State K)
      → (mq_open K name oflag attr am ab s).1.locks ≤ s.locks + lacks am ab
  unfolding mq_open
  open_locks name oflag attr am ab s =
      let s1 = mq_check_init K s in
      ground (
        arith,
        check_locks s,
        open_found_locks name oflag attr am ab (lock K s1) s1.locks
            (mq_find_locked K name (lock K s1)) (omega arith),
      )

  close_found_locks : (a : ℕ) (s : State K) → (close_found K a s).0.locks ≡ s.locks
  unfolding close_found
  close_found_locks a s = ground arith

  free_if_locks : (removed : Bool) (a : ℕ) (s : State K) → (free_if K removed a s).locks ≡ s.locks
  unfolding mq_free
  free_if_locks true a s = refl
  free_if_locks false a s = refl

  close_locks : (mqd : ℕ) (s : State K) → (mq_close K mqd s).1.locks ≤ s.locks
  unfolding mq_close
  close_locks mqd s =
      let s1 = lock K (mq_check_init K s) in
      elim (Option-cases (mq_extract_locked K mqd s1)) [
        | inl e ↦ rw (e, mq_close) (omega (arith, check_locks s))
        | inr (a, e) ↦
            let r = close_found K a s1 in
            rw (e, mq_close)
              (omega
                (arith, check_locks s, close_found_locks a s1, free_if_locks r.1 a (unlock K r.0)))
      ]

  getattr_locks : (mqd : ℕ) (s : State K) → (mq_getattr K mqd s).2.locks ≤ s.locks
  unfolding mq_getattr
  getattr_locks mqd s = ground (arith, check_locks s)

  unlink_locks : (name : List ℕ) (s : State K) → (mq_unlink K name s).1.locks ≤ s.locks
  unfolding mq_unlink mq_free
  unlink_locks name s =
      let s1 = mq_check_init K s in
      elim (Bool-cases (validate_name name)) [
        | inl valid ↦
            rw (valid, mq_unlink)
              (elim (Option-cases (mq_find_locked K name (lock K s1))) [
                | inl e ↦ rw (e, mq_unlink) (omega (arith, check_locks s))
                | inr (a, e) ↦ rw (e, mq_unlink) (ground (arith, check_locks s))
              ])
        | inr invalid ↦ rw (invalid, mq_unlink) (check_locks s)
      ]

  checks_locks :
      (bad : ℕ → Bool) (p : Platform) (now ptr : ℕ) (t : Option Timespec) (s : State K)
      (found : Option ℕ)
      → (checks K bad p now ptr t s found).1.locks ≡ s.locks
  unfolding checks
  checks_locks bad p now ptr t s none = refl
  checks_locks bad p now ptr t s (some a) = ground arith

  prepare_locks :
      (bad : ℕ → Bool) (p : Platform) (now mqd ptr : ℕ) (t : Option Timespec) (s : State K)
      → (prepare K bad p now mqd ptr t s).1.locks ≡ s.locks
  unfolding prepare
  prepare_locks bad p now mqd ptr t s =
      omega (arith, checks_locks bad p now ptr t (lock K s) (mq_extract_locked K mqd (lock K s)))

  receive_locks : (r : Option (ℕ × ℕ) × State K) → (finish_receive K r).2.locks ≡ r.1.locks
  unfolding finish_receive
  receive_locks (none, s) = refl
  receive_locks (some (a, timeout), s) = ground arith

  send_locks :
      (msg : List ℕ) (r : Option (ℕ × ℕ) × State K) → (finish_send K msg r).1.locks ≡ r.1.locks
  unfolding finish_send
  send_locks msg (none, s) = refl
  send_locks msg (some (a, timeout), s) = ground arith

  pub step_locks : (s : State K) (c : Call K) → (step K s c).locks ≤ s.locks + is_failed c
  unfolding step mq_timedreceive mq_timedsend
  step_locks s (opens name oflag attr am ab) = open_locks name oflag attr am ab s
  step_locks s (closes mqd) = omega (arith, close_locks mqd s)
  step_locks s (getattrs mqd) = omega (arith, getattr_locks mqd s)
  step_locks s (unlinks name) = omega (arith, unlink_locks name s)
  step_locks s (receives p now mqd ptr len t) =
      let r = prepare K (λ size. ltb len size) p now mqd ptr t s in
      omega (arith, receive_locks r, prepare_locks (λ size. ltb len size) p now mqd ptr t s)
  step_locks s (sends p now mqd ptr msg len t) =
      let r = prepare K (λ size. ltb size len) p now mqd ptr t s in
      omega (arith, send_locks msg r, prepare_locks (λ size. ltb size len) p now mqd ptr t s)

  Reach-le : (s t : State K) (r : Reach K s t) → t.locks ≤ s.locks + n_failed r
  Reach-le s t start = omega arith
  Reach-le s t (next {t = u} c r) = omega (arith, Reach-le s u r, step_locks u c)

  -- After any calls from a state in which the list of queues is not locked, it is locked no more often
  -- than there were calls of `mq_open` whose allocator had no memory.
  pub Reach-locks : (s t : State K) → s.locks ≡ 0 → (r : Reach K s t) → t.locks ≤ n_failed r
  Reach-locks s t e r = omega (arith, e, Reach-le s t r)
