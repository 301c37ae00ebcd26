-- ===== src/Mqueue/Leaks.antt =====
-- The memory of the queues that src/posix_mqueue.c creates: since `mq_open` never puts a queue into the
-- list, no call finds it again.
use libposix.Prelude.{
  ℕ, ◌≡◌, refl, ◌∙◌, inl, inr, Option, none, some, Bool, false, or_else, ltb, List, Bool-cases,
  arith,
}
use libposix.Prelude.Status.{fail, ebadf}
use libposix.Kernel.{Queues}
use libposix.Time.{Timespec, Platform}
use libposix.Mqueue.{def_attr, Flags, Attr, validate_name}
use libposix.Mqueue.State.{State, lock, mq_check_init, mq_extract_locked, mq_find_locked}
use libposix.Mqueue.Close.{mq_close, mq_getattr, mq_unlink}
use libposix.Mqueue.Open.{mq_open, open_found, create}
use libposix.Mqueue.Transfer.{
  mq_timedreceive, mq_timedsend, prepare, checks, finish_send, finish_receive,
}
use libposix.Mqueue.Reach.{
  Call, opens, closes, getattrs, unlinks, receives, sends, step, Reach, start, next, Unlisted,
  check_empty, extract_empty, find_empty, Reach-Unlisted, Reach-no_descriptor,
}

module _ (K : Queues) where
  check_freed : (s : State K) → (mq_check_init K s).freed ≡ s.freed
  unfolding mq_check_init
  check_freed s = ground arith

  close_freed : (mqd : ℕ) (s : State K) → Unlisted K s → (mq_close K mqd s).1.freed ≡ s.freed
  unfolding mq_close
  close_freed mqd s u =
      let e = check_empty K s u in
      rw (extract_empty K mqd (lock K (mq_check_init K s)) e, mq_close) (check_freed s)

  getattr_freed : (mqd : ℕ) (s : State K) → (mq_getattr K mqd s).2.freed ≡ s.freed
  unfolding mq_getattr
  getattr_freed mqd s = ground (arith, check_freed s)

  unlink_freed :
      (name : List ℕ) (s : State K) → Unlisted K s → (mq_unlink K name s).1.freed ≡ s.freed
  unfolding mq_unlink
  unlink_freed name s u =
      let e = check_empty K s u in
      elim (Bool-cases (validate_name name)) [
        | inl valid ↦
            rw (valid, mq_unlink)
              (rw (find_empty K name (lock K (mq_check_init K s)) e, mq_unlink) (check_freed s))
        | inr invalid ↦ rw (invalid, mq_unlink) (check_freed s)
      ]

  create_freed :
      (name : List ℕ) (oflag : Flags) (attr : Attr) (am ab : Option ℕ) (s : State K)
      → (create K name oflag attr am ab s).1.freed ≡ s.freed
  unfolding create
  create_freed name oflag attr none ab s = refl
  create_freed name oflag attr (some a) none s = refl
  create_freed name oflag attr (some a) (some b) s = refl

  open_found_freed :
      (name : List ℕ) (oflag : Flags) (attr : Option Attr) (am ab : Option ℕ) (s : State K)
      (found : Option ℕ)
      → (open_found K name oflag attr am ab s found).1.freed ≡ s.freed
  unfolding open_found
  open_found_freed name oflag attr am ab s none =
      ground (arith, create_freed name oflag (or_else attr def_attr) am ab s)
  open_found_freed name oflag attr am ab s (some a) = ground arith

  open_freed :
      (name : List ℕ) (oflag : Flags) (attr : Option Attr) (am ab : Option ℕ) (s : State K)
      → (mq_open K name oflag attr am ab s).1.freed ≡ s.freed
  unfolding mq_open
  open_freed name oflag attr am ab s =
      let s1 = lock K (mq_check_init K s) in
      ground
        (arith, check_freed s, open_found_freed name oflag attr am ab s1 (mq_find_locked K name s1))

  checks_freed :
      (bad : ℕ → Bool) (p : Platform) (now ptr : ℕ) (t : Option Timespec) (s : State K)
      (found : Option ℕ)
      → (checks K bad p now ptr t s found).1.freed ≡ s.freed
  unfolding checks
  checks_freed bad p now ptr t s none = refl
  checks_freed bad p now ptr t s (some a) = ground arith

  prepare_freed :
      (bad : ℕ → Bool) (p : Platform) (now mqd ptr : ℕ) (t : Option Timespec) (s : State K)
      → (prepare K bad p now mqd ptr t s).1.freed ≡ s.freed
  unfolding prepare
  prepare_freed bad p now mqd ptr t s =
      checks_freed bad p now ptr t (lock K s) (mq_extract_locked K mqd (lock K s))

  receive_freed : (r : Option (ℕ × ℕ) × State K) → (finish_receive K r).2.freed ≡ r.1.freed
  unfolding finish_receive
  receive_freed (none, s) = refl
  receive_freed (some (a, timeout), s) = ground arith

  send_freed :
      (msg : List ℕ) (r : Option (ℕ × ℕ) × State K) → (finish_send K msg r).1.freed ≡ r.1.freed
  unfolding finish_send
  send_freed msg (none, s) = refl
  send_freed msg (some (a, timeout), s) = ground arith

  step-freed : (s : State K) (c : Call K) → Unlisted K s → (step K s c).freed ≡ s.freed
  unfolding step mq_timedreceive mq_timedsend
  step-freed s (opens name oflag attr am ab) u = open_freed name oflag attr am ab s
  step-freed s (closes mqd) u = close_freed mqd s u
  step-freed s (getattrs mqd) u = getattr_freed mqd s
  step-freed s (unlinks name) u = unlink_freed name s u
  step-freed s (receives p now mqd ptr len t) u =
      receive_freed (prepare K (λ size. ltb len size) p now mqd ptr t s)
      ∙ prepare_freed (λ size. ltb len size) p now mqd ptr t s
  step-freed s (sends p now mqd ptr msg len t) u =
      send_freed msg (prepare K (λ size. ltb size len) p now mqd ptr t s)
      ∙ prepare_freed (λ size. ltb size len) p now mqd ptr t s

  Reach-freed : {s t : State K} → s.inited ≡ false → Reach K s t → t.freed ≡ s.freed
  Reach-freed e start = refl
  Reach-freed e (next {t = u} c r) = step-freed u c (Reach-Unlisted K e r) ∙ Reach-freed e r

  -- After any calls from a state that has not been set up, whatever queues were opened with O_CREAT,
  -- no memory has been given back, `mq_close` and `mq_getattr` return -1 with errno EBADF for every
  -- descriptor, and `mq_unlink` returns -1 for every name.
  pub Reach-leaks :
      (s t : State K)
      → s.inited ≡ false
      → Reach K s t
      → (mqd : ℕ) (name : List ℕ)
      → (t.freed ≡ s.freed)
        × ((mq_close K mqd t).0 ≡ fail)
        × ((mq_close K mqd t).1.errno ≡ some ebadf)
        × ((mq_getattr K mqd t).0 ≡ fail)
        × ((mq_getattr K mqd t).2.errno ≡ some ebadf)
        × ((mq_unlink K name t).0 ≡ fail)
  Reach-leaks s t e r mqd name =
      let (closes_, bad, gets, bad', unlinks_) = Reach-no_descriptor K s t e r mqd name in
      (Reach-freed e r, closes_, bad, gets, bad', unlinks_)
