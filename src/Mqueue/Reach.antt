-- ===== src/Mqueue/Reach.antt =====
-- The calls of src/posix_mqueue.c in any order, and the list of queues that they leave.
use libposix.Prelude.{
  ℕ, ◌≡◌, refl, ap, ◌∙◌, ◌⊎◌, inl, inr, Option, none, some, Bool, true, false, or_else, ltb, List,
  [], Bool-cases, arith,
}
use libposix.Prelude.Status.{Ret, fail, ebadf}
use libposix.Kernel.{Queues}
use libposix.Time.{Timespec, Platform}
use libposix.Mqueue.{def_attr, Flags, Attr, validate_name}
use libposix.Mqueue.State.{State, lock, mq_check_init, mq_extract_locked, mq_find_locked}
use libposix.Mqueue.Close.{mq_close, mq_getattr, mq_unlink}
use libposix.Mqueue.Open.{mq_open, open_found, create}
use libposix.Mqueue.Transfer.{
  mq_timedreceive, mq_timedsend, prepare, checks, finish_send, finish_receive,
}

module _ (K : Queues) where
  open K use {elems, ll_init}

  -- A call of the interface, with what the allocator and the clock answer.
  pub data Call : Type 0 where
    opens : List ℕ → Flags → Option Attr → Option ℕ → Option ℕ → Call
    closes : ℕ → Call
    getattrs : ℕ → Call
    unlinks : List ℕ → Call
    receives : Platform → ℕ → ℕ → ℕ → ℕ → Option Timespec → Call
    sends : Platform → ℕ → ℕ → ℕ → List ℕ → ℕ → Option Timespec → Call

  unfoldable pub step : State K → Call → State K
  step s (opens name oflag attr am ab) = (mq_open K name oflag attr am ab s).1
  step s (closes mqd) = (mq_close K mqd s).1
  step s (getattrs mqd) = (mq_getattr K mqd s).2
  step s (unlinks name) = (mq_unlink K name s).1
  step s (receives p now mqd ptr len t) = (mq_timedreceive K p now mqd ptr len t s).2
  step s (sends p now mqd ptr msg len t) = (mq_timedsend K p now mqd ptr msg len t s).1

  -- The states after some calls.
  pub data Reach (s : State K) : State K → Type 0 where
    start : Reach s s
    next : {t : State K} (c : Call) → Reach s t → Reach s (step t c)

  -- The list has not been set up yet, or it is empty.
  abbrev pub Unlisted : State K → Type 0
  Unlisted s = (s.inited ≡ false) ⊎ (elems s.allq ≡ [])

  pub check_empty : (s : State K) → Unlisted s → elems (mq_check_init K s).allq ≡ []
  unfolding mq_check_init
  check_empty s (inl e) = rw e K.elems-ll_init
  check_empty s (inr e) = elim (Bool-cases s.inited) [
    | inl yes_ ↦ rw yes_ e
    | inr no_ ↦ rw no_ K.elems-ll_init
  ]

  pub extract_empty : (mqd : ℕ) (s : State K) → elems s.allq ≡ [] → mq_extract_locked K mqd s ≡ none
  unfolding mq_extract_locked
  extract_empty mqd s e = rw e

  pub find_empty :
      (name : List ℕ) (s : State K) → elems s.allq ≡ [] → mq_find_locked K name s ≡ none
  unfolding mq_find_locked
  find_empty name s e = rw e

  -- What a call that fails on an empty list leaves.
  record Fails (ret : Ret) (s : State K) : Type 0 where
    failed : ret ≡ fail
    bad : s.errno ≡ some ebadf
    empty : elems s.allq ≡ []

  close_lem : (mqd : ℕ) (s : State K) → Unlisted s → Fails (mq_close K mqd s).0 (mq_close K mqd s).1
  unfolding mq_close
  close_lem mqd s u =
      let e = check_empty s u in
      rw (extract_empty mqd (lock K (mq_check_init K s)) e, mq_close)
        (record { failed = refl; bad = refl; empty = e })

  getattr_lem :
      (mqd : ℕ) (s : State K) → Unlisted s → Fails (mq_getattr K mqd s).0 (mq_getattr K mqd s).2
  unfolding mq_getattr
  getattr_lem mqd s u =
      let e = check_empty s u in
      rw (extract_empty mqd (lock K (mq_check_init K s)) e, mq_getattr)
        (record { failed = refl; bad = refl; empty = e })

  unlink_lem :
      (name : List ℕ) (s : State K)
      → Unlisted s
      → ((mq_unlink K name s).0 ≡ fail) × (elems (mq_unlink K name s).1.allq ≡ [])
  unfolding mq_unlink
  unlink_lem name s u =
      let e = check_empty s u in
      elim (Bool-cases (validate_name name)) [
        | inl valid ↦
            rw (valid, mq_unlink)
              (rw (find_empty name (lock K (mq_check_init K s)) e, mq_unlink) (refl, e))
        | inr invalid ↦ rw (invalid, mq_unlink) (refl, e)
      ]

  create_list :
      (name : List ℕ) (oflag : Flags) (attr : Attr) (am ab : Option ℕ) (s : State K)
      → ((create K name oflag attr am ab s).1.allq ≡ s.allq)
        × ((create K name oflag attr am ab s).1.inited ≡ s.inited)
  unfolding create
  create_list name oflag attr none ab s = (refl, refl)
  create_list name oflag attr (some a) none s = (refl, refl)
  create_list name oflag attr (some a) (some b) s = (refl, refl)

  open_found_list :
      (name : List ℕ) (oflag : Flags) (attr : Option Attr) (am ab : Option ℕ) (s : State K)
      (found : Option ℕ)
      → ((open_found K name oflag attr am ab s found).1.allq ≡ s.allq)
        × ((open_found K name oflag attr am ab s found).1.inited ≡ s.inited)
  unfolding open_found
  open_found_list name oflag attr am ab s none =
      ground (arith, create_list name oflag (or_else attr def_attr) am ab s)
  open_found_list name oflag attr am ab s (some a) = ground arith

  check_inited : (s : State K) → (mq_check_init K s).inited ≡ true
  unfolding mq_check_init
  check_inited s = ground arith

  open_lem :
      (name : List ℕ) (oflag : Flags) (attr : Option Attr) (am ab : Option ℕ) (s : State K)
      → ((mq_open K name oflag attr am ab s).1.allq ≡ (mq_check_init K s).allq)
        × ((mq_open K name oflag attr am ab s).1.inited ≡ true)
  unfolding mq_open
  open_lem name oflag attr am ab s =
      let s1 = lock K (mq_check_init K s) in
      ground
        (arith, check_inited s, open_found_list name oflag attr am ab s1 (mq_find_locked K name s1))

  checks_list :
      (bad : ℕ → Bool) (p : Platform) (now ptr : ℕ) (t : Option Timespec) (s : State K)
      (found : Option ℕ)
      → ((checks K bad p now ptr t s found).1.allq ≡ s.allq)
        × ((checks K bad p now ptr t s found).1.inited ≡ s.inited)
  unfolding checks
  checks_list bad p now ptr t s none = (refl, refl)
  checks_list bad p now ptr t s (some a) = ground arith

  prepare_list :
      (bad : ℕ → Bool) (p : Platform) (now mqd ptr : ℕ) (t : Option Timespec) (s : State K)
      → ((prepare K bad p now mqd ptr t s).1.allq ≡ s.allq)
        × ((prepare K bad p now mqd ptr t s).1.inited ≡ s.inited)
  unfolding prepare
  prepare_list bad p now mqd ptr t s =
      checks_list bad p now ptr t (lock K s) (mq_extract_locked K mqd (lock K s))

  receive_list :
      (r : Option (ℕ × ℕ) × State K)
      → ((finish_receive K r).2.allq ≡ r.1.allq) × ((finish_receive K r).2.inited ≡ r.1.inited)
  unfolding finish_receive
  receive_list (none, s) = (refl, refl)
  receive_list (some (a, timeout), s) = ground arith

  send_list :
      (msg : List ℕ) (r : Option (ℕ × ℕ) × State K)
      → ((finish_send K msg r).1.allq ≡ r.1.allq) × ((finish_send K msg r).1.inited ≡ r.1.inited)
  unfolding finish_send
  send_list msg (none, s) = (refl, refl)
  send_list msg (some (a, timeout), s) = ground arith

  receives_list :
      (p : Platform) (now mqd ptr len : ℕ) (t : Option Timespec) (s : State K)
      → ((mq_timedreceive K p now mqd ptr len t s).2.allq ≡ s.allq)
        × ((mq_timedreceive K p now mqd ptr len t s).2.inited ≡ s.inited)
  unfolding mq_timedreceive
  receives_list p now mqd ptr len t s =
      let before = prepare_list (λ size. ltb len size) p now mqd ptr t s in
      let after = receive_list (prepare K (λ size. ltb len size) p now mqd ptr t s) in
      (after.0 ∙ before.0, after.1 ∙ before.1)

  sends_list :
      (p : Platform) (now mqd ptr : ℕ) (msg : List ℕ) (len : ℕ) (t : Option Timespec) (s : State K)
      → ((mq_timedsend K p now mqd ptr msg len t s).1.allq ≡ s.allq)
        × ((mq_timedsend K p now mqd ptr msg len t s).1.inited ≡ s.inited)
  unfolding mq_timedsend
  sends_list p now mqd ptr msg len t s =
      let before = prepare_list (λ size. ltb size len) p now mqd ptr t s in
      let after = send_list msg (prepare K (λ size. ltb size len) p now mqd ptr t s) in
      (after.0 ∙ before.0, after.1 ∙ before.1)

  same_list : (s t : State K) → t.allq ≡ s.allq → t.inited ≡ s.inited → Unlisted s → Unlisted t
  same_list s t e f (inl u) = inl (f ∙ u)
  same_list s t e f (inr u) = inr (ap elems e ∙ u)

  step-Unlisted : (s : State K) (c : Call) → Unlisted s → Unlisted (step s c)
  unfolding step
  step-Unlisted s (opens name oflag attr am ab) u =
      inr (ap elems (open_lem name oflag attr am ab s).0 ∙ check_empty s u)
  step-Unlisted s (closes mqd) u = inr (close_lem mqd s u).empty
  step-Unlisted s (getattrs mqd) u = inr (getattr_lem mqd s u).empty
  step-Unlisted s (unlinks name) u = inr (unlink_lem name s u).1
  step-Unlisted s (receives p now mqd ptr len t) u =
      let e = receives_list p now mqd ptr len t s in
      same_list s (mq_timedreceive K p now mqd ptr len t s).2 e.0 e.1 u
  step-Unlisted s (sends p now mqd ptr msg len t) u =
      let e = sends_list p now mqd ptr msg len t s in
      same_list s (mq_timedsend K p now mqd ptr msg len t s).1 e.0 e.1 u

  pub Reach-Unlisted : {s t : State K} → s.inited ≡ false → Reach s t → Unlisted t
  Reach-Unlisted e start = inl e
  Reach-Unlisted e (next c r) = step-Unlisted _ c (Reach-Unlisted e r)

  -- After any calls from a state that has not been set up, whatever queues were opened with O_CREAT,
  -- `mq_close` and `mq_getattr` return -1 with errno EBADF for every descriptor, and `mq_unlink`
  -- returns -1 for every name.
  pub Reach-no_descriptor :
      (s t : State K)
      → s.inited ≡ false
      → Reach s t
      → (mqd : ℕ) (name : List ℕ)
      → ((mq_close K mqd t).0 ≡ fail)
        × ((mq_close K mqd t).1.errno ≡ some ebadf)
        × ((mq_getattr K mqd t).0 ≡ fail)
        × ((mq_getattr K mqd t).2.errno ≡ some ebadf)
        × ((mq_unlink K name t).0 ≡ fail)
  Reach-no_descriptor s t e r mqd name =
      let u = Reach-Unlisted e r in
      let c = close_lem mqd t u in
      let g = getattr_lem mqd t u in (c.failed, c.bad, g.failed, g.bad, (unlink_lem name t u).0)
