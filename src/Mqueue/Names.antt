-- ===== src/Mqueue/Names.antt =====
-- The names that src/posix_mqueue.c copies into the array of a queue, and where it writes beyond it.
use libposix.Prelude.{
  ℕ, ◌≡◌, refl, ◌∙◌, Option, none, some, or_else, ltb, leb, Bool, true, false, ◌&&◌, List, [], ◌∷◌,
  length, Bool-cases, Option-cases, inl, inr, arith,
}
use libposix.Kernel.{Queues}
use libposix.Time.{Timespec, Platform}
use libposix.Mqueue.{def_attr, Flags, Attr, name_sz, validate_name}
use libposix.Mqueue.State.{
  mq_free, State, lock, unlock, mq_check_init, mq_extract_locked, mq_find_locked,
}
use libposix.Mqueue.Close.{mq_close, mq_getattr, mq_unlink, close_found, free_if}
use libposix.Mqueue.Open.{mq_open, open_found, create}
use libposix.Mqueue.Transfer.{
  mq_timedreceive, mq_timedsend, prepare, checks, finish_send, finish_receive,
}
use libposix.Mqueue.Directory.{is_name}
use libposix.Mqueue.Reach.{Call, opens, closes, getattrs, unlinks, receives, sends, step}

-- A queue that may be created has a name, with its terminator, of no more bytes than the array.
abbrev pub Fits : List ℕ → Flags → Type 0
Fits name oflag = (oflag.creat && leb name_sz (length name)) ≡ false

module _ (K : Queues) where
  abbrev pub CallFits : Call K → Type 0
  CallFits (opens name oflag attr am ab) = Fits name oflag
  CallFits _ = Unit

  -- The names of the directory are those that `validate_name` passes.
  pub is_name_lem : (name : List ℕ) → is_name K name ≡ validate_name name
  unfolding is_name validate_name
  is_name_lem [] = refl
  is_name_lem (c ∷ cs) = ground arith

  check_overrun : (s : State K) → (mq_check_init K s).overrun ≡ s.overrun
  unfolding mq_check_init
  check_overrun s = ground arith

  create_overrun :
      (name : List ℕ) (oflag : Flags) (attr : Attr) (am ab : Option ℕ) (s : State K)
      → leb name_sz (length name) ≡ false
      → (create K name oflag attr am ab s).1.overrun ≡ s.overrun
  unfolding create
  create_overrun name oflag attr none ab s h = refl
  create_overrun name oflag attr (some a) none s h = refl
  create_overrun name oflag attr (some a) (some b) s h = ground (arith, h)

  open_found_overrun :
      (name : List ℕ) (oflag : Flags) (attr : Option Attr) (am ab : Option ℕ) (s : State K)
      (found : Option ℕ)
      → Fits name oflag
      → (open_found K name oflag attr am ab s found).1.overrun ≡ s.overrun
  unfolding open_found
  open_found_overrun name oflag attr am ab s none h = elim (Bool-cases oflag.creat) [
    | inl creat ↦
        let one =
          create_overrun name oflag (or_else attr def_attr) am ab s (ground (arith, creat, h)) in
        ground (arith, creat, one)
    | inr plain ↦ ground (arith, plain)
  ]
  open_found_overrun name oflag attr am ab s (some a) h = ground arith

  open_overrun :
      (name : List ℕ) (oflag : Flags) (attr : Option Attr) (am ab : Option ℕ) (s : State K)
      → Fits name oflag
      → (mq_open K name oflag attr am ab s).1.overrun ≡ s.overrun
  unfolding mq_open
  open_overrun name oflag attr am ab s h =
      let s1 = lock K (mq_check_init K s) in
      ground (
        arith,
        check_overrun s,
        open_found_overrun name oflag attr am ab s1 (mq_find_locked K name s1) h,
      )

  close_found_overrun : (a : ℕ) (s : State K) → (close_found K a s).0.overrun ≡ s.overrun
  unfolding close_found
  close_found_overrun a s = ground arith

  free_if_overrun :
      (removed : Bool) (a : ℕ) (s : State K) → (free_if K removed a s).overrun ≡ s.overrun
  unfolding mq_free
  free_if_overrun true a s = refl
  free_if_overrun false a s = refl

  close_overrun : (mqd : ℕ) (s : State K) → (mq_close K mqd s).1.overrun ≡ s.overrun
  unfolding mq_close
  close_overrun mqd s =
      let s1 = lock K (mq_check_init K s) in
      elim (Option-cases (mq_extract_locked K mqd s1)) [
        | inl e ↦ rw (e, mq_close) (check_overrun s)
        | inr (a, e) ↦
            let r = close_found K a s1 in
            rw (e, mq_close)
              (free_if_overrun r.1 a (unlock K r.0) ∙ close_found_overrun a s1 ∙ check_overrun s)
      ]

  getattr_overrun : (mqd : ℕ) (s : State K) → (mq_getattr K mqd s).2.overrun ≡ s.overrun
  unfolding mq_getattr
  getattr_overrun mqd s = ground (arith, check_overrun s)

  unlink_overrun : (name : List ℕ) (s : State K) → (mq_unlink K name s).1.overrun ≡ s.overrun
  unfolding mq_unlink mq_free
  unlink_overrun name s =
      let s1 = mq_check_init K s in
      elim (Bool-cases (validate_name name)) [
        | inl valid ↦
            rw (valid, mq_unlink)
              (elim (Option-cases (mq_find_locked K name (lock K s1))) [
                | inl e ↦ rw (e, mq_unlink) (check_overrun s)
                | inr (a, e) ↦ rw (e, mq_unlink) (ground (arith, check_overrun s))
              ])
        | inr invalid ↦ rw (invalid, mq_unlink) (check_overrun s)
      ]

  checks_overrun :
      (bad : ℕ → Bool) (p : Platform) (now ptr : ℕ) (t : Option Timespec) (s : State K)
      (found : Option ℕ)
      → (checks K bad p now ptr t s found).1.overrun ≡ s.overrun
  unfolding checks
  checks_overrun bad p now ptr t s none = refl
  checks_overrun bad p now ptr t s (some a) = ground arith

  prepare_overrun :
      (bad : ℕ → Bool) (p : Platform) (now mqd ptr : ℕ) (t : Option Timespec) (s : State K)
      → (prepare K bad p now mqd ptr t s).1.overrun ≡ s.overrun
  unfolding prepare
  prepare_overrun bad p now mqd ptr t s =
      checks_overrun bad p now ptr t (lock K s) (mq_extract_locked K mqd (lock K s))

  receive_overrun : (r : Option (ℕ × ℕ) × State K) → (finish_receive K r).2.overrun ≡ r.1.overrun
  unfolding finish_receive
  receive_overrun (none, s) = refl
  receive_overrun (some (a, timeout), s) = ground arith

  send_overrun :
      (msg : List ℕ) (r : Option (ℕ × ℕ) × State K) → (finish_send K msg r).1.overrun ≡ r.1.overrun
  unfolding finish_send
  send_overrun msg (none, s) = refl
  send_overrun msg (some (a, timeout), s) = ground arith

  -- Where the names fit, no call writes beyond an array.
  pub step-overrun : (s : State K) (c : Call K) → CallFits c → (step K s c).overrun ≡ s.overrun
  unfolding step mq_timedreceive mq_timedsend
  step-overrun s (opens name oflag attr am ab) h = open_overrun name oflag attr am ab s h
  step-overrun s (closes mqd) h = close_overrun mqd s
  step-overrun s (getattrs mqd) h = getattr_overrun mqd s
  step-overrun s (unlinks name) h = unlink_overrun name s
  step-overrun s (receives p now mqd ptr len t) h =
      receive_overrun (prepare K (λ size. ltb len size) p now mqd ptr t s)
      ∙ prepare_overrun (λ size. ltb len size) p now mqd ptr t s
  step-overrun s (sends p now mqd ptr msg len t) h =
      send_overrun msg (prepare K (λ size. ltb size len) p now mqd ptr t s)
      ∙ prepare_overrun (λ size. ltb size len) p now mqd ptr t s
