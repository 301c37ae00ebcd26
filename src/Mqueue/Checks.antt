-- ===== src/Mqueue/Checks.antt =====
-- What a call of src/posix_mqueue.c that succeeds has checked, and what one that creates a queue
-- leaves behind.
use libposix.Prelude.{
  ℕ, ◌∙◌, ◌+◌, ◌%◌, ◌≤◌, ◌≡◌, refl, ap, ◌⊎◌, inl, inr, Option, none, some, Bool, true, false, ltb,
  arith, Option-cases, List, length,
}
use libposix.Prelude.Int.{pos}
use libposix.Prelude.Status.{ok, enoent}
use libposix.Kernel.{Queues}
use libposix.Time.{Timespec, Platform}
use libposix.Mqueue.{Flags, Attr, validate_name, name_sz}
use libposix.Mqueue.State.{State, lock, unlock, mq_check_init, mq_extract_locked, mq_find_locked}
use libposix.Mqueue.Open.{mq_open, open_found, create, is_negative}
use libposix.Mqueue.Transfer.{
  mq_timedreceive, mq_timedsend, prepare, checks, finish_send, finish_receive,
}

module _ (K : Queues) where
  open K use {isz, mq_put, mq_get}

  checks-some :
      (bad : ℕ → Bool) (p : Platform) (now ptr : ℕ) (t : Option Timespec) (s : State K)
      (found : Option ℕ) (a timeout : ℕ)
      → (checks K bad p now ptr t s found).0 ≡ some (a, timeout)
      → (found ≡ some a)
        × (ptr % 4 ≡ 0)
        × (bad (isz (s.mem a).q) ≡ false)
        × ((checks K bad p now ptr t s found).1 ≡ s)
  unfolding checks
  checks-some bad p now ptr t s none a timeout e = cc
  checks-some bad p now ptr t s (some b) a timeout e = ground arith

  -- The list, and what stands at each address, are those of the call.
  pub record Prepared (bad : ℕ → Bool) (mqd ptr : ℕ) (s : State K) (a : ℕ) (after : State K)
      : Type 0 where
    pub listed : mq_extract_locked K mqd s ≡ some a
    pub aligned : ptr % 4 ≡ 0
    pub fits : bad (isz (s.mem a).q) ≡ false
    pub same : after ≡ unlock K (lock K s)

  pub prepare-some :
      (bad : ℕ → Bool) (p : Platform) (now mqd ptr : ℕ) (t : Option Timespec) (s : State K)
      (a timeout : ℕ)
      → (prepare K bad p now mqd ptr t s).0 ≡ some (a, timeout)
      → Prepared bad mqd ptr s a (prepare K bad p now mqd ptr t s).1
  unfolding prepare mq_extract_locked
  prepare-some bad p now mqd ptr t s a timeout e =
      let found = mq_extract_locked K mqd (lock K s) in
      let (listed, aligned, fits, same) =
        checks-some bad p now ptr t (lock K s) found a timeout e in
      record { listed = listed; aligned = aligned; fits = fits; same = ap (unlock K) same }

  send-some :
      (msg : List ℕ) (r : Option (ℕ × ℕ) × State K)
      → (finish_send K msg r).0 ≡ ok
      → (a : ℕ) × (timeout : ℕ) × (r.0 ≡ some (a, timeout))
        × ((mq_put (r.1.mem a).q msg timeout).0 ≡ true)
        × (((finish_send K msg r).1.mem a).q ≡ (mq_put (r.1.mem a).q msg timeout).1)
  unfolding finish_send
  send-some msg (none, s) e = cc
  send-some msg (some (a, timeout), s) e = (a, timeout, refl, ground arith, ground arith)

  -- A `mq_timedsend` that returns 0 had the descriptor of a listed queue, an aligned pointer and a
  -- length of no more than the queue's message size, and the kernel's queue accepted the message.
  mq_timedsend-ok :
      (p : Platform) (now mqd ptr : ℕ) (msg : List ℕ) (len : ℕ) (t : Option Timespec) (s : State K)
      → (mq_timedsend K p now mqd ptr msg len t s).0 ≡ ok
      → (a : ℕ) × (timeout : ℕ) × (mq_extract_locked K mqd s ≡ some a)
        × (ptr % 4 ≡ 0)
        × (len ≤ isz (s.mem a).q)
        × ((mq_put (s.mem a).q msg timeout).0 ≡ true)
        × (((mq_timedsend K p now mqd ptr msg len t s).1.mem a).q
            ≡ (mq_put (s.mem a).q msg timeout).1)
  unfolding mq_timedsend
  mq_timedsend-ok p now mqd ptr msg len t s e =
      let bad = λ (size : ℕ). ltb size len in
      let (a, timeout, some_e, accepted, stored) =
        send-some msg (prepare K bad p now mqd ptr t s) e in
      let c = prepare-some bad p now mqd ptr t s a timeout some_e in
      let q_same = ap (λ (u : State K). (u.mem a).q) c.same in
      (
        a,
        timeout,
        c.listed,
        c.aligned,
        ground (arith, c.fits),
        rw (← q_same) accepted,
        stored ∙ ap (λ q. (mq_put q msg timeout).1) q_same,
      )

  receive-some :
      (r : Option (ℕ × ℕ) × State K) (k : ℕ)
      → (finish_receive K r).0 ≡ pos k
      → (a : ℕ) × (timeout : ℕ) × (msg : List ℕ) × (r.0 ≡ some (a, timeout))
        × ((mq_get (r.1.mem a).q timeout).0 ≡ some msg)
        × ((finish_receive K r).1 ≡ some msg)
  unfolding finish_receive
  receive-some (none, s) k e = cc
  receive-some (some (a, timeout), s) k e = elim (Option-cases (mq_get (s.mem a).q timeout).0) [
    | inl nothing ↦ absurd (ground arith)
    | inr (msg, got) ↦ (a, timeout, msg, refl, got, ground arith)
  ]

  -- A `mq_timedreceive` that returns a length had the descriptor of a listed queue, an aligned
  -- pointer and room for a message of the queue's size, and stored the message of the kernel's queue.
  mq_timedreceive-ok :
      (p : Platform) (now mqd ptr len : ℕ) (t : Option Timespec) (s : State K) (k : ℕ)
      → (mq_timedreceive K p now mqd ptr len t s).0 ≡ pos k
      → (a : ℕ) × (timeout : ℕ) × (msg : List ℕ) × (mq_extract_locked K mqd s ≡ some a)
        × (ptr % 4 ≡ 0)
        × (isz (s.mem a).q ≤ len)
        × ((mq_get (s.mem a).q timeout).0 ≡ some msg)
        × ((mq_timedreceive K p now mqd ptr len t s).1 ≡ some msg)
  unfolding mq_timedreceive
  mq_timedreceive-ok p now mqd ptr len t s k e =
      let bad = λ (size : ℕ). ltb len size in
      let (a, timeout, msg, some_e, got, stored) =
        receive-some (prepare K bad p now mqd ptr t s) k e in
      let c = prepare-some bad p now mqd ptr t s a timeout some_e in
      let q_same = ap (λ (u : State K). (u.mem a).q) c.same in
      (a, timeout, msg, c.listed, c.aligned, ground (arith, c.fits), rw (← q_same) got, stored)

  -- A call of `mq_open` that is to create a queue and gets no memory for it, or none for its buffer,
  -- returns (mqd_t) -1 with errno ENOENT and leaves the list locked.
  mq_open-leaves_locked :
      (name : List ℕ) (oflag : Flags) (attr : Option Attr) (am ab : Option ℕ) (s : State K)
      → validate_name name ≡ true
      → is_negative K attr ≡ false
      → oflag.creat ≡ true
      → mq_find_locked K name (lock K (mq_check_init K s)) ≡ none
      → (am ≡ none) ⊎ (ab ≡ none)
      → ((mq_open K name oflag attr am ab s).0 ≡ none)
        × ((mq_open K name oflag attr am ab s).1.errno ≡ some enoent)
        × ((mq_open K name oflag attr am ab s).1.locks ≡ (mq_check_init K s).locks + 1)
  unfolding mq_open open_found create
  mq_open-leaves_locked name oflag attr am ab s valid fine creat new failed =
      rw (valid, mq_open) (rw (fine, mq_open) (rw (new, mq_open) (ground arith)))

  -- A call of `mq_open` that creates a queue whose name has 16 bytes or more writes beyond the
  -- structure's array for the name.
  mq_open-overrun :
      (name : List ℕ) (oflag : Flags) (attr : Option Attr) (a buf : ℕ) (s : State K)
      → validate_name name ≡ true
      → is_negative K attr ≡ false
      → oflag.creat ≡ true
      → mq_find_locked K name (lock K (mq_check_init K s)) ≡ none
      → name_sz ≤ length name
      → ((mq_open K name oflag attr (some a) (some buf) s).0 ≡ some a)
        × ((mq_open K name oflag attr (some a) (some buf) s).1.overrun ≡ true)
  unfolding mq_open open_found create
  mq_open-overrun name oflag attr a buf s valid fine creat new long =
      rw (valid, mq_open) (rw (fine, mq_open) (rw (new, mq_open) (ground arith)))
