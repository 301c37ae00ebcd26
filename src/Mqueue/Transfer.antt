-- ===== src/Mqueue/Transfer.antt =====
-- `mq_timedsend` and `mq_timedreceive` of src/posix_mqueue.c. Neither calls `mq_check_init`.
use libposix.Prelude.{ℕ, ◌%◌, Option, none, some, Bool, not, ltb, ◌==◌, if◌then◌else◌, List}
use libposix.Prelude.Int.{ℤ, negsuc}
use libposix.Prelude.Status.{Errno, Ret, ok, fail, eagain, ebadf, einval, emsgsize, etimedout}
use libposix.Kernel.{Queues}
use libposix.Time.{Timespec, Platform}
use libposix.Mqueue.{Flags, get_tick_timeout, to_long}
use libposix.Mqueue.State.{State, update, set_errno, lock, unlock, mq_extract_locked}

module _ (K : Queues) where
  open K use {Q, q_zero, mq_init, sz, isz, n, mq_get, mq_put, wait, L, ll_init, elems, lle_del}

  -- What the two functions do with the list locked: the queue and the timeout, if every check
  -- passes. `size_bad` is the test of the message's length against the queue's.
  unfoldable pub checks :
      (ℕ → Bool)
      → Platform
      → ℕ
      → ℕ
      → Option Timespec
      → State K
      → Option ℕ
      → Option (ℕ × ℕ) × State K
  checks size_bad p now msg_ptr abstime s none =
      (none, set_errno K (if not (msg_ptr % 4 == 0) then einval else ebadf) s)
  checks size_bad p now msg_ptr abstime s (some a) =
      let m = s.mem a in
      let (e, timeout) = get_tick_timeout p wait now m.flags abstime 0 in
      if not (msg_ptr % 4 == 0)
      then (none, set_errno K einval s)
      else if size_bad (isz m.q)
      then (none, set_errno K emsgsize s)
      else elim e [ some err ↦ (none, set_errno K err s) | none ↦ (some (a, timeout), s) ]

  unfoldable pub prepare :
      (ℕ → Bool) → Platform → ℕ → ℕ → ℕ → Option Timespec → State K → Option (ℕ × ℕ) × State K
  prepare size_bad p now mqd msg_ptr abstime s =
      let r =
        checks size_bad p now msg_ptr abstime (lock K s) (mq_extract_locked K mqd (lock K s)) in
      (r.0, unlock K r.1)

  -- errno where the kernel's queue was not ready in time.
  abbrev pub not_ready : Flags → Errno
  not_ready flags = if flags.nonblock then eagain else etimedout

  abbrev pub put_q : ℕ → Q → State K → State K
  put_q a q s = record s { mem = update K s.mem a (record (s.mem a) { q = q }) }

  unfoldable pub finish_receive : Option (ℕ × ℕ) × State K → ℤ × Option (List ℕ) × State K
  finish_receive (none, s) = (negsuc 0, none, s)
  finish_receive (some (a, timeout), s) =
      let r = mq_get (s.mem a).q timeout in
      elim r.0 [
        | none ↦ (negsuc 0, none, set_errno K (not_ready (s.mem a).flags) (put_q a r.1 s))
        | some msg ↦ (to_long (isz r.1), some msg, put_q a r.1 s)
      ]

  -- The return value, and the words stored at `msg_ptr`.
  unfoldable pub mq_timedreceive :
      Platform → ℕ → ℕ → ℕ → ℕ → Option Timespec → State K → ℤ × Option (List ℕ) × State K
  mq_timedreceive p now mqd msg_ptr msg_len abstime s =
      finish_receive (prepare (λ size. ltb msg_len size) p now mqd msg_ptr abstime s)

  unfoldable pub finish_send : List ℕ → Option (ℕ × ℕ) × State K → Ret × State K
  finish_send msg (none, s) = (fail, s)
  finish_send msg (some (a, timeout), s) =
      let r = mq_put (s.mem a).q msg timeout in
      if r.0
      then (ok, put_q a r.1 s)
      else (fail, set_errno K (not_ready (s.mem a).flags) (put_q a r.1 s))

  -- `msg` is what stands at `msg_ptr`.
  unfoldable pub mq_timedsend :
      Platform → ℕ → ℕ → ℕ → List ℕ → ℕ → Option Timespec → State K → Ret × State K
  mq_timedsend p now mqd msg_ptr msg msg_len abstime s =
      finish_send msg (prepare (λ size. ltb size msg_len) p now mqd msg_ptr abstime s)

  unfoldable pub mq_receive : Platform → ℕ → ℕ → ℕ → ℕ → State K → ℤ × Option (List ℕ) × State K
  unfolding mq_timedreceive
  mq_receive p now mqd msg_ptr msg_len s = mq_timedreceive p now mqd msg_ptr msg_len none s

  unfoldable pub mq_send : Platform → ℕ → ℕ → ℕ → List ℕ → ℕ → State K → Ret × State K
  unfolding mq_timedsend
  mq_send p now mqd msg_ptr msg msg_len s = mq_timedsend p now mqd msg_ptr msg msg_len none s
