-- ===== src/Mqueue/Open.antt =====
-- `mq_open` of src/posix_mqueue.c.
use libposix.Prelude.{
  ℕ, ◌+◌, ◌%◌, ◌^◌, Option, none, some, or_else, Bool, false, not, ltb, ◌&&◌, ◌||◌, if◌then◌else◌,
  List, [], length,
}
use libposix.Prelude.Int.{pos, ltb_ℤ}
use libposix.Prelude.Status.{eexist, einval, enoent}
use libposix.Kernel.{Queues}
use libposix.Mqueue.{Flags, Attr, def_attr, name_sz, validate_name, message_words, buffer_size}
use libposix.Mqueue.State.{
  State, Mqd, update, set_errno, lock, unlock, mq_check_init, mq_find_locked,
}

module _ (K : Queues) where
  open K use {Q, q_zero, mq_init, sz, isz, n, mq_get, mq_put, wait, L, ll_init, elems, lle_del}

  -- `memset(mq, 0, sizeof(mqd_internal_t))`
  abbrev pub zero_mqd : Mqd K
  zero_mqd = record {
    q = q_zero;
    buf = 0;
    name = [];
    flags = record { creat = false; excl = false; nonblock = false };
    open_count = 0;
    pending_unlink = 0;
  }

  -- A new queue, from the two results of `hcos_posix_alloc` (`none` is NULL), with the list locked.
  -- `goto out` passes over `mut_unlock`. `lle_init` initialises the link of the queue itself.
  -- `overrun` is set where `strcpy` writes beyond `name`; what it overwrites is not in the model.
  unfoldable pub create : List ℕ → Flags → Attr → Option ℕ → Option ℕ → State K → Option ℕ × State K
  create name oflag attr none alloc_buf s = (none, set_errno K enoent s)
  create name oflag attr (some a) none s =
      (none, set_errno K enoent (record s { mem = update K s.mem a zero_mqd }))
  create name oflag attr (some a) (some buf) s =
      let nwords = message_words attr.mq_msgsize in
      let mq = record zero_mqd {
        q = mq_init nwords buf (buffer_size attr.mq_maxmsg nwords);
        buf = buf;
        name = name;
        flags = oflag;
      } in
      (
        some a,
        unlock K (record s {
          mem = update K s.mem a mq;
          overrun = s.overrun || ltb name_sz (length name + 1);
        }),
      )

  abbrev pub is_negative : Option Attr → Bool
  is_negative none = false
  is_negative (some attr) = ltb_ℤ attr.mq_maxmsg (pos 0) || ltb_ℤ attr.mq_msgsize (pos 0)

  -- What follows the search by name, with the list locked.
  unfoldable pub open_found :
      List ℕ → Flags → Option Attr → Option ℕ → Option ℕ → State K → Option ℕ → Option ℕ × State K
  open_found name oflag attr alloc_mq alloc_buf s none =
      if oflag.creat
      then create name oflag (or_else attr def_attr) alloc_mq alloc_buf s
      else (none, unlock K (set_errno K enoent s))
  open_found name oflag attr alloc_mq alloc_buf s (some a) =
      let m = s.mem a in
      if oflag.excl && oflag.creat then (none, unlock K (set_errno K eexist s)) else (
        some a,
        unlock K (record s {
          mem = update K s.mem a (record m { open_count = (m.open_count + 1) % 2 ^ 16 });
        }),
      )

  -- The descriptor, or `none` for (mqd_t) -1.
  unfoldable pub mq_open :
      List ℕ → Flags → Option Attr → Option ℕ → Option ℕ → State K → Option ℕ × State K
  mq_open name oflag attr alloc_mq alloc_buf s =
      let s1 = mq_check_init K s in
      if not (validate_name name)
      then (none, set_errno K einval s1)
      else if is_negative attr
      then (none, set_errno K einval s1)
      else open_found name oflag attr alloc_mq alloc_buf (lock K s1)
          (mq_find_locked K name (lock K s1))
