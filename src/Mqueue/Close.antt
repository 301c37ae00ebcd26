-- ===== src/Mqueue/Close.antt =====
-- `mq_close`, `mq_getattr` and `mq_unlink` of src/posix_mqueue.c.
use libposix.Prelude.{
  ℕ, ◌-◌, Option, none, some, Bool, true, false, not, ltb, ◌==◌, if◌then◌else◌, List,
}
use libposix.Prelude.Status.{Ret, ok, fail, ebadf, enametoolong, enoent}
use libposix.Kernel.{Queues}
use libposix.Prelude.Int.{ℤ}
use libposix.Mqueue.{Flags, validate_name, to_long}
use libposix.Mqueue.State.{
  State, update, set_errno, lock, unlock, mq_check_init, mq_extract_locked, mq_find_locked, mq_free,
}

module _ (K : Queues) where
  open K use {Q, q_zero, mq_init, sz, isz, n, mq_get, mq_put, wait, L, ll_init, elems, lle_del}

  -- The body of `mq_close` for a descriptor that was found, with the list locked: the new state, and
  -- `removed`.
  unfoldable pub close_found : ℕ → State K → State K × Bool
  close_found a s =
      let m = s.mem a in
      let count = if ltb 0 m.open_count then m.open_count - 1 else m.open_count in
      let counted = record m { open_count = count } in
      if count == 0
      then (if not (m.pending_unlink == 0)
          then (record s { mem = update K s.mem a counted; allq = lle_del a s.allq }, true)
          else (record s { mem = update K s.mem a (record counted { pending_unlink = 1 }) }, false))
      else (record s { mem = update K s.mem a counted }, false)

  -- `if (removed) mq_free(mq)`
  abbrev pub free_if : Bool → ℕ → State K → State K
  free_if removed a s = if removed then mq_free K a s else s

  unfoldable pub mq_close : ℕ → State K → Ret × State K
  unfolding close_found
  mq_close mqd s =
      let s1 = lock K (mq_check_init K s) in
      elim (mq_extract_locked K mqd s1) [
        | none ↦ (fail, unlock K (set_errno K ebadf s1))
        | some a ↦ let r = close_found a s1 in (ok, free_if r.1 a (unlock K r.0))
      ]

  -- `struct mq_attr` as `mq_getattr` fills it in: flags, maxmsg, msgsize and curmsgs.
  unfoldable pub mq_getattr : ℕ → State K → Ret × Option (Flags × ℤ × ℤ × ℤ) × State K
  mq_getattr mqd s =
      let s1 = lock K (mq_check_init K s) in
      elim (mq_extract_locked K mqd s1) [
        | none ↦ (fail, none, unlock K (set_errno K ebadf s1))
        | some a ↦
            let m = s1.mem a in
            (ok, some (m.flags, to_long (sz m.q), to_long (isz m.q), to_long (n m.q)), unlock K s1)
      ]

  unfoldable pub mq_unlink : List ℕ → State K → Ret × State K
  unfolding mq_find_locked
  mq_unlink name s =
      let s1 = mq_check_init K s in
      if not (validate_name name)
      then (fail, set_errno K enametoolong s1)
      else elim (mq_find_locked K name (lock K s1)) [
        | none ↦ (fail, unlock K (set_errno K enoent (lock K s1)))
        | some a ↦
            if (s1.mem a).open_count == 0
            then (ok, mq_free K a (unlock K (record (lock K s1) { allq = lle_del a s1.allq })))
            else (
              ok,
              unlock K (record (lock K s1) {
                mem = update K s1.mem a (record (s1.mem a) { pending_unlink = 1 });
              }),
            )
      ]
