-- ===== src/Mqueue/Directory.antt =====
-- What src/posix_mqueue.c promises, without its kernel list, its mutex, its static variables and the
-- memory: a directory of queues by address, and the reply of each call.
use libposix.Prelude.{
  ℕ, ◌+◌, ◌-◌, ◌%◌, ◌^◌, Option, none, some, Bool, false, not, ◌&&◌, ltb, ◌==◌, if◌then◌else◌, List,
  [], ◌∷◌, leb, length,
}
use libposix.Prelude.Int.{ℤ, negsuc}
use libposix.Prelude.Status.{
  Errno, Ret, ok, fail, ebadf, eexist, einval, emsgsize, enametoolong, enoent,
}
use libposix.Kernel.{Queues}
use libposix.Time.{Timespec, Platform}
use libposix.Mqueue.{Flags, same_name, get_tick_timeout, to_long}
use libposix.Mqueue.State.{Mqd}
use libposix.Mqueue.Open.{is_negative}
use libposix.Mqueue.Transfer.{not_ready}
use libposix.Mqueue.Reach.{Call, opens, closes, getattrs, unlinks, receives, sends}

module _ (K : Queues) where
  open K use {Q, sz, isz, n, mq_get, mq_put, wait}

  -- The queues in the order of the list, errno of the caller, and the memory that was given back.
  pub record Directory : Type 0 where
    pub queues : List (ℕ × Mqd K)
    pub errno : Option Errno
    pub freed : List ℕ

  -- What a call returns, with what it stores through its pointers.
  pub data Reply : Type 0 where
    opened : Option ℕ → Reply
    returned : Ret → Reply
    attributes : Ret → Option (Flags × ℤ × ℤ × ℤ) → Reply
    received : ℤ → Option (List ℕ) → Reply

  -- A name is a slash with at most 64 bytes after it.
  unfoldable pub is_name : List ℕ → Bool
  is_name [] = false
  is_name (c ∷ cs) = c == b'/' && leb (length cs) 64

  -- The queue at an address.
  unfoldable pub look : ℕ → List (ℕ × Mqd K) → Option (Mqd K)
  look a [] = none
  look a ((b, m) ∷ rest) = if b == a then some m else look a rest

  -- The first queue of a name.
  unfoldable pub named : List ℕ → List (ℕ × Mqd K) → Option (ℕ × Mqd K)
  named name [] = none
  named name ((b, m) ∷ rest) = if same_name name m.name then some (b, m) else named name rest

  unfoldable pub alter : ℕ → Mqd K → List (ℕ × Mqd K) → List (ℕ × Mqd K)
  alter a new [] = []
  alter a new ((b, m) ∷ rest) = (b, if a == b then new else m) ∷ alter a new rest

  unfoldable pub take_out : ℕ → List (ℕ × Mqd K) → List (ℕ × Mqd K)
  take_out a [] = []
  take_out a ((b, m) ∷ rest) = if b == a then rest else (b, m) ∷ take_out a rest

  abbrev pub failing : Errno → Reply → Directory → Reply × Directory
  failing e reply d = (reply, record d { errno = some e })

  abbrev pub put : ℕ → Mqd K → Directory → Directory
  put a m d = record d { queues = alter a m d.queues }

  -- The queue is stored once more, taken out and given back.
  abbrev pub discard : ℕ → Mqd K → Directory → Directory
  discard a m d = record d { queues = take_out a (alter a m d.queues); freed = a ∷ m.buf ∷ d.freed }

  -- A queue that is created is in no directory, whatever memory it got.
  unfoldable pub serve_open :
      Flags → Option ℕ → Option ℕ → Option (ℕ × Mqd K) → Directory → Reply × Directory
  serve_open oflag none alloc_buf none d = failing enoent (opened none) d
  serve_open oflag (some a) none none d = failing enoent (opened none) d
  serve_open oflag (some a) (some buf) none d =
      if oflag.creat then (opened (some a), d) else failing enoent (opened none) d
  serve_open oflag alloc_mq alloc_buf (some (a, m)) d =
      if oflag.excl && oflag.creat
      then failing eexist (opened none) d
      else (opened (some a), put a (record m { open_count = (m.open_count + 1) % 2 ^ 16 }) d)

  -- The last descriptor of a queue: a marked queue goes, another one is marked.
  unfoldable pub serve_close : ℕ → Option (Mqd K) → Directory → Reply × Directory
  serve_close a none d = failing ebadf (returned fail) d
  serve_close a (some m) d =
      if ltb 1 m.open_count
      then (returned ok, put a (record m { open_count = m.open_count - 1 }) d)
      else if m.pending_unlink == 0
      then (returned ok, put a (record m { open_count = 0; pending_unlink = 1 }) d)
      else (returned ok, discard a (record m { open_count = 0 }) d)

  unfoldable pub serve_getattr : Option (Mqd K) → Directory → Reply × Directory
  serve_getattr none d = failing ebadf (attributes fail none) d
  serve_getattr (some m) d =
      (attributes ok (some (m.flags, to_long (sz m.q), to_long (isz m.q), to_long (n m.q))), d)

  unfoldable pub serve_unlink : Option (ℕ × Mqd K) → Directory → Reply × Directory
  serve_unlink none d = failing enoent (returned fail) d
  serve_unlink (some (a, m)) d =
      if m.open_count == 0
      then (returned ok, discard a m d)
      else (returned ok, put a (record m { pending_unlink = 1 }) d)

  -- What stands against a transfer, and the timeout.
  unfoldable pub obstacle :
      Bool → Platform → ℕ → ℕ → Option Timespec → Option (Mqd K) → Option Errno × ℕ
  obstacle size_bad p now ptr t none = (some (if ptr % 4 == 0 then ebadf else einval), 0)
  obstacle size_bad p now ptr t (some m) =
      if not (ptr % 4 == 0)
      then (some einval, 0)
      else if size_bad
      then (some emsgsize, 0)
      else get_tick_timeout p wait now m.flags t 0

  abbrev pub size_of : Option (Mqd K) → ℕ
  size_of none = 0
  size_of (some m) = isz m.q

  unfoldable pub serve_receive :
      ℕ → Option Errno × ℕ → Option (Mqd K) → Directory → Reply × Directory
  serve_receive a (some e, timeout) found d = failing e (received (negsuc 0) none) d
  serve_receive a (none, timeout) none d = failing ebadf (received (negsuc 0) none) d
  serve_receive a (none, timeout) (some m) d =
      let r = mq_get m.q timeout in
      let after = put a (record m { q = r.1 }) d in
      elim r.0 [
        | none ↦ failing (not_ready K m.flags) (received (negsuc 0) none) after
        | some msg ↦ (received (to_long (isz r.1)) (some msg), after)
      ]

  unfoldable pub serve_send :
      ℕ → List ℕ → Option Errno × ℕ → Option (Mqd K) → Directory → Reply × Directory
  serve_send a msg (some e, timeout) found d = failing e (returned fail) d
  serve_send a msg (none, timeout) none d = failing ebadf (returned fail) d
  serve_send a msg (none, timeout) (some m) d =
      let r = mq_put m.q msg timeout in
      let after = put a (record m { q = r.1 }) d in
      if r.0 then (returned ok, after) else failing (not_ready K m.flags) (returned fail) after

  unfoldable pub serve : Call K → Directory → Reply × Directory
  unfolding serve_open serve_close serve_getattr serve_unlink serve_receive serve_send
  serve (opens name oflag attr am ab) d =
      if not (is_name name)
      then failing einval (opened none) d
      else if is_negative K attr
      then failing einval (opened none) d
      else serve_open oflag am ab (named name d.queues) d
  serve (closes mqd) d = serve_close mqd (look mqd d.queues) d
  serve (getattrs mqd) d = serve_getattr (look mqd d.queues) d
  serve (unlinks name) d =
      if not (is_name name)
      then failing enametoolong (returned fail) d
      else serve_unlink (named name d.queues) d
  serve (receives p now mqd ptr len t) d =
      let found = look mqd d.queues in
      serve_receive mqd (obstacle (ltb len (size_of found)) p now ptr t found) found d
  serve (sends p now mqd ptr msg len t) d =
      let found = look mqd d.queues in
      serve_send mqd msg (obstacle (ltb (size_of found) len) p now ptr t found) found d
