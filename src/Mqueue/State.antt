-- ===== src/Mqueue/State.antt =====
-- The state of src/posix_mqueue.c, and the searches of its list of queues.
use libposix.Prelude.{
  ℕ, ◌+◌, ◌-◌, Option, none, some, Bool, true, ◌==◌, if◌then◌else◌, List, [], ◌∷◌,
}
use libposix.Prelude.Status.{Errno}
use libposix.Kernel.{Queues}
use libposix.Mqueue.{Flags, same_name}

module _ (K : Queues) where
  open K use {Q, mq_init, sz, isz, n, mq_get, mq_put, wait, L, ll_init, elems, lle_del}

  -- `mqd_internal_t`; the link `ll` is part of the list.
  pub record Mqd : Type 0 where
    pub q : Q
    pub buf : ℕ
    pub name : List ℕ
    pub flags : Flags
    pub open_count : ℕ
    pub pending_unlink : ℕ

  -- The static variables, the memory, errno of the calling thread, the addresses given back by
  -- `hcos_posix_free`, and whether a name was written beyond its array.
  pub record State : Type 0 where
    pub inited : Bool
    pub allq : L
    pub locks : ℕ
    pub mem : ℕ → Mqd
    pub errno : Option Errno
    pub freed : List ℕ
    pub overrun : Bool

  abbrev pub update : (ℕ → Mqd) → ℕ → Mqd → ℕ → Mqd
  update f a v b = if a == b then v else f b

  abbrev pub set_errno : Errno → State → State
  set_errno e s = record s { errno = some e }

  -- `mut_lock(&allq_mux, WAIT)` and `mut_unlock(&allq_mux)`. A call that finds `locks` above 0 waits in
  -- the code; the model has what it does if it gets the mutex.
  abbrev pub lock : State → State
  lock s = record s { locks = s.locks + 1 }

  abbrev pub unlock : State → State
  unlock s = record s { locks = s.locks - 1 }

  -- `mut_init` of `allq_mux` leaves it free.
  unfoldable pub mq_check_init : State → State
  mq_check_init s = if s.inited then s else record s { inited = true; allq = ll_init; locks = 0 }

  -- The loops of `mq_extract_locked` and `mq_find_locked`, over the elements of the list.
  unfoldable pub extract_in : ℕ → List ℕ → Option ℕ
  extract_in mqd [] = none
  extract_in mqd (a ∷ as') = if a == mqd then some a else extract_in mqd as'

  unfoldable pub mq_extract_locked : ℕ → State → Option ℕ
  unfolding extract_in
  mq_extract_locked mqd s = extract_in mqd (elems s.allq)

  unfoldable pub find_in : (ℕ → Mqd) → List ℕ → List ℕ → Option ℕ
  find_in mem name [] = none
  find_in mem name (a ∷ as') = if same_name name (mem a).name then some a else find_in mem name as'

  unfoldable pub mq_find_locked : List ℕ → State → Option ℕ
  unfolding find_in
  mq_find_locked name s = find_in s.mem name (elems s.allq)

  -- `hcos_posix_free` of the buffer, and of the structure.
  unfoldable pub mq_free : ℕ → State → State
  mq_free a s = record s { freed = a ∷ (s.mem a).buf ∷ s.freed }
