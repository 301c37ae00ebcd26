-- ===== src/Mqueue/Calls.antt =====
-- Each call of src/posix_mqueue.c does what the directory does.
use libposix.Prelude.{
  ℕ, ◌≡◌, refl, ◌⊎◌, ap, ◌∙◌, Option, none, some, true, false, List, Bool-cases, Option-cases, inl,
  inr,
}
use libposix.Prelude.Status.{fail, einval, enametoolong}
use libposix.Time.{Timespec, Platform}
use libposix.Kernel.{Queues}
use libposix.Mqueue.{Flags, Attr, validate_name}
use libposix.Mqueue.State.{State, set_errno, extract_in, find_in}
use libposix.Mqueue.Close.{mq_close, mq_getattr, mq_unlink}
use libposix.Mqueue.Open.{mq_open, is_negative}
use libposix.Mqueue.Transfer.{mq_timedreceive, mq_timedsend}
use libposix.Mqueue.Reach.{Call, opens, closes, getattrs, unlinks, receives, sends}
use libposix.Mqueue.Count.{check_again}
use libposix.Mqueue.Names.{is_name_lem}
use libposix.Mqueue.Directory.{Directory, Reply, serve, look, named}
use libposix.Mqueue.Views.{directory, at, with_queue, look-view, named-view, extract_in-eq}
use libposix.Mqueue.Refines.{
  Shows, with_ret, with_descriptor, with_attributes, close_missing, close_found_one,
  getattr_missing, getattr_found, unlink_missing, unlink_found,
}
use libposix.Mqueue.Serves.{Fresh, open_new-Shows, open_found-Shows}
use libposix.Mqueue.Transfers.{
  with_received, receive_found-Shows, receive_missing-Shows, send_found-Shows, send_missing-Shows,
}

module _ (K : Queues) where
  open K use {elems}

  -- A call of the code, with its reply.
  unfoldable pub call : Call K → State K → Reply K × State K
  call (opens name oflag attr am ab) s = with_descriptor K (mq_open K name oflag attr am ab s)
  call (closes mqd) s = with_ret K (mq_close K mqd s)
  call (getattrs mqd) s = with_attributes K (mq_getattr K mqd s)
  call (unlinks name) s = with_ret K (mq_unlink K name s)
  call (receives p now mqd ptr len t) s = with_received K (mq_timedreceive K p now mqd ptr len t s)
  call (sends p now mqd ptr msg len t) s = with_ret K (mq_timedsend K p now mqd ptr msg len t s)

  -- A call that opens a queue gets memory that no queue in the directory is in.
  abbrev pub IsFresh : Call K → Directory K → Type 0
  IsFresh (opens name oflag attr am ab) d = Fresh K am d
  IsFresh _ d = Unit

  module _ (s : State K) (init : s.inited ≡ true) where
    -- What a search by address finds, in the code and in the directory.
    data Search (a : ℕ) : Type 0 where
      misses :
          extract_in K a (elems s.allq) ≡ none → look K a (directory K s).queues ≡ none → Search a
      finds :
          extract_in K a (elems s.allq) ≡ some a
          → look K a (directory K s).queues ≡ some (s.mem a)
          → Search a

    by_address : (a : ℕ) → Search a
    by_address a = elim (Option-cases (extract_in K a (elems s.allq))) [
      | inl e ↦ misses e (look-view K s.mem a (elems s.allq) ∙ ap (at K s.mem) e)
      | inr (b, e) ↦
          let same = extract_in-eq K a b (elems s.allq) e in
          finds (e ∙ ap (λ c. some c) same)
            (look-view K s.mem a (elems s.allq) ∙ ap (at K s.mem) (e ∙ ap (λ c. some c) same))
    ]

    data NameSearch (name : List ℕ) : Type 0 where
      misses_name :
          find_in K s.mem name (elems s.allq) ≡ none
          → named K name (directory K s).queues ≡ none
          → NameSearch name
      finds_name :
          (a : ℕ)
          → find_in K s.mem name (elems s.allq) ≡ some a
          → named K name (directory K s).queues ≡ some (a, s.mem a)
          → NameSearch name

    by_name : (name : List ℕ) → NameSearch name
    by_name name = elim (Option-cases (find_in K s.mem name (elems s.allq))) [
      | inl e ↦ misses_name e (named-view K s.mem name (elems s.allq) ∙ ap (with_queue K s.mem) e)
      | inr (a, e) ↦
          finds_name a e (named-view K s.mem name (elems s.allq) ∙ ap (with_queue K s.mem) e)
    ]

    close-Shows : (a : ℕ) → Shows K (call (closes a) s) (serve K (closes a) (directory K s))
    unfolding call serve
    close-Shows a = elim (by_address a) [
      | misses e f ↦ rw f (close_missing K s init a e)
      | finds e f ↦ rw f (close_found_one K s init a e)
    ]

    getattr-Shows : (a : ℕ) → Shows K (call (getattrs a) s) (serve K (getattrs a) (directory K s))
    unfolding call serve
    getattr-Shows a = elim (by_address a) [
      | misses e f ↦ rw f (getattr_missing K s init a e)
      | finds e f ↦ rw f (getattr_found K s init a e)
    ]

    receive-Shows :
        (p : Platform) (now a ptr len : ℕ) (t : Option Timespec)
        → let c = receives p now a ptr len t in Shows K (call c s) (serve K c (directory K s))
    unfolding call serve
    receive-Shows p now a ptr len t = elim (by_address a) [
      | misses e f ↦ rw f (receive_missing-Shows K s init a p now ptr len t e)
      | finds e f ↦ rw f (receive_found-Shows K s init a p now ptr len t e)
    ]

    send-Shows :
        (p : Platform) (now a ptr : ℕ) (msg : List ℕ) (len : ℕ) (t : Option Timespec)
        → let c = sends p now a ptr msg len t in Shows K (call c s) (serve K c (directory K s))
    unfolding call serve
    send-Shows p now a ptr msg len t = elim (by_address a) [
      | misses e f ↦ rw f (send_missing-Shows K s init a p now ptr msg len t e)
      | finds e f ↦ rw f (send_found-Shows K s init a p now ptr msg len t e)
    ]

    unlink_refused :
        (name : List ℕ)
        → validate_name name ≡ false
        → mq_unlink K name s ≡ (fail, set_errno K enametoolong s)
    unfolding mq_unlink
    unlink_refused name invalid = rw (invalid, mq_unlink) (rw (check_again K s init) refl)

    unlink-Shows :
        (name : List ℕ) → Shows K (call (unlinks name) s) (serve K (unlinks name) (directory K s))
    unfolding call serve
    unlink-Shows name = elim (Bool-cases (validate_name name)) [
      | inl valid ↦ elim (by_name name) [
        | misses_name e f ↦
            rw (is_name_lem K name ∙ valid, f) (unlink_missing K s init name valid e)
        | finds_name a e f ↦
            rw (is_name_lem K name ∙ valid, f) (unlink_found K s init name a valid e)
      ]
      | inr invalid ↦
          rw (is_name_lem K name ∙ invalid, unlink_refused name invalid) (refl, refl, init)
    ]

    open_refused :
        (name : List ℕ) (oflag : Flags) (attr : Option Attr) (am ab : Option ℕ)
        → (validate_name name ≡ false) ⊎ (is_negative K attr ≡ true)
        → mq_open K name oflag attr am ab s ≡ (none, set_errno K einval s)
    unfolding mq_open
    open_refused name oflag attr am ab (inl invalid) =
        rw (invalid, mq_open) (rw (check_again K s init) refl)
    open_refused name oflag attr am ab (inr negative) = elim (Bool-cases (validate_name name)) [
      | inl valid ↦ rw (valid, mq_open) (rw (negative, mq_open) (rw (check_again K s init) refl))
      | inr invalid ↦ rw (invalid, mq_open) (rw (check_again K s init) refl)
    ]

    open-Shows :
        (name : List ℕ) (oflag : Flags) (attr : Option Attr) (am ab : Option ℕ)
        → Fresh K am (directory K s)
        → let c = opens name oflag attr am ab in Shows K (call c s) (serve K c (directory K s))
    unfolding call serve
    open-Shows name oflag attr am ab fresh = elim (Bool-cases (validate_name name)) [
      | inr invalid ↦
          rw (is_name_lem K name ∙ invalid, open_refused name oflag attr am ab (inl invalid))
            (refl, refl, init)
      | inl valid ↦ elim (Bool-cases (is_negative K attr)) [
        | inl negative ↦
            rw
              (
                is_name_lem K name ∙ valid,
                negative,
                open_refused name oflag attr am ab (inr negative),
              )
              (refl, refl, init)
        | inr fine ↦ elim (by_name name) [
          | misses_name e f ↦
              rw (is_name_lem K name ∙ valid, fine, f)
                (open_new-Shows K s init name oflag attr am ab valid fine e fresh)
          | finds_name a e f ↦
              rw (is_name_lem K name ∙ valid, fine, f)
                (open_found-Shows K s init name oflag attr am ab a valid fine e)
        ]
      ]
    ]

    pub call-Shows :
        (c : Call K) → IsFresh c (directory K s) → Shows K (call c s) (serve K c (directory K s))
    call-Shows (opens name oflag attr am ab) fresh = open-Shows name oflag attr am ab fresh
    call-Shows (closes a) fresh = close-Shows a
    call-Shows (getattrs a) fresh = getattr-Shows a
    call-Shows (unlinks name) fresh = unlink-Shows name
    call-Shows (receives p now a ptr len t) fresh = receive-Shows p now a ptr len t
    call-Shows (sends p now a ptr msg len t) fresh = send-Shows p now a ptr msg len t
