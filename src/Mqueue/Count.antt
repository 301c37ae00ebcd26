-- ===== src/Mqueue/Count.antt =====
-- The open count and the pending unlink of a queue that is in the list of src/posix_mqueue.c.
use libposix.Prelude.{
  ℕ, ◌+◌, ◌-◌, ◌%◌, ◌^◌, ◌<◌, ◌≤◌, ◌≡◌, refl, ap, ◌∙◌, Option, some, Bool, true, false, ◌&&◌, List,
  [], ◌∷◌, if◌then◌else◌, arith,
}
use libposix.Prelude.Status.{Ret, ok}
use libposix.Kernel.{Queues}
use libposix.Mqueue.{Flags, Attr, validate_name}
use libposix.Mqueue.State.{
  State, Mqd, update, lock, unlock, mq_check_init, mq_extract_locked, mq_find_locked, extract_in,
  find_in, mq_free,
}
use libposix.Mqueue.Close.{mq_close, mq_unlink, close_found}
use libposix.Mqueue.Open.{mq_open, open_found, is_negative}

module _ (K : Queues) where
  open K use {elems, lle_del}

  -- What is found by name is found by address.
  extract_in-find_in :
      (mem : ℕ → Mqd K) (name as' : List ℕ) (a : ℕ)
      → find_in K mem name as' ≡ some a
      → extract_in K a as' ≡ some a
  unfolding find_in extract_in
  extract_in-find_in mem name [] a e = cc
  extract_in-find_in mem name (b ∷ as') a e = ground (arith, extract_in-find_in mem name as' a)

  pub check_again : (s : State K) → s.inited ≡ true → mq_check_init K s ≡ s
  unfolding mq_check_init
  check_again s e = rw e

  -- The three outcomes of `mq_close` for a listed queue, on a state that has been set up: another
  -- descriptor is open; the last one is closed; and the last one of a marked queue is closed.
  module _ (a : ℕ) (s : State K) (init : s.inited ≡ true)
      (listed : extract_in K a (elems s.allq) ≡ some a) where
    abbrev closing : State K × Bool → Ret × State K
    closing r = (ok, if r.1 then mq_free K a (unlock K r.0) else unlock K r.0)

    close_listed : mq_close K a s ≡ closing (close_found K a (lock K s))
    unfolding mq_close mq_extract_locked
    close_listed =
        rw (check_again s init, mq_close) (rw (listed, mq_close) (rw (check_again s init)))

    abbrev counted : ℕ → ℕ → Mqd K
    counted count pending = record (s.mem a) { open_count = count; pending_unlink = pending }

    abbrev written : Mqd K → State K
    written m = record (lock K s) { mem = update K s.mem a m }

    pub close_more :
        1 < (s.mem a).open_count
        → mq_close K a s
          ≡ (ok, unlock K (written (record (s.mem a) { open_count = (s.mem a).open_count - 1 })))
    unfolding close_found
    close_more more = close_listed ∙ ground arith

    pub close_last :
        (s.mem a).open_count ≤ 1
        → (s.mem a).pending_unlink ≡ 0
        → mq_close K a s ≡ (ok, unlock K (written (counted 0 1)))
    unfolding close_found
    close_last last unmarked = close_listed ∙ ground arith

    pub close_marked :
        (s.mem a).open_count ≤ 1
        → 0 < (s.mem a).pending_unlink
        → mq_close K a s ≡ (
          ok,
          mq_free K a (
              unlock K (record (written (record (s.mem a) { open_count = 0 })) {
                allq = lle_del a s.allq;
              })),
        )
    unfolding close_found
    close_marked last marked = close_listed ∙ ground arith

  pub find_listed :
      (name : List ℕ) (a : ℕ) (s : State K)
      → s.inited ≡ true
      → find_in K s.mem name (elems s.allq) ≡ some a
      → mq_find_locked K name (lock K (mq_check_init K s)) ≡ some a
  unfolding mq_find_locked
  find_listed name a s init found = rw (check_again s init) found

  pub unlink_open :
      (name : List ℕ) (a : ℕ) (s : State K)
      → s.inited ≡ true
      → validate_name name ≡ true
      → find_in K s.mem name (elems s.allq) ≡ some a
      → 0 < (s.mem a).open_count
      → mq_unlink K name s ≡ (
        ok,
        unlock K (record (lock K s) {
          mem = update K s.mem a (record (s.mem a) { pending_unlink = 1 });
        }),
      )
  unfolding mq_unlink
  unlink_open name a s init valid found opened =
      rw (valid, mq_unlink)
        (rw (find_listed name a s init found, mq_unlink) (rw (check_again s init) (ground arith)))

  pub open_listed :
      (name : List ℕ) (oflag : Flags) (attr : Option Attr) (am ab : Option ℕ) (a : ℕ) (s : State K)
      → s.inited ≡ true
      → validate_name name ≡ true
      → is_negative K attr ≡ false
      → (oflag.excl && oflag.creat) ≡ false
      → find_in K s.mem name (elems s.allq) ≡ some a
      → mq_open K name oflag attr am ab s ≡ (
        some a,
        unlock K (record (lock K s) {
          mem =
              update K s.mem a
                (record (s.mem a) { open_count = ((s.mem a).open_count + 1) % 2 ^ 16 });
        }),
      )
  unfolding mq_open open_found
  open_listed name oflag attr am ab a s init valid fine plain found =
      rw (valid, mq_open)
        (rw (fine, mq_open)
          (rw (find_listed name a s init found, mq_open) (rw (check_again s init) (ground arith))))

  -- Closing the last descriptor of a queue that was never unlinked marks it, and closing the same
  -- descriptor once more takes the queue out of the list and frees it: both calls return 0.
  mq_close-twice :
      (a : ℕ) (s : State K)
      → s.inited ≡ true
      → extract_in K a (elems s.allq) ≡ some a
      → (s.mem a).open_count ≡ 1
      → (s.mem a).pending_unlink ≡ 0
      → let closed = mq_close K a s in
        let again = mq_close K a closed.1 in
        (closed.0 ≡ ok)
        × (closed.1.allq ≡ s.allq)
        × (again.0 ≡ ok)
        × (again.1.allq ≡ lle_del a s.allq)
        × (again.1.freed ≡ a ∷ (s.mem a).buf ∷ s.freed)
  unfolding mq_free
  mq_close-twice a s init listed one unmarked =
      let marked = unlock K (record (lock K s) {
        mem = update K s.mem a (record (s.mem a) { open_count = 0; pending_unlink = 1 });
      }) in
      let mem = marked.mem a in
      let here : mem ≡ record (s.mem a) { open_count = 0; pending_unlink = 1 } = ground arith in
      let first : mq_close K a s ≡ (ok, marked) =
        close_last a s init listed (omega arith) unmarked in
      let second =
        close_marked a marked init listed (omega (arith, ap (λ m. m.open_count) here))
          (omega (arith, ap (λ m. m.pending_unlink) here)) in
      rw first (rw second (refl, refl, refl, refl, ground arith))

  -- `mq_unlink` of a queue with one open descriptor keeps it in the list, and the `mq_close` that
  -- follows takes it out and frees the structure and its buffer, with the kernel's queue as it was;
  -- both return 0.
  pub mq_close-mq_unlink :
      (name : List ℕ) (a : ℕ) (s : State K)
      → s.inited ≡ true
      → validate_name name ≡ true
      → find_in K s.mem name (elems s.allq) ≡ some a
      → (s.mem a).open_count ≡ 1
      → let unlinked = mq_unlink K name s in
        let closed = mq_close K a unlinked.1 in
        (unlinked.0 ≡ ok)
        × (unlinked.1.allq ≡ s.allq)
        × (unlinked.1.freed ≡ s.freed)
        × (closed.0 ≡ ok)
        × (closed.1.allq ≡ lle_del a s.allq)
        × (closed.1.freed ≡ a ∷ (s.mem a).buf ∷ s.freed)
        × ((closed.1.mem a).q ≡ (s.mem a).q)
  unfolding mq_free
  mq_close-mq_unlink name a s init valid found one =
      let marked =
        unlock K (record (lock K s) {
          mem = update K s.mem a (record (s.mem a) { pending_unlink = 1 });
        }) in
      let here : marked.mem a ≡ record (s.mem a) { pending_unlink = 1 } = ground arith in
      let listed = extract_in-find_in s.mem name (elems s.allq) a found in
      let first : mq_unlink K name s ≡ (ok, marked) =
        unlink_open name a s init valid found (omega arith) in
      let second =
        close_marked a marked init listed (omega (arith, ap (λ m. m.open_count) here))
          (omega (arith, ap (λ m. m.pending_unlink) here)) in
      rw first (rw second (refl, refl, refl, refl, refl, ground arith, ground arith))

  -- Opening a listed queue by its name and closing the descriptor again, while another is open, gives
  -- the queue's address, returns 0, and leaves every queue, the list and the freed memory as they
  -- were, whatever attributes and flags are given other than O_CREAT with O_EXCL.
  mq_close-mq_open :
      (name : List ℕ) (oflag : Flags) (attr : Option Attr) (am ab : Option ℕ) (a : ℕ) (s : State K)
      → s.inited ≡ true
      → validate_name name ≡ true
      → is_negative K attr ≡ false
      → (oflag.excl && oflag.creat) ≡ false
      → find_in K s.mem name (elems s.allq) ≡ some a
      → 0 < (s.mem a).open_count
      → (s.mem a).open_count + 1 < 2 ^ 16
      → let opened = mq_open K name oflag attr am ab s in
        let closed = mq_close K a opened.1 in
        (opened.0 ≡ some a)
        × (closed.0 ≡ ok)
        × ((b : ℕ) → closed.1.mem b ≡ s.mem b)
        × (closed.1.allq ≡ s.allq)
        × (closed.1.freed ≡ s.freed)
  mq_close-mq_open name oflag attr am ab a s init valid fine plain found pos_count room =
      let opened = unlock K (record (lock K s) {
        mem =
            update K s.mem a
              (record (s.mem a) { open_count = ((s.mem a).open_count + 1) % 2 ^ 16 });
      }) in
      let here : opened.mem a
          ≡ record (s.mem a) { open_count = ((s.mem a).open_count + 1) % 2 ^ 16 } =
        ground arith in
      let listed = extract_in-find_in s.mem name (elems s.allq) a found in
      let first : mq_open K name oflag attr am ab s ≡ (some a, opened) =
        open_listed name oflag attr am ab a s init valid fine plain found in
      let second = close_more a opened init listed (omega (arith, ap (λ m. m.open_count) here)) in
      rw first (rw second (refl, refl, λ b. ground arith, refl, refl))
