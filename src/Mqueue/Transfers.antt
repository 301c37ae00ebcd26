-- ===== src/Mqueue/Transfers.antt =====
-- `mq_timedsend` and `mq_timedreceive` of src/posix_mqueue.c do what the directory does.
use libposix.Prelude.{
  ℕ, ◌≡◌, refl, ap, Option, none, some, Bool, true, ltb, List, Bool-cases, Option-cases, inl, inr,
  arith,
}
use libposix.Prelude.Int.{ℤ}
use libposix.Prelude.Status.{Errno}
use libposix.Kernel.{Queues}
use libposix.Time.{Timespec, Platform}
use libposix.Mqueue.State.{State, lock, unlock, set_errno, mq_extract_locked, extract_in}
use libposix.Mqueue.Transfer.{
  mq_timedreceive, mq_timedsend, prepare, checks, finish_send, finish_receive, not_ready,
}
use libposix.Mqueue.Directory.{
  Directory, Reply, received, obstacle, size_of, serve_receive, serve_send,
}
use libposix.Mqueue.Views.{directory, directory-update}
use libposix.Mqueue.Refines.{Shows, with_ret}

module _ (K : Queues) where
  open K use {elems, isz, mq_get, mq_put, wait}

  abbrev pub with_received : ℤ × Option (List ℕ) × State K → Reply K × State K
  with_received r = (received r.0 r.1, r.2)

  -- What `checks` gives where this stands against the transfer.
  abbrev checked : ℕ → Option Errno × ℕ → State K → Option (ℕ × ℕ) × State K
  checked a (some e, timeout) s = (none, set_errno K e s)
  checked a (none, timeout) s = (some (a, timeout), s)

  checks-obstacle :
      (bad : ℕ → Bool) (p : Platform) (now ptr : ℕ) (t : Option Timespec) (s : State K) (a : ℕ)
      → checks K bad p now ptr t s (some a)
        ≡ checked a (obstacle K (bad (isz (s.mem a).q)) p now ptr t (some (s.mem a))) s
  unfolding checks obstacle
  checks-obstacle bad p now ptr t s a = ground arith

  checks-missing :
      (bad : ℕ → Bool) (p : Platform) (now ptr : ℕ) (t : Option Timespec) (s : State K) (a : ℕ)
      (size_bad : Bool)
      → checks K bad p now ptr t s none ≡ checked a (obstacle K size_bad p now ptr t none) s
  unfolding checks obstacle
  checks-missing bad p now ptr t s a size_bad = ground arith

  abbrev unlocking : Option (ℕ × ℕ) × State K → Option (ℕ × ℕ) × State K
  unlocking r = (r.0, unlock K r.1)

  prepare-found :
      (bad : ℕ → Bool) (p : Platform) (now a ptr : ℕ) (t : Option Timespec) (s : State K)
      → extract_in K a (elems s.allq) ≡ some a
      → prepare K bad p now a ptr t s
        ≡ unlocking
            (checked a (obstacle K (bad (isz (s.mem a).q)) p now ptr t (some (s.mem a))) (lock K s))
  unfolding prepare mq_extract_locked
  prepare-found bad p now a ptr t s e =
      rw e (ap unlocking (checks-obstacle bad p now ptr t (lock K s) a))

  prepare-missing :
      (bad : ℕ → Bool) (p : Platform) (now a ptr : ℕ) (t : Option Timespec) (s : State K)
      (size_bad : Bool)
      → extract_in K a (elems s.allq) ≡ none
      → prepare K bad p now a ptr t s
        ≡ unlocking (checked a (obstacle K size_bad p now ptr t none) (lock K s))
  unfolding prepare mq_extract_locked
  prepare-missing bad p now a ptr t s size_bad e =
      rw e (ap unlocking (checks-missing bad p now ptr t (lock K s) a size_bad))

  module _ (s : State K) (init : s.inited ≡ true) (a : ℕ) where
    receive_ready :
        (timeout : ℕ)
        → Shows K
            (with_received (finish_receive K (some (a, timeout), unlock K (lock K s))))
            (serve_receive K a (none, timeout) (some (s.mem a)) (directory K s))
    unfolding finish_receive serve_receive
    receive_ready timeout = elim (Option-cases (mq_get (s.mem a).q timeout).0) [
      | inl nothing ↦
          rw (nothing, finish_receive, serve_receive)
            (
              refl,
              ap (λ (d : Directory K). record d { errno = some (not_ready K (s.mem a).flags) })
                  (directory-update K s a
                    (record (s.mem a) { q = (mq_get (s.mem a).q timeout).1 })),
              init,
            )
      | inr (msg, got) ↦
          rw (got, finish_receive, serve_receive)
            (
              refl,
              directory-update K s a (record (s.mem a) { q = (mq_get (s.mem a).q timeout).1 }),
              init,
            )
    ]

    receive_checked :
        (o : Option Errno × ℕ)
        → Shows K
            (with_received (finish_receive K (unlocking (checked a o (lock K s)))))
            (serve_receive K a o (some (s.mem a)) (directory K s))
    unfolding finish_receive serve_receive
    receive_checked (none, timeout) = receive_ready timeout
    receive_checked (some e, timeout) = (refl, refl, init)

    send_ready :
        (msg : List ℕ) (timeout : ℕ)
        → Shows K
            (with_ret K (finish_send K msg (some (a, timeout), unlock K (lock K s))))
            (serve_send K a msg (none, timeout) (some (s.mem a)) (directory K s))
    unfolding finish_send serve_send
    send_ready msg timeout =
        let q = mq_put (s.mem a).q msg timeout in
        let stored = directory-update K s a (record (s.mem a) { q = q.1 }) in
        elim (Bool-cases q.0) [
          | inl put_ ↦ rw put_ (refl, stored, init)
          | inr full ↦ rw full (
            refl,
            ap (λ (d : Directory K). record d { errno = some (not_ready K (s.mem a).flags) })
                stored,
            init,
          )
        ]

    send_checked :
        (msg : List ℕ) (o : Option Errno × ℕ)
        → Shows K
            (with_ret K (finish_send K msg (unlocking (checked a o (lock K s)))))
            (serve_send K a msg o (some (s.mem a)) (directory K s))
    unfolding finish_send serve_send
    send_checked msg (none, timeout) = send_ready msg timeout
    send_checked msg (some e, timeout) = (refl, refl, init)

    receive_missing :
        (size_bad : Bool) (p : Platform) (now ptr : ℕ) (t : Option Timespec)
        → Shows K
            (with_received (
              finish_receive K
                (unlocking (checked a (obstacle K size_bad p now ptr t none) (lock K s)))))
            (serve_receive K a (obstacle K size_bad p now ptr t none) none (directory K s))
    unfolding finish_receive serve_receive obstacle
    receive_missing size_bad p now ptr t = (refl, refl, init)

    send_missing :
        (size_bad : Bool) (msg : List ℕ) (p : Platform) (now ptr : ℕ) (t : Option Timespec)
        → Shows K
            (with_ret K (
              finish_send K msg
                (unlocking (checked a (obstacle K size_bad p now ptr t none) (lock K s)))))
            (serve_send K a msg (obstacle K size_bad p now ptr t none) none (directory K s))
    unfolding finish_send serve_send obstacle
    send_missing size_bad msg p now ptr t = (refl, refl, init)

    pub receive_found-Shows :
        (p : Platform) (now ptr len : ℕ) (t : Option Timespec)
        → extract_in K a (elems s.allq) ≡ some a
        → let found = some (s.mem a) in
          Shows K (with_received (mq_timedreceive K p now a ptr len t s)) (
            serve_receive K a
              (obstacle K (ltb len (size_of K found)) p now ptr t found)
              found
              (directory K s))
    unfolding mq_timedreceive
    receive_found-Shows p now ptr len t e =
        rw (prepare-found (λ size. ltb len size) p now a ptr t s e) (receive_checked _)

    pub receive_missing-Shows :
        (p : Platform) (now ptr len : ℕ) (t : Option Timespec)
        → extract_in K a (elems s.allq) ≡ none
        → Shows K
            (with_received (mq_timedreceive K p now a ptr len t s))
            (serve_receive K a (obstacle K (ltb len 0) p now ptr t none) none (directory K s))
    unfolding mq_timedreceive
    receive_missing-Shows p now ptr len t e =
        rw (prepare-missing (λ size. ltb len size) p now a ptr t s (ltb len 0) e)
          (receive_missing (ltb len 0) p now ptr t)

    pub send_found-Shows :
        (p : Platform) (now ptr : ℕ) (msg : List ℕ) (len : ℕ) (t : Option Timespec)
        → extract_in K a (elems s.allq) ≡ some a
        → let found = some (s.mem a) in
          Shows K (with_ret K (mq_timedsend K p now a ptr msg len t s)) (
            serve_send K a msg
              (obstacle K (ltb (size_of K found) len) p now ptr t found)
              found
              (directory K s))
    unfolding mq_timedsend
    send_found-Shows p now ptr msg len t e =
        rw (prepare-found (λ size. ltb size len) p now a ptr t s e) (send_checked msg _)

    pub send_missing-Shows :
        (p : Platform) (now ptr : ℕ) (msg : List ℕ) (len : ℕ) (t : Option Timespec)
        → extract_in K a (elems s.allq) ≡ none
        → Shows K
            (with_ret K (mq_timedsend K p now a ptr msg len t s))
            (serve_send K a msg (obstacle K (ltb 0 len) p now ptr t none) none (directory K s))
    unfolding mq_timedsend
    send_missing-Shows p now ptr msg len t e =
        rw (prepare-missing (λ size. ltb size len) p now a ptr t s (ltb 0 len) e)
          (send_missing (ltb 0 len) msg p now ptr t)
