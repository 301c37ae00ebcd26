-- ===== src/Mqueue/Refines.antt =====
-- The calls of src/posix_mqueue.c that handle descriptors do what the directory does.
use libposix.Prelude.{
  ℕ, ◌-◌, ◌≡◌, refl, sym, ap, ◌∙◌, Option, none, some, true, ltb, ◌==◌, List, Bool-cases, inl, inr,
  arith,
}
use libposix.Prelude.Status.{Ret, ok}
use libposix.Prelude.Int.{ℤ}
use libposix.Kernel.{Queues}
use libposix.Mqueue.{Flags, validate_name}
use libposix.Mqueue.State.{
  State, Mqd, update, lock, unlock, mq_check_init, mq_extract_locked, mq_find_locked, extract_in,
  find_in, mq_free,
}
use libposix.Mqueue.Close.{mq_close, mq_getattr, mq_unlink}
use libposix.Mqueue.Count.{
  check_again, close_more, close_last, close_marked, find_listed, unlink_open,
}
use libposix.Mqueue.Directory.{
  Directory, Reply, opened, returned, attributes, alter, take_out, serve_close, serve_getattr,
  serve_unlink,
}
use libposix.Mqueue.Views.{view, directory, view-update, view-remove, alter-same, directory-update}

module _ (K : Queues) where
  open K use {elems, lle_del, n, sz, isz}

  abbrev pub with_ret : Ret × State K → Reply K × State K
  with_ret r = (returned r.0, r.1)

  abbrev pub with_descriptor : Option ℕ × State K → Reply K × State K
  with_descriptor r = (opened r.0, r.1)

  abbrev pub with_attributes : Ret × Option (Flags × ℤ × ℤ × ℤ) × State K → Reply K × State K
  with_attributes r = (attributes r.0 r.1, r.2)

  -- The reply, the directory afterwards, and that the list is still set up.
  abbrev pub Shows : Reply K × State K → Reply K × Directory K → Type 0
  Shows r d = (r.0 ≡ d.0) × (directory K r.1 ≡ d.1) × (r.1.inited ≡ true)

  take_out_lem :
      (s : State K) (a : ℕ) (m : Mqd K)
      → view K (update K s.mem a m) (elems (lle_del a s.allq))
        ≡ take_out K a (alter K a m (view K s.mem (elems s.allq)))
  take_out_lem s a m =
      ap (view K (update K s.mem a m)) (K.elems-lle_del a s.allq)
      ∙ view-remove K (update K s.mem a m) a (elems s.allq)
      ∙ ap (take_out K a) (view-update K s.mem a m (elems s.allq))

  module _ (s : State K) (init : s.inited ≡ true) where
    missing :
        (a : ℕ)
        → extract_in K a (elems s.allq) ≡ none
        → mq_extract_locked K a (lock K (mq_check_init K s)) ≡ none
    unfolding mq_extract_locked
    missing a e = rw (check_again K s init) e

    pub close_missing :
        (a : ℕ)
        → extract_in K a (elems s.allq) ≡ none
        → Shows (with_ret (mq_close K a s)) (serve_close K a none (directory K s))
    unfolding mq_close serve_close
    close_missing a e = rw (missing a e, mq_close) (rw (check_again K s init) (refl, refl, init))

    pub close_found_one :
        (a : ℕ)
        → extract_in K a (elems s.allq) ≡ some a
        → Shows (with_ret (mq_close K a s)) (serve_close K a (some (s.mem a)) (directory K s))
    unfolding serve_close mq_free
    close_found_one a e = elim (Bool-cases (ltb 1 (s.mem a).open_count)) [
      | inl more ↦
          let m = record (s.mem a) { open_count = (s.mem a).open_count - 1 } in
          rw (more, close_more K a s init e (ground (arith, more)))
            (refl, directory-update K s a m, init)
      | inr last ↦ elim (Bool-cases ((s.mem a).pending_unlink == 0)) [
        | inl unmarked ↦
            let m = record (s.mem a) { open_count = 0; pending_unlink = 1 } in
            rw
              (
                last,
                unmarked,
                close_last K a s init e (ground (arith, last)) (ground (arith, unmarked)),
              )
              (refl, directory-update K s a m, init)
        | inr marked ↦
            let m = record (s.mem a) { open_count = 0 } in
            let gone = take_out_lem s a m in
            let buf : (update K s.mem a m a).buf ≡ (s.mem a).buf = ground arith in
            rw
              (
                last,
                marked,
                close_marked K a s init e (ground (arith, last)) (ground (arith, marked)),
              )
              (refl, rw (gone, buf) refl, init)
      ]
    ]

    pub getattr_missing :
        (a : ℕ)
        → extract_in K a (elems s.allq) ≡ none
        → Shows (with_attributes (mq_getattr K a s)) (serve_getattr K none (directory K s))
    unfolding mq_getattr serve_getattr
    getattr_missing a e =
        rw (missing a e, mq_getattr) (rw (check_again K s init) (refl, refl, init))

    pub getattr_found :
        (a : ℕ)
        → extract_in K a (elems s.allq) ≡ some a
        → Shows
            (with_attributes (mq_getattr K a s))
            (serve_getattr K (some (s.mem a)) (directory K s))
    unfolding mq_getattr serve_getattr mq_extract_locked
    getattr_found a e =
        let found : mq_extract_locked K a (lock K (mq_check_init K s)) ≡ some a =
          rw (check_again K s init) e in
        rw (found, mq_getattr) (rw (check_again K s init) (refl, refl, init))

    pub missing_name :
        (name : List ℕ)
        → find_in K s.mem name (elems s.allq) ≡ none
        → mq_find_locked K name (lock K (mq_check_init K s)) ≡ none
    unfolding mq_find_locked
    missing_name name e = rw (check_again K s init) e

    pub unlink_missing :
        (name : List ℕ)
        → validate_name name ≡ true
        → find_in K s.mem name (elems s.allq) ≡ none
        → Shows (with_ret (mq_unlink K name s)) (serve_unlink K none (directory K s))
    unfolding mq_unlink serve_unlink
    unlink_missing name valid e =
        rw (valid, mq_unlink)
          (rw (missing_name name e, mq_unlink) (rw (check_again K s init) (refl, refl, init)))

    unlink_closed :
        (name : List ℕ) (a : ℕ)
        → validate_name name ≡ true
        → find_in K s.mem name (elems s.allq) ≡ some a
        → ((s.mem a).open_count == 0) ≡ true
        → mq_unlink K name s
          ≡ (ok, mq_free K a (unlock K (record (lock K s) { allq = lle_del a s.allq })))
    unfolding mq_unlink
    unlink_closed name a valid found closed =
        rw (valid, mq_unlink)
          (rw (find_listed K name a s init found, mq_unlink)
            (rw (check_again K s init) (rw closed refl)))

    pub unlink_found :
        (name : List ℕ) (a : ℕ)
        → validate_name name ≡ true
        → find_in K s.mem name (elems s.allq) ≡ some a
        → Shows (with_ret (mq_unlink K name s)) (serve_unlink K (some (a, s.mem a)) (directory K s))
    unfolding serve_unlink mq_free
    unlink_found name a valid found = elim (Bool-cases ((s.mem a).open_count == 0)) [
      | inl closed ↦
          let gone : view K s.mem (elems (lle_del a s.allq))
              ≡ take_out K a (alter K a (s.mem a) (view K s.mem (elems s.allq))) =
            ap (view K s.mem) (K.elems-lle_del a s.allq)
            ∙ view-remove K s.mem a (elems s.allq)
            ∙ ap (take_out K a) (sym (alter-same K s.mem a (elems s.allq))) in
          rw (closed, unlink_closed name a valid found closed) (refl, rw gone refl, init)
      | inr open_ ↦
          let m = record (s.mem a) { pending_unlink = 1 } in
          rw (open_, unlink_open K name a s init valid found (ground (arith, open_)))
            (refl, directory-update K s a m, init)
    ]
