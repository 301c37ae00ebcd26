-- ===== src/Mqueue/Serves.antt =====
-- The calls of src/posix_mqueue.c that open a queue or transfer a message do what the directory does.
use libposix.Prelude.{
  ℕ, ◌+◌, ◌%◌, ◌^◌, ◌≡◌, refl, ap, ◌∙◌, Option, none, some, or_else, true, false, ◌&&◌, List,
  Bool-cases, inl, inr, arith,
}
use libposix.Prelude.Status.{enoent, eexist}
use libposix.Kernel.{Queues}
use libposix.Mqueue.{def_attr, Flags, Attr, validate_name}
use libposix.Mqueue.State.{State, Mqd, update, lock, unlock, set_errno, find_in}
use libposix.Mqueue.Open.{mq_open, open_found, create, is_negative, zero_mqd}
use libposix.Mqueue.Count.{check_again, find_listed, open_listed}
use libposix.Mqueue.Directory.{Directory, opened, look, put, failing, serve_open}
use libposix.Mqueue.Views.{directory, alter-fresh, directory-update}
use libposix.Mqueue.Refines.{Shows, with_descriptor, missing_name}

-- The memory that the allocator hands out for a queue is not that of a queue in the directory.
abbrev pub Fresh : (K : Queues) → Option ℕ → Directory K → Type 0
Fresh K none d = Unit
Fresh K (some a) d = look K a d.queues ≡ none

module _ (K : Queues) where
  open K use {elems}

  module _ (s : State K) (init : s.inited ≡ true) where
    unlisted-update :
        (a : ℕ) (m : Mqd K)
        → look K a (directory K s).queues ≡ none
        → directory K (record s { mem = update K s.mem a m }) ≡ directory K s
    unlisted-update a m fresh =
        directory-update K s a m
        ∙ ap (λ qs. record (directory K s) { queues = qs })
            (alter-fresh K a m (directory K s).queues fresh)

    create-Shows :
        (name : List ℕ) (oflag : Flags) (attr : Attr) (am ab : Option ℕ)
        → oflag.creat ≡ true
        → Fresh K am (directory K s)
        → Shows K
            (with_descriptor K (create K name oflag attr am ab (lock K s)))
            (serve_open K oflag am ab none (directory K s))
    unfolding create serve_open
    create-Shows name oflag attr none ab creat fresh = (refl, refl, init)
    create-Shows name oflag attr (some a) none creat fresh = (
      refl,
      ap (λ (d : Directory K). record d { errno = some enoent })
          (unlisted-update a (zero_mqd K) fresh),
      init,
    )
    create-Shows name oflag attr (some a) (some buf) creat fresh =
        rw creat (refl, unlisted-update a _ fresh, init)

    open_new :
        (name : List ℕ) (oflag : Flags) (attr : Option Attr) (am ab : Option ℕ)
        → validate_name name ≡ true
        → is_negative K attr ≡ false
        → find_in K s.mem name (elems s.allq) ≡ none
        → mq_open K name oflag attr am ab s ≡ open_found K name oflag attr am ab (lock K s) none
    unfolding mq_open
    open_new name oflag attr am ab valid fine e =
        rw (valid, mq_open)
          (rw (fine, mq_open)
            (rw (missing_name K s init name e, mq_open) (rw (check_again K s init) refl)))

    open_creating :
        (name : List ℕ) (oflag : Flags) (attr : Option Attr) (am ab : Option ℕ)
        → oflag.creat ≡ true
        → open_found K name oflag attr am ab (lock K s) none
          ≡ create K name oflag (or_else attr def_attr) am ab (lock K s)
    unfolding open_found
    open_creating name oflag attr am ab creat = ground arith

    open_refusing :
        (name : List ℕ) (oflag : Flags) (attr : Option Attr) (am ab : Option ℕ)
        → oflag.creat ≡ false
        → open_found K name oflag attr am ab (lock K s) none
          ≡ (none, unlock K (set_errno K enoent (lock K s)))
    unfolding open_found
    open_refusing name oflag attr am ab no_ = ground arith

    serve_refusing :
        (oflag : Flags) (am ab : Option ℕ) (d : Directory K)
        → oflag.creat ≡ false
        → serve_open K oflag am ab none d ≡ failing K enoent (opened none) d
    unfolding serve_open
    serve_refusing oflag none ab d no_ = refl
    serve_refusing oflag (some a) none d no_ = refl
    serve_refusing oflag (some a) (some buf) d no_ = ground arith

    pub open_new-Shows :
        (name : List ℕ) (oflag : Flags) (attr : Option Attr) (am ab : Option ℕ)
        → validate_name name ≡ true
        → is_negative K attr ≡ false
        → find_in K s.mem name (elems s.allq) ≡ none
        → Fresh K am (directory K s)
        → Shows K
            (with_descriptor K (mq_open K name oflag attr am ab s))
            (serve_open K oflag am ab none (directory K s))
    open_new-Shows name oflag attr am ab valid fine e fresh = elim (Bool-cases oflag.creat) [
      | inl creat ↦
          rw
            (open_new name oflag attr am ab valid fine e
              ∙ open_creating name oflag attr am ab creat)
            (create-Shows name oflag (or_else attr def_attr) am ab creat fresh)
      | inr no_ ↦
          rw
            (
              open_new name oflag attr am ab valid fine e ∙ open_refusing name oflag attr am ab no_,
              serve_refusing oflag am ab (directory K s) no_,
            )
            (refl, refl, init)
    ]

    serve_existing :
        (oflag : Flags) (am ab : Option ℕ) (a : ℕ) (m : Mqd K) (d : Directory K)
        → (oflag.excl && oflag.creat) ≡ false
        → serve_open K oflag am ab (some (a, m)) d
          ≡ (opened (some a), put K a (record m { open_count = (m.open_count + 1) % 2 ^ 16 }) d)
    unfolding serve_open
    serve_existing oflag none ab a m d e = ground arith
    serve_existing oflag (some b) none a m d e = ground arith
    serve_existing oflag (some b) (some c) a m d e = ground arith

    serve_exclusive :
        (oflag : Flags) (am ab : Option ℕ) (a : ℕ) (m : Mqd K) (d : Directory K)
        → (oflag.excl && oflag.creat) ≡ true
        → serve_open K oflag am ab (some (a, m)) d ≡ failing K eexist (opened none) d
    unfolding serve_open
    serve_exclusive oflag none ab a m d e = ground arith
    serve_exclusive oflag (some b) none a m d e = ground arith
    serve_exclusive oflag (some b) (some c) a m d e = ground arith

    open_exclusive :
        (name : List ℕ) (oflag : Flags) (attr : Option Attr) (am ab : Option ℕ) (a : ℕ)
        → validate_name name ≡ true
        → is_negative K attr ≡ false
        → (oflag.excl && oflag.creat) ≡ true
        → find_in K s.mem name (elems s.allq) ≡ some a
        → mq_open K name oflag attr am ab s ≡ (none, unlock K (set_errno K eexist (lock K s)))
    unfolding mq_open open_found
    open_exclusive name oflag attr am ab a valid fine e found =
        rw (valid, mq_open)
          (rw (fine, mq_open)
            (rw (find_listed K name a s init found, mq_open)
              (rw (check_again K s init) (ground arith))))

    pub open_found-Shows :
        (name : List ℕ) (oflag : Flags) (attr : Option Attr) (am ab : Option ℕ) (a : ℕ)
        → validate_name name ≡ true
        → is_negative K attr ≡ false
        → find_in K s.mem name (elems s.allq) ≡ some a
        → Shows K
            (with_descriptor K (mq_open K name oflag attr am ab s))
            (serve_open K oflag am ab (some (a, s.mem a)) (directory K s))
    open_found-Shows name oflag attr am ab a valid fine found =
        elim (Bool-cases (oflag.excl && oflag.creat)) [
          | inl both ↦
              rw
                (
                  open_exclusive name oflag attr am ab a valid fine both found,
                  serve_exclusive oflag am ab a (s.mem a) (directory K s) both,
                )
                (refl, refl, init)
          | inr plain ↦
              let m = record (s.mem a) { open_count = ((s.mem a).open_count + 1) % 2 ^ 16 } in
              rw
                (
                  open_listed K name oflag attr am ab a s init valid fine plain found,
                  serve_existing oflag am ab a (s.mem a) (directory K s) plain,
                )
                (refl, directory-update K s a m, init)
        ]
