-- ===== src/Hooks/QueueMemory.antt =====
-- src/posix_mqueue.c with the memory of the application: what `mq_open` gets, and `mq_free` gives back.
use libposix.Prelude.{
  ℕ, ◌+◌, ◌≡◌, refl, ap, ◌∙◌, ◌⊎◌, inl, inr, Option, none, some, or_else, true, false, ◌&&◌, List,
  arith, Bool-cases, Option-cases,
}
use libposix.Prelude.Status.{enoent}
use libposix.Kernel.{Queues}
use libposix.Mqueue.{Flags, Attr, validate_name, def_attr, message_words, buffer_size}
use libposix.Mqueue.State.{State, lock, mq_check_init, mq_find_locked}
use libposix.Mqueue.Open.{mq_open, open_found, create, is_negative}
use libposix.Hooks.{
  posix_mqueue, posix_mqueue_buf, hcos_posix_init, creates, use_mq, open_queue, free_queue,
}
use libposix.Hooks.Memory.{
  Allocator, hooks, SameMemory, HasOne, HasBoth, none_got, two_got, two_back,
}

module _ (A : Allocator) (K : Queues) where
  open A use {W, alloc, free, holds}

  abbrev pub found : List ℕ → State K → Option ℕ
  found name s = mq_find_locked K name (lock K (mq_check_init K s))

  created_lem :
      (name : List ℕ) (oflag : Flags) (attr : Option Attr) (am ab : Option ℕ) (s : State K)
      → creates K name oflag attr s ≡ true
      → mq_open K name oflag attr am ab s
        ≡ create K name oflag (or_else attr def_attr) am ab (lock K (mq_check_init K s))
  unfolding creates mq_open open_found
  created_lem name oflag attr am ab s e = elim (Option-cases (found name s)) [
    | inl nobody ↦ ground (arith, e, nobody)
    | inr (a, there) ↦ absurd (ground (arith, e, there))
  ]

  -- What a call returns that creates no queue.
  abbrev pub Returns : List ℕ → State K → Option ℕ × State K → Type 0
  Returns name s r = (r.0 ≡ none) ⊎ ((a : ℕ) × (r.0 ≡ some a) × (found name s ≡ some a))

  opened_lem :
      (name : List ℕ) (oflag : Flags) (attr : Option Attr) (s : State K) (a : ℕ)
      → validate_name name ≡ true
      → is_negative K attr ≡ false
      → found name s ≡ some a
      → Returns name s (mq_open K name oflag attr none none s)
  unfolding mq_open open_found
  opened_lem name oflag attr s a valid fine there = elim (Bool-cases (oflag.excl && oflag.creat)) [
    | inl clash ↦ inl ground (arith, valid, fine, there, clash)
    | inr plain ↦ inr (a, ground (arith, valid, fine, there, plain), there)
  ]

  not_created_lem :
      (name : List ℕ) (oflag : Flags) (attr : Option Attr) (s : State K)
      → creates K name oflag attr s ≡ false
      → Returns name s (mq_open K name oflag attr none none s)
  unfolding creates mq_open open_found
  not_created_lem name oflag attr s e = elim (Bool-cases (validate_name name)) [
    | inr invalid ↦ inl ground (arith, invalid)
    | inl valid ↦ elim (Bool-cases (is_negative K attr)) [
      | inl negative ↦ inl ground (arith, valid, negative)
      | inr fine ↦ elim (Option-cases (found name s)) [
        | inl nobody ↦ inl ground (arith, e, valid, fine, nobody)
        | inr (a, there) ↦ opened_lem name oflag attr s a valid fine there
      ]
    ]
  ]

  -- What a call that creates a queue makes of the memory `w` and of `s`.
  abbrev pub MakesQueue : State K → W → (Option ℕ × State K) × W → Type 0
  MakesQueue s w r =
      let (given, after) = r.0 in
      ((given ≡ none)
        × (after.errno ≡ some enoent)
        × (after.locks ≡ (mq_check_init K s).locks + 1)
        × (SameMemory A r.1 w ⊎ ((a : ℕ) × HasOne A posix_mqueue w a r.1)))
      ⊎ ((a : ℕ) × (buf : ℕ) × (given ≡ some a)
          × (after.locks ≡ (mq_check_init K s).locks)
          × ((after.mem a).buf ≡ buf)
          × HasBoth A posix_mqueue posix_mqueue_buf w a buf r.1
          × ((later : State K)
              → (later.mem a).buf ≡ buf
              → SameMemory A (free_queue (hooks A) K a later r.1) w))

  free_queue-HasBoth :
      (a buf : ℕ) (later : State K) (w w' : W)
      → HasBoth A posix_mqueue posix_mqueue_buf w a buf w'
      → (later.mem a).buf ≡ buf
      → SameMemory A (free_queue (hooks A) K a later w') w
  unfolding free_queue hcos_posix_init
  free_queue-HasBoth a buf later w w' both e =
      rw e (two_back A posix_mqueue posix_mqueue_buf a buf w w' both)

  module _ (name : List ℕ) (oflag : Flags) (attr : Option Attr) (s : State K) (w : W)
      (new : creates K name oflag attr s ≡ true) where
    buffer-MakesQueue :
        (size buf_sz a : ℕ) (got : Option ℕ × W)
        → (alloc posix_mqueue size w).0 ≡ some a
        → alloc posix_mqueue_buf buf_sz (alloc posix_mqueue size w).1 ≡ got
        → MakesQueue s w (mq_open K name oflag attr (some a) got.0 s, got.1)
    unfolding create
    buffer-MakesQueue size buf_sz a (none, w2) e e' =
        let (fresh, one) = A.alloc-some posix_mqueue size a w e in
        let w1 = (alloc posix_mqueue size w).1 in
        let same = none_got A posix_mqueue_buf buf_sz w1 w2 e' in
        rw (created_lem name oflag attr (some a) none s new)
          (inl (refl, refl, refl, inr (a, (fresh, λ q. same q ∙ one q))))
    buffer-MakesQueue size buf_sz a (some buf, w2) e e' =
        let both = two_got A posix_mqueue posix_mqueue_buf size buf_sz a buf w w2 e e' in
        rw (created_lem name oflag attr (some a) (some buf) s new) (
          inr (
            a,
            buf,
            refl,
            omega arith,
            ground arith,
            both,
            λ later kept. free_queue-HasBoth a buf later w w2 both kept,
          ))

    use_mq-MakesQueue :
        (size buf_sz : ℕ) (got : Option ℕ × W)
        → alloc posix_mqueue size w ≡ got
        → MakesQueue s w (use_mq (hooks A) K name oflag attr buf_sz s got)
    unfolding use_mq create hcos_posix_init
    use_mq-MakesQueue size buf_sz (none, w1) e =
        rw (created_lem name oflag attr none none s new)
          (inl (refl, refl, refl, inl (none_got A posix_mqueue size w w1 e)))
    use_mq-MakesQueue size buf_sz (some a, w1) e =
        buffer-MakesQueue size buf_sz a (alloc posix_mqueue_buf buf_sz w1) (ap (λ r. r.0) e)
          (ap (λ r. alloc posix_mqueue_buf buf_sz r.1) e)

  -- The application's functions are set by `hcos_posix_init`, and `mq_open` is called. Either it creates
  -- no queue: then the same stands at each address as before, and it returns -1 or the descriptor of
  -- the queue that is found by the name. Or it creates one, with one of two outcomes: it returns -1
  -- with ENOENT, the list is left locked once more than before, and the same stands at each address as
  -- before or a structure has been got and is lost; or it returns a structure, got with a buffer in
  -- memory that was free, the list is locked as it was, and `mq_free` of the descriptor, in any
  -- later state in which the structure still has that buffer, gives back both, so that the same
  -- stands at each address as before.
  pub open_queue-free_queue :
      (size : ℕ) (name : List ℕ) (oflag : Flags) (attr : Option Attr) (s : State K) (w : W)
      → let r = open_queue (hooks A) K size name oflag attr s w in
        ((creates K name oflag attr s ≡ false) × SameMemory A r.1 w × Returns name s r.0)
        ⊎ ((creates K name oflag attr s ≡ true) × MakesQueue s w r)
  unfolding open_queue hcos_posix_init
  open_queue-free_queue size name oflag attr s w =
      let given = or_else attr def_attr in
      let buf_sz = buffer_size given.mq_maxmsg (message_words given.mq_msgsize) in
      elim (Bool-cases (creates K name oflag attr s)) [
        | inl new ↦ inr (
          new,
          rw new (
              use_mq-MakesQueue name oflag attr s w new size buf_sz (alloc posix_mqueue size w)
                refl),
        )
        | inr old ↦ inl (old, rw old (λ q. refl), rw old (not_created_lem name oflag attr s old))
      ]
