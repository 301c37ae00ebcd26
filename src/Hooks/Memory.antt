-- ===== src/Hooks/Memory.antt =====
-- The memory that the library gets from the application, and gives back: one piece and two, and what a
-- thread of src/posix_pthread.c gets.
use libposix.Prelude.{
  ℕ, ◌≡◌, ◌≢◌, refl, sym, ap, ◌∙◌, ◌⊎◌, inl, inr, Option, none, some, or_else, Bool, true, false,
  ◌==◌, if◌then◌else◌, arith,
}
use libposix.Prelude.Int.{pos}
use libposix.Kernel.{Semaphores, Mutexes}
use libposix.Attributes.{PthreadAttr, default_attr, status_priority}
use libposix.Pthread.{PthreadInternal, new_thread, Created, pthread_create}
use libposix.Hooks.{
  PosixObj, posix_thread, posix_stack, Hooks, unset, hcos_posix_init, use_stack, use_thread,
  create_thread,
}

-- The application's functions, and what stands at each address: they hand out free memory, and take
-- back what is given back as the kind that it was handed out as.
pub record Allocator : Type 1 where
  pub W : Type 0
  pub alloc : PosixObj → ℕ → W → Option ℕ × W
  pub free : PosixObj → ℕ → W → W
  pub holds : W → ℕ → Option PosixObj
  pub alloc-some :
      (o : PosixObj) (size p : ℕ) (w : W)
      → (alloc o size w).0 ≡ some p
      → (holds w p ≡ none)
        × ((q : ℕ) → holds (alloc o size w).1 q ≡ (if p == q then some o else holds w q))
  pub alloc-none :
      (o : PosixObj) (size : ℕ) (w : W)
      → (alloc o size w).0 ≡ none
      → (q : ℕ) → holds (alloc o size w).1 q ≡ holds w q
  pub holds-free :
      (o : PosixObj) (p : ℕ) (w : W)
      → holds w p ≡ some o
      → (q : ℕ) → holds (free o p w) q ≡ (if p == q then none else holds w q)

module _ (A : Allocator) where
  open A use {W, alloc, free, holds}

  -- After `hcos_posix_init` with these functions.
  abbrev pub hooks : Hooks W
  hooks = hcos_posix_init alloc free (unset W)

  -- Two states of the memory in which the same stands at each address.
  abbrev pub SameMemory : W → W → Type 0
  SameMemory v w = (q : ℕ) → holds v q ≡ holds w q

  -- An allocation that fails.
  pub none_got :
      (o : PosixObj) (size : ℕ) (w w1 : W) → alloc o size w ≡ (none, w1) → SameMemory w1 w
  none_got o size w w1 e q =
      sym (ap (λ r. holds r.1 q) e) ∙ A.alloc-none o size w (ap (λ r. r.0) e) q

  pub one_back :
      (o : PosixObj) (size p : ℕ) (w v : W)
      → (alloc o size w).0 ≡ some p
      → SameMemory v (alloc o size w).1
      → SameMemory (free o p v) w
  one_back o size p w v e same q =
      let (fresh, got) = A.alloc-some o size p w e in
      let there : holds v p ≡ some o = ground (arith, same p, got p) in
      ground (arith, fresh, same q, got q, A.holds-free o p v there q)

  -- The memory `w` with one object more, and with two.
  abbrev pub HasOne : PosixObj → W → ℕ → W → Type 0
  HasOne o w a w' =
      (holds w a ≡ none) × ((q : ℕ) → holds w' q ≡ (if a == q then some o else holds w q))

  pub record HasBoth (o o' : PosixObj) (w : W) (a b : ℕ) (w' : W) : Type 0 where
    pub apart : a ≢ b
    pub free_a : holds w a ≡ none
    pub free_b : holds w b ≡ none
    pub held :
        (q : ℕ) → holds w' q ≡ (if a == q then some o else if b == q then some o' else holds w q)

  -- A thread at `a`, whose stack is at `stack`.
  abbrev pub HasThread : W → ℕ → ℕ → W → Type 0
  HasThread = HasBoth posix_thread posix_stack

  pub two_got :
      (o o' : PosixObj) (size size' a b : ℕ) (w w2 : W)
      → (alloc o size w).0 ≡ some a
      → alloc o' size' (alloc o size w).1 ≡ (some b, w2)
      → HasBoth o o' w a b w2
  two_got o o' size size' a b w w2 e e' =
      let w1 = (alloc o size w).1 in
      let (free_a, got_a) = A.alloc-some o size a w e in
      let (free_b, got_b) = A.alloc-some o' size' b w1 (ap (λ r. r.0) e') in
      let last = ap (λ r. r.1) e' in
      record {
        apart = λ same. ground (arith, same, free_b, got_a a, got_a b);
        free_a = free_a;
        free_b = ground (arith, free_b, got_a b);
        held =
            λ q. sym (ap (λ v. holds v q) last) ∙ ground (arith, free_b, got_a q, got_b q, got_a b);
      }

  pub two_back :
      (o o' : PosixObj) (a b : ℕ) (w w' : W)
      → HasBoth o o' w a b w'
      → SameMemory (free o a (free o' b w')) w
  two_back o o' a b w w' t q =
      let v = free o' b w' in
      let first = A.holds-free o' b w' (ground (arith, t.apart, t.held b)) in
      let there : holds v a ≡ some o = ground (arith, t.apart, first a, t.held a) in
      ground (arith, t.free_a, t.free_b, t.held q, first q, A.holds-free o a v there q)

  module _ (K : Semaphores) (M : Mutexes) where
    -- What a call of `pthread_create` for a thread with these attributes makes of the memory `w`.
    abbrev pub MakesThread : W → PthreadInternal K M → PthreadAttr → Created K M → W → Type 0
    MakesThread w zero given c w' =
        ((c.thread ≡ none) × SameMemory w' w)
        ⊎ ((a : ℕ) × (stack : ℕ) × (c.thread
              ≡ some (a, pos (status_priority given.status), new_thread K M zero given stack))
            × HasThread w a stack w')

    use_stack-MakesThread :
        (tpri_num size stack_size a : ℕ) (refused : Bool) (zero : PthreadInternal K M)
        (attr : Option PthreadAttr) (w : W) (got : Option ℕ × W)
        → (alloc posix_thread size w).0 ≡ some a
        → alloc posix_stack stack_size (alloc posix_thread size w).1 ≡ got
        → let r = use_stack hooks K M tpri_num refused zero attr a got in
          MakesThread w zero (or_else attr (default_attr tpri_num)) r.0 r.1
    unfolding use_stack hcos_posix_init pthread_create
    use_stack-MakesThread tpri_num size stack_size a refused zero attr w (none, w2) e e' =
        let w1 = (alloc posix_thread size w).1 in
        inl (refl, one_back posix_thread size a w w2 e (none_got posix_stack stack_size w1 w2 e'))
    use_stack-MakesThread tpri_num size stack_size a true zero attr w (some stack, w2) e e' = inl (
      refl,
      two_back posix_thread posix_stack a stack w w2
          (two_got posix_thread posix_stack size stack_size a stack w w2 e e'),
    )
    use_stack-MakesThread tpri_num size stack_size a false zero attr w (some stack, w2) e e' =
        inr (a, stack, refl, two_got posix_thread posix_stack size stack_size a stack w w2 e e')

    use_thread-MakesThread :
        (tpri_num size : ℕ) (refused : Bool) (zero : PthreadInternal K M)
        (attr : Option PthreadAttr) (w : W) (got : Option ℕ × W)
        → alloc posix_thread size w ≡ got
        → let r = use_thread hooks K M tpri_num refused zero attr got in
          MakesThread w zero (or_else attr (default_attr tpri_num)) r.0 r.1
    unfolding use_thread hcos_posix_init pthread_create
    use_thread-MakesThread tpri_num size refused zero attr w (none, w1) e =
        inl (refl, none_got posix_thread size w w1 e)
    use_thread-MakesThread tpri_num size refused zero attr w (some a, w1) e =
        let stack_size = (or_else attr (default_attr tpri_num)).stack_sz in
        use_stack-MakesThread tpri_num size stack_size a refused zero attr w
          (alloc posix_stack stack_size w1) (ap (λ r. r.0) e)
          (ap (λ r. alloc posix_stack stack_size r.1) e)

    pub create_thread-MakesThread :
        (tpri_num size : ℕ) (refused : Bool) (zero : PthreadInternal K M)
        (attr : Option PthreadAttr) (w : W)
        → let r = create_thread hooks K M tpri_num size refused zero attr w in
          MakesThread w zero (or_else attr (default_attr tpri_num)) r.0 r.1
    unfolding create_thread hcos_posix_init
    create_thread-MakesThread tpri_num size refused zero attr w =
        use_thread-MakesThread tpri_num size refused zero attr w (alloc posix_thread size w) refl
