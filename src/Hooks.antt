-- ===== src/Hooks.antt =====
-- src/hcos_posix.c and include/hcos_posix.h: the two functions that the library gets memory from and
-- gives it back to, and the operations of src/posix_pthread.c, src/posix_timer.c and
-- src/posix_mqueue.c that call them, with the memory as their state.
pub mod Memory
pub mod ThreadMemory
pub mod TimerMemory
pub mod QueueMemory
mod Examples
use libposix.Prelude.{
  ℕ, Option, none, some, or_else, Bool, true, false, not, ◌||◌, ◌&&◌, List, ◌==◌, if◌then◌else◌,
  ◌≡◌,
}
use libposix.Prelude.Status.{Ret, ok, is_ok}
use libposix.Kernel.{Semaphores, Mutexes, Timers, Queues}
use libposix.Attributes.{PthreadAttr, default_attr, status_joinable}
use libposix.Pthread.{PthreadInternal, Created, pthread_create, pthread_join}
use libposix.Clock.{Thread}
use libposix.Mqueue.{Flags, Attr, validate_name, def_attr, message_words, buffer_size}
use libposix.Mqueue.State.{State, lock, mq_check_init, mq_find_locked}
use libposix.Mqueue.Open.{mq_open, is_negative}
use libposix.Timer.{Sigevent, TimerInternal, unsupported, timer_create, timer_delete}

-- `posix_obj_t`
pub data PosixObj : Type 0 where
  posix_timer : PosixObj
  posix_thread : PosixObj
  posix_stack : PosixObj
  posix_mqueue : PosixObj
  posix_mqueue_buf : PosixObj

-- The two static variables, over the state `W` of the functions that they point to; `none` is 0.
pub record Hooks (W : Type 0) : Type 0 where
  pub hcos_posix_alloc : Option (PosixObj → ℕ → W → Option ℕ × W)
  pub hcos_posix_free : Option (PosixObj → ℕ → W → W)

-- Before `hcos_posix_init`.
abbrev pub unset : (W : Type 0) → Hooks W
unset W = record { hcos_posix_alloc = none; hcos_posix_free = none }

unfoldable pub hcos_posix_init :
    {W : Type 0} → (PosixObj → ℕ → W → Option ℕ × W) → (PosixObj → ℕ → W → W) → Hooks W → Hooks W
hcos_posix_init alloc free hooks = record {
  hcos_posix_alloc = some alloc;
  hcos_posix_free = some free;
}

abbrev pub is_set {ℓ} : {A : Type ℓ} → Option A → Bool
is_set none = false
is_set (some f) = true

module _ (K : Queues) where
  -- Whether a call of `mq_open` creates a queue.
  unfoldable pub creates : List ℕ → Flags → Option Attr → State K → Bool
  creates name oflag attr s =
      validate_name name
      && not (is_negative K attr)
      && oflag.creat
      && not (is_set (mq_find_locked K name (lock K (mq_check_init K s))))

module _ {W : Type 0} (h : Hooks W) where
  -- A call through either variable, for code that has found the first one to be set.
  abbrev pub get : PosixObj → ℕ → W → Option ℕ × W
  get o size w = elim h.hcos_posix_alloc [ none ↦ (none, w) | some f ↦ f o size w ]

  abbrev pub give : PosixObj → ℕ → W → W
  give o a w = elim h.hcos_posix_free [ none ↦ w | some f ↦ f o a w ]

  module _ (K : Semaphores) (M : Mutexes) where
    -- What follows the second allocation of a call that got `a` for the thread.
    unfoldable pub use_stack :
        ℕ
        → (refused : Bool) → PthreadInternal K M
        → Option PthreadAttr
        → ℕ
        → Option ℕ × W
        → Created K M × W
    use_stack tpri_num refused zero attr a (none, w) =
        (pthread_create K M tpri_num true (some a) none refused zero attr, give posix_thread a w)
    use_stack tpri_num refused zero attr a (some stack, w) = (
      pthread_create K M tpri_num true (some a) (some stack) refused zero attr,
      if refused then give posix_thread a (give posix_stack stack w) else w,
    )

    unfoldable pub use_thread :
        ℕ
        → (refused : Bool) → PthreadInternal K M
        → Option PthreadAttr
        → Option ℕ × W
        → Created K M × W
    use_thread tpri_num refused zero attr (none, w) =
        (pthread_create K M tpri_num true none none refused zero attr, w)
    use_thread tpri_num refused zero attr (some a, w) =
        use_stack tpri_num refused zero attr a
          (get posix_stack (or_else attr (default_attr tpri_num)).stack_sz w)

    -- `size` is `sizeof(pthread_internal_t)`.
    unfoldable pub create_thread :
        ℕ
        → (size : ℕ) → (refused : Bool) → PthreadInternal K M
        → Option PthreadAttr
        → W
        → Created K M × W
    unfolding use_thread use_stack
    create_thread tpri_num size refused zero attr w =
        if is_set h.hcos_posix_alloc
        then use_thread tpri_num refused zero attr (get posix_thread size w)
        else (pthread_create K M tpri_num false none none refused zero attr, w)

    -- What `exit_thread` of the thread at `self`, and `pthread_join`, do to the memory.
    unfoldable pub exit_memory : ℕ → PthreadInternal K M → W → W
    exit_memory self t w =
        if status_joinable t.attr.status
        then w
        else give posix_thread self (give posix_stack t.stack w)

    unfoldable pub join_memory : (task self a : ℕ) → PthreadInternal K M → W → W
    join_memory task self a t w =
        if is_ok (pthread_join K M task self a t).result
        then give posix_thread a (give posix_stack t.stack w)
        else w

  module _ (T : Timers) where
    -- `size` is `sizeof(timer_internal_t)`.
    unfoldable pub create_timer :
        (size : ℕ)
        → Option Sigevent
        → Thread
        → W
        → (Ret × Thread × Option (ℕ × TimerInternal T) × Bool) × W
    create_timer size event th w =
        if unsupported event || not (is_set h.hcos_posix_alloc)
        then (timer_create T (is_set h.hcos_posix_alloc) none event th, w)
        else let got = get posix_timer size w in (timer_create T true got.0 event th, got.1)

    unfoldable pub delete_timer : ℕ → TimerInternal T → W → W
    delete_timer a t w = give posix_timer (timer_delete T a t).1 w

  module _ (K : Queues) where
    -- What follows the first allocation; `buf_sz` is the size of the buffer.
    unfoldable pub use_mq :
        List ℕ
        → Flags
        → Option Attr
        → (buf_sz : ℕ) → State K
        → Option ℕ × W
        → (Option ℕ × State K) × W
    use_mq name oflag attr buf_sz s (none, w) = (mq_open K name oflag attr none none s, w)
    use_mq name oflag attr buf_sz s (some a, w) =
        let got = get posix_mqueue_buf buf_sz w in
        (mq_open K name oflag attr (some a) got.0 s, got.1)

    -- `size` is `sizeof(mqd_internal_t)`. The code calls through the first variable without a test for 0.
    unfoldable pub open_queue :
        (size : ℕ) → List ℕ → Flags → Option Attr → State K → W → (Option ℕ × State K) × W
    unfolding use_mq creates
    open_queue size name oflag attr s w =
        let given = or_else attr def_attr in
        let buf_sz = buffer_size given.mq_maxmsg (message_words given.mq_msgsize) in
        if creates K name oflag attr s
        then use_mq name oflag attr buf_sz s (get posix_mqueue size w)
        else (mq_open K name oflag attr none none s, w)

    -- `mq_free`
    unfoldable pub free_queue : ℕ → State K → W → W
    free_queue a s w = give posix_mqueue a (give posix_mqueue_buf (s.mem a).buf w)
