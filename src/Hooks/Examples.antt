-- ===== src/Hooks/Examples.antt =====
-- The memory of threads, timers and message queues with a concrete allocator: it hands out one address after another,
-- until it comes to one that is taken.
use libposix.Prelude.{
  ℕ, ◌+◌, ◌≡◌, refl, ◌⊎◌, inl, inr, Option, none, some, true, false, List, [], ◌∷◌, ◌==◌,
  if◌then◌else◌, arith, Option-cases,
}
use libposix.Prelude.Int.{pos}
use libposix.Board.{counters, owners, alarms, fifos}
use libposix.Clock.{Thread}
use libposix.Attributes.{PthreadAttr}
use libposix.Pthread.{PthreadInternal, new_thread}
use libposix.Timer.{Sigevent}
use libposix.Hooks.{
  PosixObj, posix_thread, posix_stack, posix_mqueue_buf, create_thread, create_timer,
  hcos_posix_init, creates, open_queue, use_mq,
}
use libposix.Hooks.Memory.{Allocator, hooks, SameMemory, HasThread}
use libposix.Hooks.ThreadMemory.{Ends, create_thread-Ends}
use libposix.Hooks.TimerMemory.{MakesTimer, create_timer-delete_timer}
use libposix.Mqueue.{Flags, validate_name}
use libposix.Mqueue.State.{State, mq_find_locked, mq_check_init}
use libposix.Mqueue.Open.{mq_open, create, open_found, zero_mqd}
use libposix.Hooks.QueueMemory.{Returns, MakesQueue, open_queue-free_queue}

record Arena : Type 0 where
  next : ℕ
  at : ℕ → Option PosixObj

abbrev take : PosixObj → ℕ → Arena → Option ℕ × Arena
take o size w = elim (w.at w.next) [
  | none ↦
      (some w.next, record { next = w.next + 1; at = λ q. if w.next == q then some o else w.at q })
  | some other ↦ (none, w)
]

abbrev untake : PosixObj → ℕ → Arena → Arena
untake o p w = record w { at = λ q. if p == q then none else w.at q }

take-some :
    (o : PosixObj) (size p : ℕ) (w : Arena)
    → (take o size w).0 ≡ some p
    → (w.at p ≡ none) × ((q : ℕ) → (take o size w).1.at q ≡ (if p == q then some o else w.at q))
take-some o size p w e = elim (Option-cases (w.at w.next)) [
  | inl free ↦ (ground (arith, e, free), λ q. ground (arith, e, free))
  | inr (other, taken) ↦ absurd (ground (arith, e, taken))
]

take-none :
    (o : PosixObj) (size : ℕ) (w : Arena)
    → (take o size w).0 ≡ none
    → (q : ℕ) → (take o size w).1.at q ≡ w.at q
take-none o size w e q = ground (arith, e)

untake-at :
    (o : PosixObj) (p : ℕ) (w : Arena)
    → w.at p ≡ some o
    → (q : ℕ) → (untake o p w).at q ≡ (if p == q then none else w.at q)
untake-at o p w e q = refl

abbrev arena : Allocator
arena = record {
  W = Arena;
  alloc = take;
  free = untake;
  holds = λ w. w.at;
  alloc-some = take-some;
  alloc-none = take-none;
  holds-free = untake-at;
}

-- The calling thread's structure is at 128; the first address is 64.
abbrev memory : Arena
memory = record { next = 64; at = λ q. if q == 128 then some posix_thread else none }

abbrev attr : PthreadAttr
attr = record { stack_sz = 2048; status = 32773 }

abbrev blank : PthreadInternal counters owners
blank = record { attr = attr; stack = 0; barrier = 0; joined = 0; mux = none; ret = 0 }

-- The thread is at 64 and its stack at 65.
makes_thread :
    (create_thread (hooks arena) counters owners 32 48 false blank (some attr) memory).1.at 65
    ≡ some posix_stack
unfolding create_thread hcos_posix_init
makes_thread = refl

create_thread-Ends_example :
    let c = create_thread (hooks arena) counters owners 32 48 false blank (some attr) memory in
    ((c.0.thread ≡ none) × SameMemory arena c.1 memory)
    ⊎ ((a : ℕ) × (stack : ℕ) × (c.0.thread
          ≡ some (a, pos 5, new_thread counters owners blank attr stack))
        × HasThread arena memory a stack c.1
        × Ends arena counters owners 7 1 128 a
            (new_thread counters owners blank attr stack)
            memory
            c.1)
create_thread-Ends_example =
    create_thread-Ends arena counters owners 32 48 7 1 128 false blank (some attr) memory refl

abbrev event : Sigevent
event = record { sigev_notify = 2; sigev_value = 9; sigev_notify_attributes = none }

abbrev caller : Thread
caller = record { errno = none; sleeps = [] }

create_timer-delete_timer_example :
    MakesTimer arena alarms memory (create_timer (hooks arena) alarms 40 (some event) caller memory)
create_timer-delete_timer_example =
    create_timer-delete_timer arena alarms 40 (some event) caller memory

abbrev creating : Flags
creating = record { creat = true; excl = true; nonblock = false }

abbrev queue_name : List ℕ
queue_name = b'/' ∷ b'q' ∷ []

-- Nothing has been called.
abbrev boot : State fifos
boot = record {
  inited = false;
  allq = [];
  locks = 0;
  mem = λ a. zero_mqd fifos;
  errno = none;
  freed = [];
  overrun = false;
}

-- The structure is at 64 and its buffer at 65.
makes_queue :
    let r = open_queue (hooks arena) fifos 64 queue_name creating none boot memory in
    (r.0.0 ≡ some 64) × (r.1.at 65 ≡ some posix_mqueue_buf)
unfolding open_queue use_mq creates mq_open open_found create hcos_posix_init validate_name
    mq_find_locked mq_check_init
makes_queue = (refl, refl)

open_queue-free_queue_example :
    let r = open_queue (hooks arena) fifos 64 queue_name creating none boot memory in
    ((creates fifos queue_name creating none boot ≡ false)
      × SameMemory arena r.1 memory
      × Returns arena fifos queue_name boot r.0)
    ⊎ ((creates fifos queue_name creating none boot ≡ true) × MakesQueue arena fifos boot memory r)
open_queue-free_queue_example =
    open_queue-free_queue arena fifos 64 queue_name creating none boot memory
