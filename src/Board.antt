-- ===== src/Board.antt =====
-- Instances of the interfaces, on which the tests and examples run: a tick of a millisecond, a 32-bit
-- time_t, and kernel objects kept as plain values.
use libposix.Prelude.{
  ℕ, suc, ◌+◌, ◌-◌, ◌%◌, ◌^◌, ◌≤◌, ◌<◌, ◌≡◌, refl, ◌≢◌, Option, none, some, Bool, true, false, List,
  [], ◌∷◌, ◌++◌, length, or_else, ltb, if◌then◌else◌, arith,
}
use libposix.Prelude.Int.{ℤ, pos_part, neg_part, int32, int32_fits}
use libposix.Time.{Platform}
use libposix.Kernel.{Timers, Semaphores, Mutexes, Queues, remove}

pub time_fits : (z : ℤ) → pos_part z ≤ 2147483647 → neg_part z ≤ 2147483647 → int32 z ≡ z
time_fits z h k = int32_fits z (omega arith) (omega arith)

pub hz_range : (0 < 1000) × (1000 ≤ 1000000000) × (2 ^ 31 ≤ 2147483647 + 1)
hz_range = (omega arith, omega arith, omega arith)

abbrev pub board : Platform
board = record {
  tmr_hz = 1000;
  time_max = 2147483647;
  to_time = int32;
  hz_pos = hz_range.0;
  hz_le = hz_range.1;
  time_wide = hz_range.2;
  to_time-fits = time_fits;
}

-- A semaphore is its value, and nobody posts it during a call.
abbrev pub take_one : ℕ → ℕ → Bool × ℕ
take_one s t = if ltb 0 s then (true, s - 1) else (false, s)

pub take_one-taken : (s t : ℕ) → 0 < s → (take_one s t).0 ≡ true
take_one-taken s t h = ground arith

pub take_one-val : (s t : ℕ) → 0 < s → suc (take_one s t).1 ≡ s
take_one-val s t h = ground arith

pub take_one-empty : (s : ℕ) → s ≡ 0 → take_one s 0 ≡ (false, s)
take_one-empty s h = ground arith

abbrev pub counters : Semaphores
counters = record {
  Sem = ℕ;
  sem_init = λ n. n;
  val = λ s. s;
  sem_get = take_one;
  sem_post = suc;
  sem_post_n = λ s n. s + n;
  wait = 4294967295;
  val-sem_init = λ n. refl;
  val-sem_post = λ s. refl;
  val-sem_post_n = λ s n. refl;
  get-taken = take_one-taken;
  get-val = take_one-val;
  get-no_wait = take_one-empty;
}

-- A timer is the tick at which it expires, if it is on.
abbrev pub is_on : Option ℕ → Bool
is_on none = false
is_on (some expire) = true

abbrev pub alarms : Timers
alarms = record {
  Tmr = Option ℕ;
  tmr_init = none;
  tmr_on = λ now t n. some ((now + n) % 2 ^ 32);
  tmr_of = λ t. none;
  tmr_active = is_on;
  expire = λ t. or_else t 0;
  active-tmr_on = λ now t n h. refl;
  expire-tmr_on = λ now t n h. refl;
  active-tmr_of = λ t. refl;
}

-- A mutex is its owner, and nobody unlocks it during a call.
abbrev pub own_it : ℕ → Option ℕ → ℕ → Bool × Option ℕ
own_it task none t = (true, some task)
own_it task (some owner) t = (false, some owner)

pub own_it-taken : (task : ℕ) (m : Option ℕ) (t : ℕ) → m ≡ none → (own_it task m t).0 ≡ true
own_it-taken task none t h = refl
own_it-taken task (some owner) t h = cc

pub own_it-own : (task : ℕ) (m : Option ℕ) (t : ℕ) → m ≡ none → (own_it task m t).1 ≡ some task
own_it-own task none t h = refl
own_it-own task (some owner) t h = cc

pub own_it-held :
    (task owner : ℕ) (m : Option ℕ) → m ≡ some owner → owner ≢ task → own_it task m 0 ≡ (false, m)
own_it-held task owner none h ne = cc
own_it-held task owner (some other) h ne = refl

abbrev pub owners : Mutexes
owners = record {
  Mut = Option ℕ;
  mut_init = none;
  own = λ m. m;
  mut_lock = own_it;
  mut_unlock = λ m. none;
  own-mut_init = refl;
  lock-taken = own_it-taken;
  lock-own = own_it-own;
  own-mut_unlock = λ task m t h. refl;
  lock-no_wait = own_it-held;
}

-- A queue is its messages with the number of words of one, and the size of its buffer.
pub record Fifo : Type 0 where
  pub words : ℕ
  pub room : ℕ
  pub messages : List (List ℕ)

abbrev pub get_message : Fifo → ℕ → Option (List ℕ) × Fifo
get_message q t = elim q.messages [
  | [] ↦ (none, q)
  | m ∷ rest ↦ (some m, record q { messages = rest })
]

abbrev pub put_message : Fifo → List ℕ → ℕ → Bool × Fifo
put_message q m t =
    if ltb (length q.messages) q.room
    then (true, record q { messages = q.messages ++ m ∷ [] })
    else (false, q)

abbrev pub fifos : Queues
fifos = record {
  Q = Fifo;
  q_zero = record { words = 0; room = 0; messages = [] };
  mq_init = λ words buf size. record { words = words; room = size; messages = [] };
  sz = λ q. q.room;
  isz = λ q. q.words;
  n = λ q. length q.messages;
  mq_get = get_message;
  mq_put = put_message;
  wait = 4294967295;
  L = List ℕ;
  ll_init = [];
  elems = λ l. l;
  lle_del = remove;
  elems-ll_init = refl;
  elems-lle_del = λ a l. refl;
}
