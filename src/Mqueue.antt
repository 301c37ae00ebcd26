-- ===== src/Mqueue.antt =====
-- src/posix_mqueue.c: the list of message queues and its operations, over the kernel's queues and
-- lists. A descriptor is the address of its structure, and `mem` is what stands at each address.
-- Of `oflag` the model has the bits that the code tests. The static mutex `allq_mux` is modelled by
-- `locks`, the number of its locks less that of its unlocks.
pub mod State
pub mod Close
pub mod Open
pub mod Transfer
mod Examples
pub mod Reach
pub mod Count
pub mod Leaks
pub mod Locks
pub mod Names
pub mod Directory
pub mod Views
pub mod Refines
pub mod Serves
pub mod Transfers
pub mod Calls
pub mod Replies
pub mod Checks
use libposix.Prelude.{
  or_else, ℕ, ◌+◌, ◌-◌, ◌%◌, ◌/◌, ◌*◌, ◌^◌, Option, none, some, Bool, true, false, not, ◌&&◌, ◌||◌,
  ◌==◌, ltb, if◌then◌else◌, List, [], ◌∷◌, length,
}
use Prim.Native.Nat.{min}
use libposix.Prelude.Int.{ℤ, pos, negsuc, ◌+ℤ◌, int32, uint32}
use libposix.Prelude.Status.{
  ebadf, enametoolong, enoent, Errno, Ret, ok, fail, einval, etimedout, is_ok,
}
use libposix.Kernel.{Queues}
use libposix.Time.{Timespec, Platform}
use libposix.Utils.{validate_timespec, abs_timespec2ticks}
use libposix.Clock.{zero_time, clock_gettime}

-- O_CREAT, O_EXCL and O_NONBLOCK
pub record Flags : Type 0 where
  pub creat : Bool
  pub excl : Bool
  pub nonblock : Bool

-- The two fields of `struct mq_attr` that `mq_open` reads.
pub record Attr : Type 0 where
  pub mq_maxmsg : ℤ
  pub mq_msgsize : ℤ

-- POSIX_MQUEUE_DEF_MSG_MAX and POSIX_MQUEUE_DEF_MSG_SZ
abbrev pub def_attr : Attr
def_attr = record { mq_maxmsg = pos 128; mq_msgsize = pos 4 }

-- POSIX_NAME_MAX and POSIX_MQUEUE_NAME_SZ
abbrev pub name_max : ℕ
name_max = 64

abbrev pub name_sz : ℕ
name_sz = 16

-- 0 or the error number, and `*ptimeout` (which `before` holds at the call).
unfoldable pub get_tick_timeout :
    Platform → (wait now : ℕ) → Flags → Option Timespec → ℕ → Option Errno × ℕ
get_tick_timeout p wait now flags none before = if flags.nonblock then (none, 0) else (none, wait)
get_tick_timeout p wait now flags (some t) before =
    let read = clock_gettime p now (some zero_time) in
    let ticks = abs_timespec2ticks p (some t) read.1 (some before) in
    if flags.nonblock
    then (none, 0)
    else if not (validate_timespec (some t))
    then (some einval, before)
    else if not (is_ok read.0)
    then (some einval, before)
    else (if is_ok ticks.0 then none else some etimedout, or_else ticks.1 before)

-- A number of the kernel in a `long` or an `ssize_t`, which have 32 bits like the kernel's counters.
abbrev pub to_long : ℕ → ℤ
to_long k = int32 (pos k)

-- A name is its bytes, without the terminator; `strnlen` looks at POSIX_NAME_MAX + 2 of them.
unfoldable pub validate_name : List ℕ → Bool
validate_name [] = false
validate_name (c ∷ cs) =
    if not (c == b'/') then false else not (min (length (c ∷ cs)) (name_max + 2) == name_max + 2)

-- `strcmp(a, b) == 0`
unfoldable pub same_name : List ℕ → List ℕ → Bool
same_name [] [] = true
same_name (a ∷ as') (b ∷ bs) = a == b && same_name as' bs
same_name _ _ = false

-- `nwords = (mq_msgsize + 3) >> 2` and `buf_sz = mq_maxmsg * nwords`, both unsigned.
abbrev pub shift_right_2 : ℤ → ℤ
shift_right_2 (pos k) = pos (k / 4)
shift_right_2 (negsuc k) = negsuc (k / 4)

unfoldable pub message_words : ℤ → ℕ
message_words size = uint32 (shift_right_2 (int32 (size +ℤ pos 3)))

unfoldable pub buffer_size : ℤ → ℕ → ℕ
buffer_size maxmsg nwords = uint32 maxmsg * nwords % 2 ^ 32
