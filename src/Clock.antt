-- ===== src/Clock.antt =====
-- src/posix_clock.c and src/posix_unistd.c: reading the clock and sleeping. `tmr_ticks` of the
-- kernel is an argument, once for each time that the code reads it, and calls of `task_sleep` are
-- recorded with their number of ticks.
pub mod Due
mod Examples
pub mod Reading
pub mod Sleeping
use libposix.Prelude.{
  ℕ, ◌+◌, ◌-◌, ◌*◌, ◌/◌, ◌%◌, ◌^◌, Option, none, some, Bool, not, ◌&&◌, ◌==◌, if◌then◌else◌, List,
  [], ◌∷◌, ◌++◌, ltb,
}
use libposix.Prelude.Int.{ℤ, pos, int64}
use libposix.Prelude.Status.{Errno, Ret, ok, fail, errnum, einval, eperm, is_ok}
use libposix.Time.{Timespec, Platform, nanoseconds_per_tick}
use libposix.Utils.{nano2timespec, timespec2ticks, abs_timespec2ticks, validate_timespec}

-- What a call leaves behind in the calling thread: errno (`none`: not set), and its sleeps.
pub record Thread : Type 0 where
  pub errno : Option Errno
  pub sleeps : List ℕ

abbrev pub set_errno : Errno → Thread → Thread
set_errno e th = record th { errno = some e }

-- `task_sleep` with what a conversion stored.
abbrev pub task_sleep : Option ℕ → Thread → Thread
task_sleep none th = th
task_sleep (some n) th = record th { sleeps = th.sleeps ++ n ∷ [] }

-- `struct timespec cur = { 0 }`
abbrev pub zero_time : Timespec
zero_time = record { tv_sec = pos 0; tv_nsec = pos 0 }

-- The processor time: the ticks that were not spent in the idle task, `core_idle()->load.sum`.
unfoldable pub clock : ℕ → ℕ → ℕ
clock now idle = (now + 2 ^ 32 - idle) % 2 ^ 32

unfoldable pub clock_getcpuclockid : Thread → Ret × Thread
clock_getcpuclockid th = (fail, set_errno eperm th)

unfoldable pub clock_getres : Platform → Option Timespec → Ret × Option Timespec
clock_getres p none = (ok, none)
clock_getres p (some t) =
    (ok, some (record { tv_sec = pos 0; tv_nsec = pos (nanoseconds_per_tick p) }))

unfoldable pub clock_gettime : Platform → ℕ → Option Timespec → Ret × Option Timespec
clock_gettime p now none = (fail, none)
clock_gettime p now (some t) =
    (ok, some (nano2timespec p (int64 (pos (now * nanoseconds_per_tick p)))))

-- `(flags & TIMER_ABSTIME) == TIMER_ABSTIME`
abbrev pub is_abstime : ℕ → Bool
is_abstime flags = flags % 2 == 1

-- The TIMER_ABSTIME branch of `clock_nanosleep`, with its test of `clock_gettime` as it is written.
unfoldable pub sleep_until : Platform → ℕ → Option Timespec → Thread → Ret × Thread
unfolding clock_gettime
sleep_until p now rqtp th =
    let read = clock_gettime p now (some zero_time) in
    let ret = if is_ok read.0 then errnum einval else ok in
    let ticks = abs_timespec2ticks p rqtp read.1 (some 0) in
    (ret, if is_ok ret && is_ok ticks.0 then task_sleep ticks.1 th else th)

-- The other branch.
unfoldable pub sleep_for : Platform → Option Timespec → Thread → Thread
sleep_for p rqtp th =
    let ticks = timespec2ticks p rqtp (some 0) in
    if is_ok ticks.0 then task_sleep ticks.1 th else th

-- What `nanosleep` does with a valid request, in lines of its own.
unfoldable pub nap : Platform → Option Timespec → Thread → Thread
nap p rqtp th =
    let ticks = timespec2ticks p rqtp (some 0) in
    if is_ok ticks.0 then task_sleep ticks.1 th else th

-- The clock is read at `now`, and once more, at `now'`, for TIMER_ABSTIME.
unfoldable pub clock_nanosleep : Platform → ℕ → ℕ → ℕ → Option Timespec → Thread → Ret × Thread
unfolding sleep_until sleep_for
clock_nanosleep p flags now now' rqtp th =
    let checked = if validate_timespec rqtp then ok else errnum einval in
    let read = clock_gettime p now (some zero_time) in
    let ret = if is_ok checked && not (is_ok read.0) then errnum einval else checked in
    if is_ok ret
    then (if is_abstime flags then sleep_until p now' rqtp th else (ok, sleep_for p rqtp th))
    else (ret, th)

unfoldable pub clock_settime : Thread → Ret × Thread
clock_settime th = (fail, set_errno eperm th)

unfoldable pub nanosleep : Platform → Option Timespec → Thread → Ret × Thread
unfolding nap
nanosleep p rqtp th =
    if validate_timespec rqtp then (ok, nap p rqtp th) else (fail, set_errno einval th)

-- The number of characters, from what `snprintf` returned for the tick count (below 0: an error).
unfoldable pub strftime : ℕ → ℤ → ℕ
strftime maxsize (pos n) = if ltb 0 n && ltb n maxsize then n else 0
strftime maxsize _ = 0

-- The return value, and what is written through the pointer, if there is one.
unfoldable pub time : Platform → ℕ → Option ℤ → ℤ × Option ℤ
time p now none = (p.to_time (pos (now / p.tmr_hz)), none)
time p now (some old) = (p.to_time (pos (now / p.tmr_hz)), some (p.to_time (pos (now / p.tmr_hz))))

-- Both multiply in 32 bits.
unfoldable pub sleep : Platform → ℕ → Thread → ℕ × Thread
sleep p seconds th = (0, task_sleep (some (seconds * p.tmr_hz % 2 ^ 32)) th)

unfoldable pub usleep : Platform → ℕ → Thread → Ret × Thread
usleep p usec th = (ok, task_sleep (some (usec * p.tmr_hz % 2 ^ 32 / 1000000)) th)
