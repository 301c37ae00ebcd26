-- ===== src/Timer/Examples.antt =====
-- src/posix_timer.c on a board with a tick of a millisecond.
use libposix.Prelude.{
  ◌⊎◌, ◌≡◌, ◌%◌, ◌^◌, ◌+◌, ltb, ℕ, ◌<◌, ◌*◌, refl, some, none, true, false, [], ◌∷◌, arith,
}
use libposix.Prelude.Int.{pos, ◌-ℤ◌, ◌≤ℤ◌}
use libposix.Prelude.Status.{ok, fail, eagain}
use libposix.Time.{Timespec, IsValid, nanos}
use libposix.Board.{board, alarms}
use libposix.Clock.{Thread, set_errno}
use libposix.Clock.Due.{IsLeast}
use libposix.Timer.{
  Itimerspec, Sigevent, calls, notify, TimerInternal, period_of, timer_do, timer_create,
  timer_gettime, timer_settime,
}
use libposix.Timer.Setting.{Lasts, timer_settime-timer_gettime}
use libposix.Timer.Period.{expire_all, expire_all-expire}
use libposix.Timer.Deadline.{timer_settime-IsLeast}

abbrev event : Sigevent
event = record { sigev_notify = 2; sigev_value = 9; sigev_notify_attributes = none }

abbrev timer : TimerInternal alarms
timer = record { ost = some 70; event = event; period = 3 }

abbrev thread : Thread
thread = record { errno = none; sleeps = [] }

abbrev at_time : ℕ → ℕ → Timespec
at_time s n = record { tv_sec = pos s; tv_nsec = pos n }

abbrev every_10_ms : Timespec → Itimerspec
every_10_ms value = record { it_interval = at_time 0 10000000; it_value = value }

-- An allocation that fails is written to before it is tested.
creates_none :
    timer_create alarms true none (some event) thread ≡ (fail, set_errno eagain thread, none, true)
unfolding timer_create
creates_none = refl

creates_one :
    timer_create alarms true (some 64) (some event) thread
    ≡ (ok, thread, some (64, record { ost = none; event = event; period = 0 }), false)
unfolding timer_create
creates_one = refl

expires : timer_do alarms 100 timer ≡ (record timer { ost = some 103 }, calls 9 ∷ [])
unfolding timer_do notify
expires = refl

IsValid-at_time : (n : ℕ) → n < 1000000000 → (s : ℕ) → IsValid (at_time s n)
IsValid-at_time n h s = record { nonneg = omega arith; below = omega (arith, h) }

timer_settime-timer_gettime_example :
    Lasts board 1500000
      (timer_gettime alarms board 100
        (timer_settime alarms board 0 0 0 100
          (every_10_ms (at_time 0 1500000))
          true
          timer
          thread).0.1).1.it_value
timer_settime-timer_gettime_example =
    (timer_settime-timer_gettime alarms board 0 0 0 100 true timer thread refl refl (omega arith) 0
      1500000 0 10000000 (omega arith) (omega arith) (omega arith) (omega arith) (omega arith)
      (omega arith) (omega arith)).2

-- A deadline of 91.0005 s at 90.061 s; the kernel's timer is set a tick later.
timer_settime-IsLeast_example :
    let set =
      (timer_settime alarms board 1 0 90061 90062
        (every_10_ms (at_time 91 500000))
        false
        timer
        thread).0 in
    ((nanos (at_time 91 500000) ≤ℤ pos (90061 * 1000000))
      × (set.0 ≡ ok)
      × (set.2 ≡ notify event)
      × (alarms.tmr_active set.1.ost ≡ ltb 0 (period_of board (at_time 0 10000000))))
    ⊎ ((k : ℕ) × IsLeast board 90061 (at_time 91 500000) k
        × (set.0 ≡ ok)
        × (set.2 ≡ [])
        × (alarms.tmr_active set.1.ost ≡ true)
        × (alarms.expire set.1.ost ≡ (90062 + k) % 2 ^ 32))
unfolding ◌-ℤ◌
timer_settime-IsLeast_example =
    timer_settime-IsLeast alarms board 1 0 90061 90062 false timer thread (at_time 0 10000000)
      (at_time 91 500000) (IsValid-at_time 10000000 (omega arith) 0)
      (IsValid-at_time 500000 (omega arith) 91) refl refl (omega arith) (omega arith) refl
      (omega arith) (omega arith)

-- From tick 70 with a period of 3, the handler on time, 2 ticks late and on time again.
expire_all-expire_example :
    let r = expire_all alarms (0 ∷ 2 ∷ 0 ∷ []) timer in
    (r.0.period ≡ 3)
    × (r.1 ≡ calls 9 ∷ calls 9 ∷ calls 9 ∷ [])
    × (alarms.tmr_active r.0.ost ≡ true)
    × (alarms.expire r.0.ost ≡ 81)
unfolding notify
expire_all-expire_example =
    expire_all-expire alarms (0 ∷ 2 ∷ 0 ∷ []) timer (omega arith) (omega arith) refl
