-- ===== src/Cond/Interleavings.antt =====
-- src/posix_pthread_cond.c with three threads, step by step.
use libposix.Prelude.{◌≤◌, ℕ, suc, ◌≡◌, refl, ◌+◌, ◌%◌, ◌^◌, [], ◌∷◌, arith}
use libposix.Prelude.Int.{ℤ, ◌+ℤ◌, pos, int32, uint32, ◌-ℤ◌}
use libposix.Prelude.Status.{ok}
use libposix.Prelude.Counting.{total}
use libposix.Board.{counters, owners}
use libposix.Cond.{Cond, pthread_cond_init, pthread_cond_signal, pthread_cond_broadcast, wake_one}
use libposix.Cond.Schedule.{
  timed_out, arriving, counted, asleep, expired, returned, proceeds, gives_up, move, System, Step,
  moves, signals, Reach, start, next, fresh,
}
use libposix.Cond.Counts.{is_counted}
use libposix.Cond.Balance.{Reach-balance}
use libposix.Cond.Posts.{n_posts, Reach-posted}
use libposix.Cond.Signal.{Reach-signal}
use libposix.Cond.Broadcast.{Reach-broadcast, is_asleep, is_woken}

abbrev cond : Cond counters owners
cond = record { inited = 1; cond = 0; waiting = pos 0 }

abbrev state : ℤ → ℕ → Cond counters owners
state waiting sem = record { inited = 1; cond = sem; waiting = waiting }

-- Of three calls one waits, one is about to, and one has not begun.
abbrev two_waiting : System counters owners
two_waiting = record { cond = state (pos 2) 0; calls = asleep ∷ counted ∷ arriving ∷ [] }

two_waiting_run : Reach counters owners (fresh counters owners 3 cond) two_waiting
unfolding move pthread_cond_init int32 ◌+ℤ◌
two_waiting_run =
    next
      (next
        (next start (
          moves (proceeds 5) [] (arriving ∷ arriving ∷ []) (state (pos 0) 0) (state (pos 1) 0)
            arriving counted refl))
        (moves (proceeds 5) [] (arriving ∷ arriving ∷ []) (state (pos 1) 0) (state (pos 1) 0)
          counted asleep refl))
      (moves (proceeds 5) (asleep ∷ []) (arriving ∷ []) (state (pos 1) 0) (state (pos 2) 0) arriving
        counted refl)

-- The first of them times out, a signal takes off the other, and the first takes off itself.
abbrev one_late : System counters owners
one_late = record { cond = state (pos 0) 1; calls = returned timed_out ∷ counted ∷ arriving ∷ [] }

one_late_run : Reach counters owners (fresh counters owners 3 cond) one_late
unfolding move wake_one int32 ◌-ℤ◌
one_late_run =
    next
      (next
        (next two_waiting_run (
          moves gives_up [] (counted ∷ arriving ∷ []) (state (pos 2) 0) (state (pos 2) 0) asleep
            expired refl))
        (signals (record { cond = state (pos 2) 0; calls = expired ∷ counted ∷ arriving ∷ [] })))
      (moves (proceeds 5) [] (counted ∷ arriving ∷ []) (state (pos 1) 1) (state (pos 0) 1) expired
        (returned timed_out) refl)

Reach-balance_example :
    (uint32 one_late.cond.waiting + one_late.cond.cond) % 2 ^ 32
    ≡ total is_counted one_late.calls % 2 ^ 32
Reach-balance_example = Reach-balance counters owners 3 (omega arith) cond one_late one_late_run

Reach-broadcast_example :
    let b = (pthread_cond_broadcast counters owners two_waiting.cond).1 in
    (b.waiting ≡ pos 0)
    × (b.cond ≡ total is_counted two_waiting.calls)
    × ((u : System counters owners) × Reach counters owners (record two_waiting { cond = b }) u
        × (total is_asleep u.calls ≡ 0)
        × (total is_woken u.calls ≡ 1))
Reach-broadcast_example =
    Reach-broadcast counters owners 3 (omega arith) cond two_waiting two_waiting_run refl

-- The one signal is still to be used.
Reach-posted_example :
    total is_woken one_late.calls + one_late.cond.cond ≤ n_posts counters owners one_late_run
Reach-posted_example = Reach-posted counters owners 3 cond one_late one_late_run

Reach-signal_example :
    let r = pthread_cond_signal counters owners two_waiting.cond in
    (r.0 ≡ ok)
    × ((w : ℕ) × (r.1.waiting ≡ pos w) × (w + r.1.cond ≡ total is_counted two_waiting.calls))
    × ((u : System counters owners) × Step counters owners (record two_waiting { cond = r.1 }) u
        × (suc (total is_asleep u.calls) ≡ 1)
        × (total is_woken u.calls ≡ 1)
        × (suc u.cond.cond ≡ r.1.cond))
Reach-signal_example =
    Reach-signal counters owners 3 (omega arith) cond two_waiting two_waiting_run refl (omega arith)
