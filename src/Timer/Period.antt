-- ===== src/Timer/Period.antt =====
-- A periodic timer of src/posix_timer.c that expires again and again.
use libposix.Prelude.{ℕ, ◌+◌, ◌%◌, ◌^◌, ◌<◌, ◌≡◌, refl, ap, true, ltb, List, [], ◌∷◌, ◌++◌, arith}
use libposix.Prelude.Counting.{total}
use libposix.Kernel.{Timers}
use libposix.Timer.{Note, notify, TimerInternal, timer_do}

-- The list once for each element of another.
abbrev pub once_each : List ℕ → List Note → List Note
once_each [] notes = []
once_each (_ ∷ ds) notes = notes ++ once_each ds notes

module _ (K : Timers) where
  open K use {Tmr, tmr_on, tmr_of, tmr_active, expire}

  -- The kernel calls the handler once for each number, that many ticks after the timer has expired.
  unfoldable pub expire_all : List ℕ → TimerInternal K → TimerInternal K × List Note
  expire_all [] t = (t, [])
  expire_all (late ∷ ds) t =
      let fired = timer_do K ((expire t.ost + late) % 2 ^ 32) t in
      let rest = expire_all ds fired.0 in (rest.0, fired.1 ++ rest.1)

  timer_do_lem :
      (now : ℕ) (t : TimerInternal K)
      → 0 < t.period
      → timer_do K now t ≡ (record t { ost = tmr_on now t.ost t.period }, notify t.event)
  unfolding timer_do
  timer_do_lem now t h =
      let periodic : ltb 0 t.period ≡ true = ground (arith, h) in rw periodic refl

  -- A periodic timer that is on stays on, each expiry notifies once, and the next expiry is put off by
  -- the period and by the delay of the handler: the delays add up.
  pub expire_all-expire :
      (ds : List ℕ) (t : TimerInternal K)
      → 0 < t.period
      → expire t.ost < 2 ^ 32
      → tmr_active t.ost ≡ true
      → let r = expire_all ds t in
        (r.0.period ≡ t.period)
        × (r.1 ≡ once_each ds (notify t.event))
        × (tmr_active r.0.ost ≡ true)
        × (expire r.0.ost ≡ (expire t.ost + total (λ late. late + t.period) ds) % 2 ^ 32)
  unfolding expire_all
  expire_all-expire [] t h range on = (refl, refl, on, omega (arith, range))
  expire_all-expire (late ∷ ds) t h range on =
      let now = (expire t.ost + late) % 2 ^ 32 in
      let again = record t { ost = tmr_on now t.ost t.period } in
      let at = K.expire-tmr_on now t.ost t.period h in
      let rest =
        expire_all-expire ds again h (omega (arith, at)) (K.active-tmr_on now t.ost t.period h) in
      rw (timer_do_lem now t h)
        (rest.0, ap (λ notes. notify t.event ++ notes) rest.1, rest.2, omega (arith, rest.3, at))
