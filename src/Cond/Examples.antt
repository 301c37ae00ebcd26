-- ===== src/Cond/Examples.antt =====
-- src/posix_pthread_cond.c at a concrete condition variable.
use libposix.Prelude.{inr, ◌≡◌, refl, some, none, arith}
use libposix.Prelude.Int.{◌+ℤ◌, pos, negsuc, int32, uint32, ◌-ℤ◌}
use libposix.Prelude.Status.{ok, errnum, enomem}
use libposix.Board.{board, counters, owners}
use libposix.Mutex.{PthreadMutex, pthread_mutex_unlock}
use libposix.Cond.{
  Cond, cond_ticks, pthread_cond_init, pthread_cond_signal, pthread_cond_broadcast,
  pthread_cond_timedwait, wake_one,
}
use libposix.Cond.Waking.{signalled_late, pthread_cond_timedwait-late}
use libposix.Cond.Relocking.{taken_by}
use libposix.Cond.Owner.{pthread_cond_timedwait-owner}

abbrev cond : Cond counters owners
cond = record { inited = 1; cond = 0; waiting = pos 0 }

-- A normal mutex.
abbrev mine : PthreadMutex owners
mine = record { inited = 1; mux = some 1; type = 0 }

inits : pthread_cond_init counters owners none ≡ (errnum enomem, none)
unfolding pthread_cond_init
inits = refl

-- With three threads that wait, one is woken, then the other two.
wakes_one :
    pthread_cond_signal counters owners (record cond { waiting = pos 3 })
    ≡ (ok, record { inited = 1; cond = 1; waiting = pos 2 })
unfolding pthread_cond_signal wake_one int32 ◌-ℤ◌
wakes_one = refl

wakes_all :
    pthread_cond_broadcast counters owners (record { inited = 1; cond = 1; waiting = pos 2 })
    ≡ (ok, record { inited = 1; cond = 3; waiting = pos 0 })
unfolding pthread_cond_broadcast uint32
wakes_all = refl

wakes_nobody : pthread_cond_signal counters owners cond ≡ (ok, cond)
unfolding pthread_cond_signal
wakes_nobody = refl

pthread_cond_timedwait-late_example :
    (pthread_cond_timedwait counters owners board
      (signalled_late counters owners)
      0
      0
      7
      1
      cond
      mine
      none).1.waiting
    ≡ negsuc 0
unfolding cond_ticks pthread_mutex_unlock
pthread_cond_timedwait-late_example =
    (pthread_cond_timedwait-late counters owners board 0 0 7 1 cond mine none (omega arith) refl
      refl refl refl).1

pthread_cond_timedwait-owner_example :
    let others = taken_by counters owners 2 in
    let r = pthread_cond_timedwait counters owners board others 0 0 0 1 cond mine none in
    (r.0 ≡ ok) × (r.2.mux ≡ some 2)
unfolding cond_ticks pthread_mutex_unlock pthread_cond_signal int32 ◌+ℤ◌
pthread_cond_timedwait-owner_example =
    pthread_cond_timedwait-owner counters owners board 0 0 0 1 cond mine none
      (taken_by counters owners 2) (omega arith) refl refl (omega arith)
      (inr (refl, 2, refl, λ e. omega (arith, e)))
