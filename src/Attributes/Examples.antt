-- ===== src/Attributes/Examples.antt =====
-- The thread attributes of src/posix_pthread.c with 32 priorities.
use libposix.Prelude.{[], ◌∷◌, ◌≡◌, refl, some, none, arith}
use libposix.Prelude.Int.{pos, negsuc, uint16, ◌-ℤ◌}
use libposix.Prelude.Status.{ok, errnum, einval, enotsup}
use libposix.Attributes.{
  PthreadAttr, joinable, detached, default_attr, pthread_attr_destroy, pthread_attr_init,
  pthread_attr_getdetachstate, pthread_attr_getschedparam, pthread_attr_getstacksize,
  pthread_attr_setdetachstate, pthread_attr_setschedparam, pthread_attr_setstacksize,
  sched_get_priority_max, sched_yield,
}
use libposix.Prelude.Replay.{replay}
use libposix.Attributes.Record.{
  sets_detach, sets_priority, sets_stack, set, read, call, replay-call-set,
}

-- Priority 5, joinable.
abbrev attr : PthreadAttr
attr = record { stack_sz = 2048; status = 32773 }

defaults :
    pthread_attr_init 32 (some attr) ≡ (ok, some (record { stack_sz = 1024; status = 32798 }))
unfolding pthread_attr_init default_attr uint16 ◌-ℤ◌
defaults = refl

lowest : pthread_attr_getschedparam (default_attr 32) ≡ (ok, pos 30)
unfolding pthread_attr_getschedparam default_attr uint16 ◌-ℤ◌
lowest = refl

yields : sched_yield 2 ≡ (ok, 3)
unfolding sched_yield
yields = refl

destroys : (pthread_attr_destroy none ≡ errnum einval) × (pthread_attr_destroy (some attr) ≡ ok)
unfolding pthread_attr_destroy
destroys = (refl, refl)

reads :
    (pthread_attr_getschedparam attr ≡ (ok, pos 5))
    × (pthread_attr_getdetachstate attr ≡ (ok, joinable))
unfolding pthread_attr_getschedparam pthread_attr_getdetachstate
reads = (refl, refl)

refuses :
    (pthread_attr_setdetachstate attr (pos 2) ≡ (errnum einval, attr))
    × (pthread_attr_setschedparam 32 attr (some (pos 32)) ≡ (errnum enotsup, attr))
    × (pthread_attr_setschedparam 32 attr (some (negsuc 0)) ≡ (errnum enotsup, attr))
unfolding pthread_attr_setdetachstate pthread_attr_setschedparam sched_get_priority_max ◌-ℤ◌
refuses = (refl, refl, refl)

-- 64 KiB are accepted, as 0.
no_stack : pthread_attr_setstacksize attr 65536 ≡ (ok, record { stack_sz = 0; status = 32773 })
unfolding pthread_attr_setstacksize
no_stack = refl

-- Detached with priority 7; a priority and a stack size that are refused.
replay-call-set_example :
    let r =
      replay
        (call 32)
        (sets_detach detached
          ∷ sets_priority (some (pos 7))
          ∷ sets_priority (some (pos 32))
          ∷ sets_stack 1023
          ∷ [])
        attr in
    (r.0 ≡ ok ∷ ok ∷ errnum enotsup ∷ errnum einval ∷ [])
    × (read r.1 ≡ record { detach = detached; priority = pos 7; stack = 2048 })
unfolding set read pthread_attr_getstacksize
replay-call-set_example =
    replay-call-set 32 (omega arith)
      (sets_detach detached
        ∷ sets_priority (some (pos 7))
        ∷ sets_priority (some (pos 32))
        ∷ sets_stack 1023
        ∷ [])
      attr
