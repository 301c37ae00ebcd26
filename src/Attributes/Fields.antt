-- ===== src/Attributes/Fields.antt =====
-- The thread attributes of src/posix_pthread.c: setting and reading their fields, two of which share
-- the status word.
use libposix.Prelude.{ℕ, ◌^◌, ◌≤◌, ◌<◌, ◌≡◌, ◌⊎◌, inl, inr, refl, some, Bool-cases, ltb, arith}
use libposix.Prelude.Int.{ℤ, pos, uint16, ◌-ℤ◌}
use libposix.Prelude.Status.{ok, errnum, einval}
use libposix.Attributes.{
  PthreadAttr, detached, joinable, stack_min, pthread_attr_getdetachstate,
  pthread_attr_getschedparam, pthread_attr_getstacksize, pthread_attr_setdetachstate,
  pthread_attr_setschedparam, pthread_attr_setstacksize, sched_get_priority_max,
}

-- The detach state that is set is read back, and the priority and the stack size stay.
setdetachstate-get :
    (attr : PthreadAttr) (detach : ℤ)
    → (detach ≡ detached) ⊎ (detach ≡ joinable)
    → let r = pthread_attr_setdetachstate attr detach in
      (r.0 ≡ ok)
      × (pthread_attr_getdetachstate r.1 ≡ (ok, detach))
      × (pthread_attr_getschedparam r.1 ≡ pthread_attr_getschedparam attr)
      × (pthread_attr_getstacksize r.1 ≡ pthread_attr_getstacksize attr)
unfolding pthread_attr_setdetachstate pthread_attr_getdetachstate pthread_attr_getschedparam
    pthread_attr_getstacksize
setdetachstate-get attr detach (inl e) = rw e (refl, ground arith, ground arith, refl)
setdetachstate-get attr detach (inr e) = rw e (refl, ground arith, ground arith, refl)

-- A priority below the number of priorities, of which there are 2^15 at most, is read back once it
-- is set, and the detach state and the stack size stay.
setschedparam-get :
    (tpri_num : ℕ) (attr : PthreadAttr) (priority : ℕ)
    → tpri_num ≤ 2 ^ 15
    → priority < tpri_num
    → let r = pthread_attr_setschedparam tpri_num attr (some (pos priority)) in
      (r.0 ≡ ok)
      × (pthread_attr_getschedparam r.1 ≡ (ok, pos priority))
      × (pthread_attr_getdetachstate r.1 ≡ pthread_attr_getdetachstate attr)
      × (pthread_attr_getstacksize r.1 ≡ pthread_attr_getstacksize attr)
unfolding pthread_attr_setschedparam sched_get_priority_max pthread_attr_getdetachstate
    pthread_attr_getschedparam pthread_attr_getstacksize uint16 ◌-ℤ◌
setschedparam-get tpri_num attr priority few h =
    (ground arith, ground arith, ground arith, ground arith)

-- A stack size below PTHREAD_STACK_MIN is refused, one that fits an unsigned short is read back once
-- it is set, and a larger one is accepted but a smaller size is read back.
setstacksize-get :
    (attr : PthreadAttr) (stacksize : ℕ)
    → let r = pthread_attr_setstacksize attr stacksize in
      ((stacksize < stack_min) × (r ≡ (errnum einval, attr)))
      ⊎ ((stack_min ≤ stacksize)
          × (stacksize < 2 ^ 16)
          × (r.0 ≡ ok)
          × (pthread_attr_getstacksize r.1 ≡ (ok, stacksize)))
      ⊎ ((2 ^ 16 ≤ stacksize) × (r.0 ≡ ok) × ((pthread_attr_getstacksize r.1).1 < stacksize))
unfolding pthread_attr_setstacksize pthread_attr_getstacksize
setstacksize-get attr stacksize = elim (Bool-cases (ltb stacksize stack_min)) [
  | inl small ↦ inl (ground (arith, small), rw small refl)
  | inr enough ↦ elim (Bool-cases (ltb stacksize (2 ^ 16))) [
    | inl fits ↦ inr (
        inl (
          ground (arith, enough),
          ground (arith, fits),
          rw enough refl,
          rw enough (ground (arith, fits)),
        ))
    | inr large ↦
        inr (inr (ground (arith, large), rw enough refl, rw enough (ground (arith, large))))
  ]
]
