-- ===== src/Attributes/Ranges.antt =====
-- The thread attributes of src/posix_pthread.c keep to the ranges of their C types and of the kernel's
-- priorities.
use libposix.Prelude.{ℕ, ◌^◌, ◌≤◌, ◌<◌, none, some, List, [], ◌∷◌, arith}
use libposix.Prelude.Int.{uint16, ◌-ℤ◌}
use libposix.Prelude.Replay.{replay}
use libposix.Attributes.{
  PthreadAttr, default_attr, status_priority, pthread_attr_setdetachstate,
  pthread_attr_setschedparam, pthread_attr_setstacksize, sched_get_priority_max,
}
use libposix.Attributes.Record.{Call, sets_detach, sets_priority, sets_stack, call}

-- Two fields of type unsigned short, and a priority that the kernel has.
pub record IsInRange (tpri_num : ℕ) (attr : PthreadAttr) : Type 0 where
  pub stack : attr.stack_sz < 2 ^ 16
  pub word : attr.status < 2 ^ 16
  pub priority : status_priority attr.status < tpri_num

module _ (tpri_num : ℕ) (few : tpri_num ≤ 2 ^ 15) where
  pub default_attr-IsInRange : 2 ≤ tpri_num → IsInRange tpri_num (default_attr tpri_num)
  unfolding default_attr uint16 ◌-ℤ◌
  default_attr-IsInRange h = ground (arith, few, h)

  call-IsInRange :
      (c : Call) (attr : PthreadAttr)
      → IsInRange tpri_num attr
      → IsInRange tpri_num (call tpri_num c attr).1
  unfolding call pthread_attr_setdetachstate pthread_attr_setschedparam pthread_attr_setstacksize
      sched_get_priority_max uint16 ◌-ℤ◌
  call-IsInRange (sets_detach d) attr g = ground arith
  call-IsInRange (sets_priority none) attr g = g
  call-IsInRange (sets_priority (some n)) attr g = ground (arith, few)
  call-IsInRange (sets_stack n) attr g = ground arith

  pub replay-IsInRange :
      (cs : List Call) (attr : PthreadAttr)
      → IsInRange tpri_num attr
      → IsInRange tpri_num (replay (call tpri_num) cs attr).1
  replay-IsInRange [] attr g = g
  replay-IsInRange (c ∷ cs) attr g =
      replay-IsInRange cs (call tpri_num c attr).1 (call-IsInRange c attr g)
