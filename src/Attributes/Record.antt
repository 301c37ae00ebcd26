-- ===== src/Attributes/Record.antt =====
-- What the thread attributes of src/posix_pthread.c promise: three fields that do not touch each other.
-- The status word that two of them share is forgotten.
use libposix.Prelude.{
  ℕ, ◌%◌, ◌^◌, ◌≤◌, ◌≡◌, refl, Option, none, some, not, ◌||◌, ltb, if◌then◌else◌, List, arith,
}
use mathlib.Core.Path.{subst}
use libposix.Prelude.Replay.{replay, replay-refines}
use libposix.Prelude.Int.{ℤ, pos, ltb_ℤ, eqb_ℤ, uint16, ◌-ℤ◌}
use libposix.Prelude.Status.{Ret, ok, errnum, einval, enotsup}
use libposix.Attributes.{
  PthreadAttr, detached, joinable, stack_min, pthread_attr_getdetachstate,
  pthread_attr_getschedparam, pthread_attr_getstacksize, pthread_attr_setdetachstate,
  pthread_attr_setschedparam, pthread_attr_setstacksize, sched_get_priority_max,
}

pub record Fields : Type 0 where
  pub detach : ℤ
  pub priority : ℤ
  pub stack : ℕ

pub data Call : Type 0 where
  sets_detach : ℤ → Call
  sets_priority : Option ℤ → Call
  sets_stack : ℕ → Call

-- A stack size is kept modulo 2 ^ 16.
unfoldable pub set : ℕ → Call → Fields → Ret × Fields
set tpri_num (sets_detach d) f =
    if eqb_ℤ d detached || eqb_ℤ d joinable
    then (ok, record f { detach = d })
    else (errnum einval, f)
set tpri_num (sets_priority none) f = (errnum einval, f)
set tpri_num (sets_priority (some n)) f =
    if ltb_ℤ n (pos 0) || not (ltb_ℤ n (pos tpri_num))
    then (errnum enotsup, f)
    else (ok, record f { priority = n })
set tpri_num (sets_stack n) f =
    if ltb n stack_min then (errnum einval, f) else (ok, record f { stack = n % 2 ^ 16 })

-- What the getters read.
unfoldable pub read : PthreadAttr → Fields
read attr = record {
  detach = (pthread_attr_getdetachstate attr).1;
  priority = (pthread_attr_getschedparam attr).1;
  stack = (pthread_attr_getstacksize attr).1;
}

-- The same call of the code.
unfoldable pub call : ℕ → Call → PthreadAttr → Ret × PthreadAttr
call tpri_num (sets_detach d) attr = pthread_attr_setdetachstate attr d
call tpri_num (sets_priority n) attr = pthread_attr_setschedparam tpri_num attr n
call tpri_num (sets_stack n) attr = pthread_attr_setstacksize attr n

call-set :
    (tpri_num : ℕ)
    → tpri_num ≤ 2 ^ 15
    → (c : Call) (attr : PthreadAttr)
    → ((call tpri_num c attr).0 ≡ (set tpri_num c (read attr)).0)
      × (read (call tpri_num c attr).1 ≡ (set tpri_num c (read attr)).1)
unfolding call set read pthread_attr_setdetachstate pthread_attr_setschedparam
    pthread_attr_setstacksize pthread_attr_getdetachstate pthread_attr_getschedparam
    pthread_attr_getstacksize sched_get_priority_max uint16 ◌-ℤ◌
call-set tpri_num few (sets_detach d) attr = ground arith
call-set tpri_num few (sets_priority none) attr = (refl, refl)
call-set tpri_num few (sets_priority (some n)) attr = ground (arith, few)
call-set tpri_num few (sets_stack n) attr = ground arith

-- Where there are 2 ^ 15 priorities at most, the replies to any sequence of settings are those of a
-- record of three separate fields that checks each value and keeps stack sizes modulo 2 ^ 16, and
-- the getters read that record in the end.
pub replay-call-set :
    (tpri_num : ℕ)
    → tpri_num ≤ 2 ^ 15
    → (cs : List Call) (attr : PthreadAttr)
    → ((replay (call tpri_num) cs attr).0 ≡ (replay (set tpri_num) cs (read attr)).0)
      × (read (replay (call tpri_num) cs attr).1 ≡ (replay (set tpri_num) cs (read attr)).1)
replay-call-set tpri_num few cs attr =
    replay-refines (call tpri_num) (set tpri_num) (λ attr f. read attr ≡ f)
      (λ c attr f same.
        subst
          (λ f.
            ((call tpri_num c attr).0 ≡ (set tpri_num c f).0)
            × (read (call tpri_num c attr).1 ≡ (set tpri_num c f).1))
          same (call-set tpri_num few c attr))
      cs attr (read attr) refl
