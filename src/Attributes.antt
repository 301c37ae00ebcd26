-- ===== src/Attributes.antt =====
-- The thread attributes of src/posix_pthread.c, with `pthread_attr_t` of include/hcos_types.h and
-- src/posix_sched.c. `tpri_num` is CFG_TPRI_NUM, the number of priorities that the kernel is built
-- for. The mask operations on the status word are written by division and remainder.
pub mod Fields
pub mod Record
pub mod Ranges
mod Examples
use libposix.Prelude.{
  ℕ, ◌+◌, ◌*◌, ◌/◌, ◌%◌, ◌^◌, Option, none, some, Bool, not, ◌&&◌, ◌||◌, ◌==◌, ltb, if◌then◌else◌,
}
use libposix.Prelude.Int.{ℤ, pos, ◌-ℤ◌, ltb_ℤ, eqb_ℤ, uint16}
use libposix.Prelude.Status.{Ret, ok, errnum, einval, enotsup}

-- Both are an unsigned short: `status` has the priority in 15 bits and the detach state above them.
pub record PthreadAttr : Type 0 where
  pub stack_sz : ℕ
  pub status : ℕ

-- PTHREAD_STACK_MIN
abbrev pub stack_min : ℕ
stack_min = 1024

-- PTHREAD_CREATE_DETACHED and PTHREAD_CREATE_JOINABLE
abbrev pub detached : ℤ
detached = pos 0

abbrev pub joinable : ℤ
joinable = pos 1

-- STATUS_PRIORITY
abbrev pub status_priority : ℕ → ℕ
status_priority status = status % 2 ^ 15

-- STATUS_JOINABLE
abbrev pub status_joinable : ℕ → Bool
status_joinable status = status / 2 ^ 15 % 2 == 1

-- `status &= ~MASK_DETACH` and `status &= ~MASK_PRIORITY`
abbrev pub clear_detach : ℕ → ℕ
clear_detach status = status % 2 ^ 15

abbrev pub clear_priority : ℕ → ℕ
clear_priority status = status / 2 ^ 15 % 2 * 2 ^ 15

-- HCOS_LOWEST_PRIORITY
abbrev pub lowest_priority : ℕ → ℤ
lowest_priority tpri_num = pos tpri_num -ℤ pos 2

-- PTHTREAD_ATTR_DEFAULT; the two operands of its `|` have no bit in common.
unfoldable pub default_attr : ℕ → PthreadAttr
default_attr tpri_num = record {
  stack_sz = stack_min;
  status = status_priority (uint16 (lowest_priority tpri_num)) + 2 ^ 15;
}

unfoldable pub pthread_attr_destroy : Option PthreadAttr → Ret
pthread_attr_destroy none = errnum einval
pthread_attr_destroy (some attr) = ok

unfoldable pub pthread_attr_getdetachstate : PthreadAttr → Ret × ℤ
pthread_attr_getdetachstate attr = (ok, if status_joinable attr.status then joinable else detached)

unfoldable pub pthread_attr_getschedparam : PthreadAttr → Ret × ℤ
pthread_attr_getschedparam attr = (ok, pos (status_priority attr.status))

unfoldable pub pthread_attr_getstacksize : PthreadAttr → Ret × ℕ
pthread_attr_getstacksize attr = (ok, attr.stack_sz)

unfoldable pub pthread_attr_init : ℕ → Option PthreadAttr → Ret × Option PthreadAttr
pthread_attr_init tpri_num none = (errnum einval, none)
pthread_attr_init tpri_num (some attr) = (ok, some (default_attr tpri_num))

-- `(unsigned short)detach << SHFT_DETACH`, for the two values that pass the test.
unfoldable pub pthread_attr_setdetachstate : PthreadAttr → ℤ → Ret × PthreadAttr
pthread_attr_setdetachstate attr detach =
    if not (eqb_ℤ detach detached) && not (eqb_ℤ detach joinable) then (errnum einval, attr) else (
      ok,
      record attr {
        status = clear_detach attr.status + (if eqb_ℤ detach joinable then 2 ^ 15 else 0);
      },
    )

unfoldable pub sched_get_priority_max : ℕ → ℤ
sched_get_priority_max tpri_num = pos tpri_num -ℤ pos 1

-- `status |= priority`, where only the highest bit of `status` may be set.
abbrev pub or_priority : ℕ → ℕ → ℕ
or_priority status priority =
    priority % 2 ^ 15 + (if status_joinable status || status_joinable priority then 2 ^ 15 else 0)

-- The parameter is its one field, `sched_priority`.
unfoldable pub pthread_attr_setschedparam : ℕ → PthreadAttr → Option ℤ → Ret × PthreadAttr
unfolding sched_get_priority_max
pthread_attr_setschedparam tpri_num attr none = (errnum einval, attr)
pthread_attr_setschedparam tpri_num attr (some priority) =
    if ltb_ℤ (sched_get_priority_max tpri_num) priority || ltb_ℤ priority (pos 0)
    then (errnum enotsup, attr)
    else (ok, record attr { status = or_priority (clear_priority attr.status) (uint16 priority) })

unfoldable pub pthread_attr_setstacksize : PthreadAttr → ℕ → Ret × PthreadAttr
pthread_attr_setstacksize attr stacksize =
    if ltb stacksize stack_min
    then (errnum einval, attr)
    else (ok, record attr { stack_sz = stacksize % 2 ^ 16 })

-- The calls of `task_yield` are counted.
unfoldable pub sched_yield : ℕ → Ret × ℕ
sched_yield yields = (ok, yields + 1)
