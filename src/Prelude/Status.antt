-- ===== src/Prelude/Status.antt =====
-- What the functions of the library return: the error numbers of errno.h that they use, and an
-- `int` that is 0, -1 or an error number.
use mathlib.Core.Bool.{Bool, true, false}

pub data Errno : Type 0 where
  eagain : Errno
  ebadf : Errno
  ebusy : Errno
  edeadlk : Errno
  eexist : Errno
  einval : Errno
  emsgsize : Errno
  enametoolong : Errno
  enoent : Errno
  enomem : Errno
  enotsup : Errno
  eperm : Errno
  etimedout : Errno

-- 0, -1, or an error number (which is positive, and so neither of the two).
pub data Ret : Type 0 where
  ok : Ret
  fail : Ret
  errnum : Errno → Ret

-- `ret == 0`
abbrev pub is_ok : Ret → Bool
is_ok ok = true
is_ok _ = false

-- `ret == ETIMEDOUT`
abbrev pub is_etimedout : Ret → Bool
is_etimedout (errnum etimedout) = true
is_etimedout _ = false
