-- ===== src/Base/Results.antt =====
-- The error numbers and the `int` results of the driver's functions.
use Prim.Native.Nat.{ℕ}

-- `errno ≡ os n` is any number that the driver does not name.
pub data Errno : Type 0 where
  einval ebusy eio enodata emsgsize enospc enomem ebadmsg etimedout eagain enoent : Errno
  os : ℕ → Errno

-- An `int` result: `ret n` is n ≥ 0, `fail e` is -e.
pub data Ret : Type 0 where
  ret : ℕ → Ret
  fail : Errno → Ret
