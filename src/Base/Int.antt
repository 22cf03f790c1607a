-- ===== src/Base/Int.antt =====
-- C integers that a kernel function returns: zero and counts are `pos`, a negated errno is `negsuc`.
use Prim.Native.Nat.{ℕ}

-- `negsuc n` is -(n + 1).
pub data ℤ : Type 0 where
  pos : ℕ → ℤ
  negsuc : ℕ → ℤ

-- `-ENOMEM`, `-EFAULT` and `-ENOSPC` of linux/errno-base.h.
abbrev pub enomem : ℤ
enomem = negsuc 11

abbrev pub efault : ℤ
efault = negsuc 13

abbrev pub enospc : ℤ
enospc = negsuc 27
