-- ===== src/Common/Int.antt =====
-- Signed integers over the native numbers, under the library's names; `negsuc n` is -(n + 1).
use Prim.Native.Nat.{ℕ, zero, suc, ◌+◌, ◌-◌, ◌*◌}
use numcore_messaging_librar.Common.Tests.{ltb, if◌then◌else◌}

pub data ℤ : Type 0 where
  pos : ℕ → ℤ
  negsuc : ℕ → ℤ

abbrev pub neg_of_ℕ : ℕ → ℤ
neg_of_ℕ zero = pos 0
neg_of_ℕ (suc n) = negsuc n

unfoldable pub difference : ℕ → ℕ → ℤ
difference m n = if ltb m n then neg_of_ℕ (n - m) else pos (m - n)

infixl 6 ◌+ℤ◌
unfoldable pub ◌+ℤ◌ : ℤ → ℤ → ℤ
unfolding difference
pos m +ℤ pos n = pos (m + n)
pos m +ℤ negsuc n = difference m (n + 1)
negsuc m +ℤ pos n = difference n (m + 1)
negsuc m +ℤ negsuc n = negsuc (m + n + 1)

abbrev pub negate : ℤ → ℤ
negate (pos n) = neg_of_ℕ n
negate (negsuc n) = pos (n + 1)

-- `m * n`
abbrev pub scale : ℕ → ℤ → ℤ
scale m (pos n) = pos (m * n)
scale m (negsuc n) = neg_of_ℕ (m * (n + 1))
