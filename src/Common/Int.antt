-- ===== src/Common/Int.antt =====
-- Signed integers over the native numbers: Go's `int`, `int64` and the numbers of a time.
use Prim.Native.Nat.{ℕ, suc, ◌+◌, ◌-◌, ◌%◌, ◌^◌, ◌≤◌}
use mathlib.Core.Path.{◌≡◌}
use mathlib.Core.Bool.{Bool}
use native.Mathlib.Omega.{arith}
use kinetix_search_service.Common.Tests.{ltb, leb, ◌==◌, if◌then◌else◌}

-- `negsuc n` is -(n + 1).
pub data ℤ : Type 0 where
  pos : ℕ → ℤ
  negsuc : ℕ → ℤ

abbrev pub pos_part : ℤ → ℕ
pos_part (pos n) = n
pos_part (negsuc n) = 0

abbrev pub neg_part : ℤ → ℕ
neg_part (pos n) = 0
neg_part (negsuc n) = suc n

abbrev pub sub_ℕ : ℕ → ℕ → ℤ
sub_ℕ a b = if leb b a then pos (a - b) else negsuc (b - a - 1)

infixl 65 ◌+ℤ◌ ◌-ℤ◌
infix 50 ◌≤ℤ◌
unfoldable pub ◌+ℤ◌ : ℤ → ℤ → ℤ
a +ℤ b = sub_ℕ (pos_part a + pos_part b) (neg_part a + neg_part b)

unfoldable pub ◌-ℤ◌ : ℤ → ℤ → ℤ
a -ℤ b = sub_ℕ (pos_part a + neg_part b) (neg_part a + pos_part b)

abbrev pub ◌≤ℤ◌ : ℤ → ℤ → Type 0
a ≤ℤ b = pos_part a + neg_part b ≤ pos_part b + neg_part a

abbrev pub ltb_ℤ : ℤ → ℤ → Bool
ltb_ℤ a b = ltb (pos_part a + neg_part b) (pos_part b + neg_part a)

abbrev pub eq_ℤ : ℤ → ℤ → Bool
eq_ℤ a b = (pos_part a + neg_part b) == (pos_part b + neg_part a)

-- The value that 64 bits hold of an integer: two's complement.
abbrev pub signed64 : ℕ → ℤ
signed64 r = if ltb r (2 ^ 63) then pos r else negsuc (2 ^ 64 - 1 - r)

unfoldable pub wrap64 : ℤ → ℤ
wrap64 (pos n) = signed64 (n % 2 ^ 64)
wrap64 (negsuc n) = signed64 (2 ^ 64 - 1 - n % 2 ^ 64)

-- `int64` holds -2^63 to 2^63 - 1.
abbrev pub IsInt64 : ℤ → Type 0
IsInt64 z = (pos_part z + 1 ≤ 2 ^ 63) × (neg_part z ≤ 2 ^ 63)

pub wrap64-id : (z : ℤ) → IsInt64 z → wrap64 z ≡ z
unfolding wrap64
wrap64-id (pos n) h = ground arith
wrap64-id (negsuc n) h = ground arith

pub wrap64-IsInt64 : (z : ℤ) → IsInt64 (wrap64 z)
unfolding wrap64
wrap64-IsInt64 (pos n) = ground arith
wrap64-IsInt64 (negsuc n) = ground arith

pub -ℤ_parts :
    (a b : ℤ)
    → pos_part (a -ℤ b) + neg_part a + pos_part b ≡ neg_part (a -ℤ b) + pos_part a + neg_part b
unfolding ◌-ℤ◌
-ℤ_parts a b = ground arith

pub +ℤ_parts :
    (a b : ℤ)
    → pos_part (a +ℤ b) + neg_part a + neg_part b ≡ neg_part (a +ℤ b) + pos_part a + pos_part b
unfolding ◌+ℤ◌
+ℤ_parts a b = ground arith

pub eq_of_parts : (a b : ℤ) → pos_part a + neg_part b ≡ pos_part b + neg_part a → a ≡ b
eq_of_parts a b h = ground arith

-- The same of 32 bits, for `int32(n)`.
abbrev signed32 : ℕ → ℤ
signed32 r = if ltb r (2 ^ 31) then pos r else negsuc (2 ^ 32 - 1 - r)

unfoldable pub wrap32 : ℤ → ℤ
wrap32 (pos n) = signed32 (n % 2 ^ 32)
wrap32 (negsuc n) = signed32 (2 ^ 32 - 1 - n % 2 ^ 32)

abbrev pub IsInt32 : ℤ → Type 0
IsInt32 z = (pos_part z + 1 ≤ 2 ^ 31) × (neg_part z ≤ 2 ^ 31)

pub wrap32-id : (z : ℤ) → IsInt32 z → wrap32 z ≡ z
unfolding wrap32
wrap32-id (pos n) h = ground arith
wrap32-id (negsuc n) h = ground arith

-- Adding to, and taking away, what was wrapped before is wrapping once.
pub wrap64-+ℤ_wrap64 : (m n : ℕ) → wrap64 (wrap64 (pos m) +ℤ pos n) ≡ wrap64 (pos (m + n))
unfolding wrap64 ◌+ℤ◌
wrap64-+ℤ_wrap64 m n = ground arith

pub wrap64--ℤ_wrap64 : (z : ℤ) (n : ℕ) → wrap64 (z -ℤ wrap64 (pos n)) ≡ wrap64 (z -ℤ pos n)
unfolding wrap64 ◌-ℤ◌
wrap64--ℤ_wrap64 (pos m) n = ground arith
wrap64--ℤ_wrap64 (negsuc m) n = ground arith
