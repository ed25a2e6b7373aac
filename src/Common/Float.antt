-- ===== src/Common/Float.antt =====
-- Go's `float64`, as far as the program uses it: a number goes in and comes out again. The
-- conversions are a parameter of what uses them.
use Prim.Native.Nat.{◌≤◌, ◌^◌}
use mathlib.Core.Path.{◌≡◌}
use kinetix_search_service.Common.Int.{ℤ, pos_part, neg_part}

-- The integers that every `float64` of that size can hold.
abbrev pub IsExact : ℤ → Type 0
IsExact n = (pos_part n ≤ 2 ^ 53) × (neg_part n ≤ 2 ^ 53)

-- `of_int64` is `float64(n)`, `to_int64` is `int64(x)`, and `seconds` is `Duration.Seconds`.
pub record Floats (F : Type 0) : Type 0 where
  pub of_int64 : ℤ → F
  pub to_int64 : F → ℤ
  pub seconds : ℤ → F
  pub zero_float : F
  pub to_int64-of_int64 : (n : ℤ) → IsExact n → to_int64 (of_int64 n) ≡ n
