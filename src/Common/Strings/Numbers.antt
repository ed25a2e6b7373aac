-- ===== src/Common/Strings/Numbers.antt =====
-- `strconv.Atoi`: a sign or none, then decimal digits, of a number that 64 bits hold.
use Prim.Native.Nat.{ℕ, zero, suc, ◌+◌, ◌-◌, ◌*◌, ◌^◌}
use mathlib.Core.Path.{◌≡◌}
use mathlib.Core.Bool.{◌&&◌}
use mathlib.Core.List.{[], ◌∷◌}
use mathlib.Core.Option.{Option, none, some}
use native.Mathlib.Omega.{arith}
use kinetix_search_service.Common.Int.{ℤ, pos, negsuc, IsInt64}
use kinetix_search_service.Common.Tests.{ltb, leb, ◌==◌, if◌then◌else◌}
use kinetix_search_service.Common.Strings.{Text}

-- The value of digits that follow the ones of `acc`.
abbrev pub digits_value : ℕ → Text → Option ℕ
digits_value acc [] = some acc
digits_value acc (c ∷ s) =
    let rest = digits_value (acc * 10 + (c - 48)) s in if leb 48 c && leb c 57 then rest else none

abbrev pub magnitude : Text → Option ℕ
magnitude [] = none
magnitude (c ∷ s) = digits_value 0 (c ∷ s)

abbrev pub above_zero : Option ℕ → Option ℤ
above_zero none = none
above_zero (some n) = if ltb n (2 ^ 63) then some (pos n) else none

abbrev pub opposite : ℕ → ℤ
opposite zero = pos 0
opposite (suc n) = negsuc n

abbrev pub below_zero : Option ℕ → Option ℤ
below_zero none = none
below_zero (some n) = if leb n (2 ^ 63) then some (opposite n) else none

unfoldable pub atoi : Text → Option ℤ
atoi [] = none
atoi (c ∷ s) =
    if c == 45
    then below_zero (magnitude s)
    else if c == 43
    then above_zero (magnitude s)
    else above_zero (magnitude (c ∷ s))

above_zero-IsInt64 : (m : Option ℕ) {n : ℤ} → above_zero m ≡ some n → IsInt64 n
above_zero-IsInt64 none h = absurd (ground arith)
above_zero-IsInt64 (some k) {n = pos n} h = ground arith
above_zero-IsInt64 (some k) {n = negsuc n} h = ground arith

below_zero-IsInt64 : (m : Option ℕ) {n : ℤ} → below_zero m ≡ some n → IsInt64 n
below_zero-IsInt64 none h = absurd (ground arith)
below_zero-IsInt64 (some zero) {n = pos n} h = ground arith
below_zero-IsInt64 (some zero) {n = negsuc n} h = ground arith
below_zero-IsInt64 (some (suc k)) {n = pos n} h = ground arith
below_zero-IsInt64 (some (suc k)) {n = negsuc n} h = ground arith
