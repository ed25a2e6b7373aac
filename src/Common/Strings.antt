-- ===== src/Common/Strings.antt =====
-- Go strings and the functions of package `strings` that the program calls.
-- A string is the list of its runes; a code above 0x10ffff stands for a byte that decodes to none,
-- which ranges as one element of one byte, neither space nor control.
pub mod Trim
pub mod Numbers
use Prim.Native.Nat.{ℕ, zero, suc, ◌+◌, ◌/◌, ◌%◌}
use kinetix_search_service.Common.Int.{ℤ, pos, negsuc}
use Prim.Native.Char.{code}
use Prim.Native.String.{String}
use mathlib.Core.Path.{◌≡◌, refl}
use mathlib.Core.Bool.{Bool, true, false, ◌&&◌, ◌||◌}
use mathlib.Core.List.{List, [], ◌∷◌, ◌++◌}
use native.Mathlib.Omega.{arith}
use kinetix_search_service.Common.Tests.{ltb, leb, ◌==◌, if◌then◌else◌}

abbrev pub Text : Type 0
Text = List ℕ

-- A string literal of the source.
abbrev pub lit : String → Text
lit String.[] = []
lit (String.◌∷◌ c s) = code c ∷ lit s

abbrev pub text_eq : Text → Text → Bool
text_eq [] [] = true
text_eq [] (y ∷ ys) = false
text_eq (x ∷ xs) [] = false
text_eq (x ∷ xs) (y ∷ ys) = x == y && text_eq xs ys

abbrev pub is_empty : Text → Bool
is_empty [] = true
is_empty (c ∷ s) = false

-- How many bytes a rune takes in UTF-8; `len` counts bytes.
abbrev pub width : ℕ → ℕ
width r =
    if ltb r 0x80
    then 1
    else if ltb r 0x800
    then 2
    else if ltb r 0x10000
    then 3
    else if ltb r 0x110000
    then 4
    else 1

abbrev pub byte_len : Text → ℕ
byte_len [] = 0
byte_len (r ∷ s) = width r + byte_len s

-- A byte that decodes to no rune.
abbrev pub undecodable : ℕ → Bool
undecodable r = ltb 0x10ffff r

-- `unicode.IsSpace`.
unfoldable pub is_space : ℕ → Bool
is_space r =
    (leb 9 r && leb r 13)
    || r == 32
    || r == 0x85
    || r == 0xa0
    || r == 0x1680
    || (leb 0x2000 r && leb r 0x200a)
    || r == 0x2028
    || r == 0x2029
    || r == 0x202f
    || r == 0x205f
    || r == 0x3000

unfoldable pub trim_left : Text → Text
trim_left [] = []
trim_left (r ∷ s) = let rest = trim_left s in if is_space r then rest else r ∷ s

abbrev pub keep_last : ℕ → Text → Text
keep_last r [] = if is_space r then [] else r ∷ []
keep_last r (c ∷ s) = r ∷ c ∷ s

unfoldable pub trim_right : Text → Text
trim_right [] = []
trim_right (r ∷ s) = keep_last r (trim_right s)

-- `strings.TrimSpace`.
unfoldable pub trim_space : Text → Text
unfolding is_space trim_left trim_right
trim_space s = trim_right (trim_left s)

-- `strings.HasPrefix`.
abbrev pub has_prefix : Text → Text → Bool
has_prefix s [] = true
has_prefix [] (p ∷ ps) = false
has_prefix (c ∷ s) (p ∷ ps) = c == p && has_prefix s ps

-- `strings.TrimPrefix`.
abbrev pub without : Text → Text → Text
without s [] = s
without [] (p ∷ ps) = []
without (c ∷ s) (p ∷ ps) = without s ps

abbrev pub trim_prefix : Text → Text → Text
trim_prefix s p = if has_prefix s p then without s p else s

-- `strings.ToLower`, of a string of ASCII.
abbrev pub to_lower : Text → Text
to_lower [] = []
to_lower (c ∷ s) = (if leb 65 c && leb c 90 then c + 32 else c) ∷ to_lower s

-- `strings.Contains` of a string of one rune.
abbrev pub contains : ℕ → Text → Bool
contains r [] = false
contains r (c ∷ s) = c == r || contains r s

abbrev pub put : ℕ → List Text → List Text
put c [] = (c ∷ []) ∷ []
put c (t ∷ ts) = (c ∷ t) ∷ ts

-- `strings.Split` at a separator of one rune.
abbrev pub split : ℕ → Text → List Text
split sep [] = [] ∷ []
split sep (c ∷ s) = if c == sep then [] ∷ split sep s else put c (split sep s)

abbrev pub join_rest : Text → List Text → Text
join_rest sep [] = []
join_rest sep (t ∷ ts) = sep ++ (t ++ join_rest sep ts)

-- `strings.Join`.
abbrev pub join : List Text → Text → Text
join [] sep = []
join (t ∷ ts) sep = t ++ join_rest sep ts

-- The decimal digits of a number, before those of `acc`; the first argument bounds their count.
unfoldable pub digits_onto : ℕ → ℕ → Text → Text
digits_onto zero n acc = acc
digits_onto (suc k) n acc =
    let more = digits_onto k (n / 10) ((48 + n % 10) ∷ acc) in
    if ltb n 10 then (48 + n) ∷ acc else more

-- `%d`: twenty digits are enough for 64 bits.
unfoldable pub decimal : ℤ → Text
unfolding digits_onto
decimal (pos n) = digits_onto 20 n []
decimal (negsuc n) = 45 ∷ digits_onto 20 (suc n) []

pub text_eq_refl : (s : Text) → text_eq s s ≡ true
text_eq_refl [] = refl
text_eq_refl (c ∷ s) = ground (arith, text_eq_refl s)

pub eq_of_text_eq : (s t : Text) → text_eq s t ≡ true → s ≡ t
eq_of_text_eq [] [] h = refl
eq_of_text_eq [] (y ∷ ys) h = ground arith
eq_of_text_eq (x ∷ xs) [] h = ground arith
eq_of_text_eq (x ∷ xs) (y ∷ ys) h = ground (arith, eq_of_text_eq xs ys)

pub has_prefix-append : (p s : Text) → has_prefix (p ++ s) p ≡ true
has_prefix-append [] s = refl
has_prefix-append (c ∷ p) s = ground (arith, has_prefix-append p s)

pub text_eq_sym : (s t : Text) → text_eq s t ≡ text_eq t s
text_eq_sym [] [] = refl
text_eq_sym [] (y ∷ ys) = refl
text_eq_sym (x ∷ xs) [] = refl
text_eq_sym (x ∷ xs) (y ∷ ys) = ground (arith, text_eq_sym xs ys)

pub without-append : (p s : Text) → without (p ++ s) p ≡ s
without-append [] s = refl
without-append (c ∷ p) s = without-append p s

-- A prefix that is taken off and put back.
pub append-without : (s p : Text) → has_prefix s p ≡ true → p ++ without s p ≡ s
append-without s [] h = refl
append-without [] (c ∷ p) h = ground arith
append-without (d ∷ s) (c ∷ p) h = ground (arith, append-without s p)
