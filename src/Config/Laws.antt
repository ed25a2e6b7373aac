-- ===== src/Config/Laws.antt =====
-- What settings internal/config accepts, and the numbers that it makes of them.
use kinetix_search_service.Common.{
  ℕ, ℤ, pos, negsuc, ◌*◌, ◌^◌, ◌≤◌, ◌≤ℤ◌, wrap64, true, false, ◌≡◌, refl, inl, inr, Memᴰ, Option,
  none, some, List, ◌∷◌, Text, is_empty, trim_space, ok, err, Res, All, Bool-cases, arith,
}
use kinetix_search_service.Common.Strings.Numbers.{atoi}
use kinetix_search_service.Config.{
  Environment, Config, required_names, positive_or, number, in_milliseconds, duration, settings,
}

-- A variable that has a value.
abbrev pub IsGiven : Environment → Text → Type 0
IsGiven env name = is_empty (trim_space (env name)) ≡ false

-- How reading the environment ends: every required variable is given, or the names in the error are
-- required and not given, and there is one.
pub data Reads (env : Environment) : Res (List Text) Config → Type 0 where
  complete : All (IsGiven env) required_names → Reads env (ok (settings env))
  lacking :
      {name : Text} {names : List Text}
      → All (λ n. (is_empty (trim_space (env n)) ≡ true) × Memᴰ n required_names) (name ∷ names)
      → Reads env (err (name ∷ names))

positive_or-positive :
    (fallback : ℤ) (n : Option ℤ) → pos 1 ≤ℤ fallback → pos 1 ≤ℤ positive_or fallback n
positive_or-positive fallback none h = h
positive_or-positive fallback (some n) h = ground arith

number-positive :
    (env : Environment) (name : Text) (fallback : ℤ)
    → pos 1 ≤ℤ fallback
    → pos 1 ≤ℤ number env name fallback
unfolding number
number-positive env name fallback h = elim (Bool-cases (is_empty (trim_space (env name)))) [
  | inl empty ↦ rw (empty) h
  | inr given ↦ rw (given) (positive_or-positive fallback (atoi (trim_space (env name))) h)
]

-- The greatest number of milliseconds that a duration of 64 bits of nanoseconds holds.
abbrev pub max_milliseconds : ℕ
max_milliseconds = 9_223_372_036_854

in_milliseconds-exact :
    (m : ℤ)
    → pos 1 ≤ℤ m
    → m ≤ℤ pos max_milliseconds
    → (n : ℕ) × (1 ≤ n) × (m ≡ pos n) × (in_milliseconds m ≡ pos (n * 10 ^ 6))
unfolding wrap64
in_milliseconds-exact (pos n) h fits = (n, ground arith, refl, ground arith)
in_milliseconds-exact (negsuc n) h fits = absurd (ground arith)

-- If the fallback is positive and the number of milliseconds is at most 9,223,372,036,854, a
-- duration is that number of milliseconds, in nanoseconds, and is positive.
pub duration-exact :
    (env : Environment) (name : Text) (fallback : ℕ)
    → 1 ≤ fallback
    → number env name (pos fallback) ≤ℤ pos max_milliseconds
    → (n : ℕ) × (1 ≤ n)
      × (number env name (pos fallback) ≡ pos n)
      × (duration env name fallback ≡ pos (n * 10 ^ 6))
unfolding duration
duration-exact env name fallback h fits =
    in_milliseconds-exact (number env name (pos fallback))
      (number-positive env name (pos fallback) (ground arith)) fits
