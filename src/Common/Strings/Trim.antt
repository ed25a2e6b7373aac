-- ===== src/Common/Strings/Trim.antt =====
-- `strings.TrimSpace` returns a text that it would leave alone.
use Prim.Native.Nat.{ℕ}
use mathlib.Core.Path.{◌≡◌, refl, ◌∙◌, ap}
use mathlib.Core.Bool.{Bool, true, not}
use mathlib.Core.List.{[], ◌∷◌, ◌++◌}
use mathlib.Core.Logic.{inl, inr}
use kinetix_search_service.Common.Lists.{all}
use kinetix_search_service.Common.Tests.{Bool-cases}
use native.Mathlib.Omega.{arith}
use kinetix_search_service.Common.Strings.{
  Text, is_space, trim_left, trim_right, trim_space, keep_last,
}

-- The first rune, if there is one, is no space.
abbrev pub starts_clean : Text → Bool
starts_clean [] = true
starts_clean (c ∷ s) = not (is_space c)

starts_clean-trim_left : (s : Text) → starts_clean (trim_left s) ≡ true
unfolding trim_left
starts_clean-trim_left [] = refl
starts_clean-trim_left (c ∷ s) = ground (arith, starts_clean-trim_left s)

trim_left_clean : (s : Text) → starts_clean s ≡ true → trim_left s ≡ s
unfolding trim_left
trim_left_clean [] h = refl
trim_left_clean (c ∷ s) h = ground arith

starts_clean-keep_last :
    (c : ℕ) (s : Text) → not (is_space c) ≡ true → starts_clean (keep_last c s) ≡ true
starts_clean-keep_last c [] h = ground arith
starts_clean-keep_last c (d ∷ s) h = h

starts_clean-trim_right : (s : Text) → starts_clean s ≡ true → starts_clean (trim_right s) ≡ true
unfolding trim_right
starts_clean-trim_right [] h = refl
starts_clean-trim_right (c ∷ s) h = starts_clean-keep_last c (trim_right s) h

trim_right-keep_last :
    (c : ℕ) (s : Text) → trim_right s ≡ s → trim_right (keep_last c s) ≡ keep_last c s
unfolding trim_right
trim_right-keep_last c [] h = ground arith
trim_right-keep_last c (d ∷ s) h = ap (keep_last c) h

trim_right_idem : (s : Text) → trim_right (trim_right s) ≡ trim_right s
unfolding trim_right
trim_right_idem [] = refl
trim_right_idem (c ∷ s) = trim_right-keep_last c (trim_right s) (trim_right_idem s)

pub trim_space_idem : (s : Text) → trim_space (trim_space s) ≡ trim_space s
unfolding trim_space
trim_space_idem s =
    ap trim_right (
      trim_left_clean (trim_right (trim_left s))
        (starts_clean-trim_right (trim_left s) (starts_clean-trim_left s)))
    ∙ trim_right_idem (trim_left s)

-- The last rune, if there is one, is no space.
abbrev pub ends_clean : Text → Bool
ends_clean [] = true
ends_clean (c ∷ []) = not (is_space c)
ends_clean (c ∷ d ∷ s) = ends_clean (d ∷ s)

-- A text without the spaces around it.
pub record IsTrimmed (s core : Text) : Type 0 where
  pub before : Text
  pub after : Text
  pub whole : s ≡ before ++ (core ++ after)
  pub blank_before : all is_space before ≡ true
  pub blank_after : all is_space after ≡ true
  pub starts : starts_clean core ≡ true
  pub ends : ends_clean core ≡ true

trim_left_split :
    (s : Text) → (before : Text) × (s ≡ before ++ trim_left s) × (all is_space before ≡ true)
unfolding trim_left
trim_left_split [] = ([], refl, refl)
trim_left_split (c ∷ s) = elim (Bool-cases (is_space c)) [
  | inl space ↦
      let (before, whole, blank) = trim_left_split s in
      (c ∷ before, rw (space) (ap (λ (t : Text). c ∷ t) whole), ground arith)
  | inr other ↦ ([], rw (other) (refl), refl)
]

keep_last_split :
    (c : ℕ) (t s after : Text)
    → s ≡ t ++ after
    → all is_space after ≡ true
    → (a : Text) × (c ∷ s ≡ keep_last c t ++ a) × (all is_space a ≡ true)
keep_last_split c [] s after whole blank = elim (Bool-cases (is_space c)) [
  | inl space ↦ (c ∷ after, rw (space) (ap (λ (t : Text). c ∷ t) whole), ground arith)
  | inr other ↦ (after, rw (other) (ap (λ (t : Text). c ∷ t) whole), blank)
]
keep_last_split c (d ∷ t) s after whole blank = (after, ap (λ (x : Text). c ∷ x) whole, blank)

trim_right_split :
    (s : Text) → (after : Text) × (s ≡ trim_right s ++ after) × (all is_space after ≡ true)
unfolding trim_right
trim_right_split [] = ([], refl, refl)
trim_right_split (c ∷ s) =
    let (after, whole, blank) = trim_right_split s in
    keep_last_split c (trim_right s) s after whole blank

ends_clean-keep_last : (c : ℕ) (t : Text) → ends_clean t ≡ true → ends_clean (keep_last c t) ≡ true
ends_clean-keep_last c [] h = ground arith
ends_clean-keep_last c (d ∷ t) h = h

ends_clean-trim_right : (s : Text) → ends_clean (trim_right s) ≡ true
unfolding trim_right
ends_clean-trim_right [] = refl
ends_clean-trim_right (c ∷ s) = ends_clean-keep_last c (trim_right s) (ends_clean-trim_right s)

pub trim_space-IsTrimmed : (s : Text) → IsTrimmed s (trim_space s)
unfolding trim_space
trim_space-IsTrimmed s =
    let (before, whole, blank) = trim_left_split s in
    let (after, rest, blank') = trim_right_split (trim_left s) in
    record {
      before = before;
      after = after;
      whole = whole ∙ ap (λ (t : Text). before ++ t) rest;
      blank_before = blank;
      blank_after = blank';
      starts = starts_clean-trim_right (trim_left s) (starts_clean-trim_left s);
      ends = ends_clean-trim_right (trim_left s);
    }
