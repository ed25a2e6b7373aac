-- ===== src/Common/Lists.antt =====
-- Lists measured by native numbers, and predicates on all their members.
use Prim.Native.Nat.{ℕ, zero, suc, ◌+◌}
use mathlib.Core.Path.{◌≡◌, refl, ap, subst}
use mathlib.Core.Logic.{◌⊎◌, inl, inr}
use mathlib.Core.Bool.{Bool, true, false, ◌&&◌, ◌||◌}
use mathlib.Core.List.{List, [], ◌∷◌, ◌++◌, Memᴰ}
use mathlib.Core.List.Memᴰ.{head, tail}
use native.Mathlib.Omega.{arith}

module _ {ℓ} {A : Type ℓ} where
  abbrev pub length : List A → ℕ
  length [] = 0
  length (x ∷ xs) = suc (length xs)

  -- `len(xs) > 0`
  abbrev pub nonempty : List A → Bool
  nonempty [] = false
  nonempty (x ∷ xs) = true

  abbrev pub any : (A → Bool) → List A → Bool
  any p [] = false
  any p (x ∷ xs) = p x || any p xs

  abbrev pub all : (A → Bool) → List A → Bool
  all p [] = true
  all p (x ∷ xs) = p x && all p xs

  pub length-append : (xs ys : List A) → length (xs ++ ys) ≡ length xs + length ys
  length-append [] ys = omega arith
  length-append (x ∷ xs) ys = omega (arith, length-append xs ys)

  pub any-append : (p : A → Bool) (xs ys : List A) → any p (xs ++ ys) ≡ (any p xs || any p ys)
  any-append p [] ys = refl
  any-append p (x ∷ xs) ys = ground (arith, any-append p xs ys)

module _ {ℓ κ} {A : Type ℓ} where
  abbrev pub All : (A → Type κ) → List A → Type κ
  All P [] = Unit
  All P (x ∷ xs) = P x × All P xs

  pub All-append : (P : A → Type κ) (xs ys : List A) → All P xs → All P ys → All P (xs ++ ys)
  All-append P [] ys h k = k
  All-append P (x ∷ xs) ys h k = (h.0, All-append P xs ys h.1 k)

module _ {ℓ} {A : Type ℓ} where
  -- `l[:n]`
  unfoldable pub take : ℕ → List A → List A
  take zero xs = []
  take (suc n) [] = []
  take (suc n) (x ∷ xs) = x ∷ take n xs

  -- `l[n:]`
  unfoldable pub drop : ℕ → List A → List A
  drop zero xs = xs
  drop (suc n) [] = []
  drop (suc n) (x ∷ xs) = drop n xs

  pub take-append : (xs ys : List A) → take (length xs) (xs ++ ys) ≡ xs
  unfolding take
  take-append [] ys = refl
  take-append (x ∷ xs) ys = ap (◌∷◌ x) (take-append xs ys)

  pub drop-append : (xs ys : List A) → drop (length xs) (xs ++ ys) ≡ ys
  unfolding drop
  drop-append [] ys = refl
  drop-append (x ∷ xs) ys = drop-append xs ys

  pub Memᴰ-append_left : {x : A} {xs : List A} (ys : List A) → Memᴰ x xs → Memᴰ x (xs ++ ys)
  Memᴰ-append_left ys (head e) = head e
  Memᴰ-append_left ys (tail m) = tail (Memᴰ-append_left ys m)

  pub Memᴰ-append_right : {x : A} (xs : List A) {ys : List A} → Memᴰ x ys → Memᴰ x (xs ++ ys)
  Memᴰ-append_right [] m = m
  Memᴰ-append_right (y ∷ xs) m = tail (Memᴰ-append_right xs m)

  pub Memᴰ-append_inv :
      {x : A} (xs : List A) {ys : List A} → Memᴰ x (xs ++ ys) → Memᴰ x xs ⊎ Memᴰ x ys
  Memᴰ-append_inv [] m = inr m
  Memᴰ-append_inv (y ∷ xs) (head e) = inl (head e)
  Memᴰ-append_inv (y ∷ xs) (tail m) = elim (Memᴰ-append_inv xs m) [
    | inl k ↦ inl (tail k)
    | inr k ↦ inr k
  ]

module _ {ℓ κ} {A : Type ℓ} {B : Type κ} where
  abbrev pub flat_map : (A → List B) → List A → List B
  flat_map f [] = []
  flat_map f (x ∷ xs) = f x ++ flat_map f xs

  pub Memᴰ-flat_map :
      (f : A → List B) {x : A} {y : B} {xs : List A}
      → Memᴰ x xs
      → Memᴰ y (f x)
      → Memᴰ y (flat_map f xs)
  Memᴰ-flat_map f {xs = []} m k = elim m [ ]
  Memᴰ-flat_map f {y = y} {xs = z ∷ xs} (head e) k =
      Memᴰ-append_left _ (subst (λ (a : A). Memᴰ y (f a)) e k)
  Memᴰ-flat_map f {xs = z ∷ xs} (tail m) k = Memᴰ-append_right (f z) (Memᴰ-flat_map f m k)

  pub Memᴰ-flat_map_inv :
      (f : A → List B) {y : B} (xs : List A)
      → Memᴰ y (flat_map f xs)
      → (x : A) × Memᴰ x xs × Memᴰ y (f x)
  Memᴰ-flat_map_inv f [] m = elim m [ ]
  Memᴰ-flat_map_inv f (x ∷ xs) m = elim (Memᴰ-append_inv (f x) m) [
    | inl k ↦ (x, head refl, k)
    | inr k ↦ let (a, here, there) = Memᴰ-flat_map_inv f xs k in (a, tail here, there)
  ]
