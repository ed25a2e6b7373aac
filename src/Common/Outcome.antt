-- ===== src/Common/Outcome.antt =====
-- Go's pair of a value and an error: one or the other, chained by `do`.
-- The module is generic in the error, which package search declares.
use mathlib.Core.Path.{◌≡◌, refl, subst}
use mathlib.Core.Logic.{◌⊎◌, inl, inr}
use mathlib.Core.Bool.{Bool, true, false}
use kinetix_search_service.Common.Tests.{if◌then◌else◌}

pub data Res {ℓ} (E : Type 0) (A : Type ℓ) : Type ℓ where
  ok : A → Res E A
  err : E → Res E A

infixl 5 ◌>>=◌
abbrev pub ◌>>=◌ {ℓ κ} : {E : Type 0} {A : Type ℓ} {B : Type κ} → Res E A → (A → Res E B) → Res E B
ok a >>= f = f a
err e >>= f = err e

pub >>=-eq_ok {ℓ κ} :
    {E : Type 0} {A : Type ℓ} {B : Type κ} (m : Res E A) (f : A → Res E B) {b : B}
    → (m >>= f) ≡ ok b
    → (a : A) × (m ≡ ok a) × (f a ≡ ok b)
>>=-eq_ok (ok a) f h = (a, refl, h)
>>=-eq_ok (err e) f h = cc

pub >>=-eq_err {ℓ κ} :
    {E : Type 0} {A : Type ℓ} {B : Type κ} (m : Res E A) (f : A → Res E B) {e : E}
    → (m >>= f) ≡ err e
    → (m ≡ err e) ⊎ ((a : A) × (m ≡ ok a) × (f a ≡ err e))
>>=-eq_err (ok a) f h = inr (a, refl, h)
>>=-eq_err (err e) f h = inl (cc h)

-- Every error of the outcome satisfies `P`.
abbrev pub Fails {ℓ} : {E : Type 0} {A : Type ℓ} → (E → Type 0) → Res E A → Type 0
Fails P (ok a) = Unit
Fails P (err e) = P e

pub Fails->>= {ℓ κ} :
    {E : Type 0} {A : Type ℓ} {B : Type κ} (P : E → Type 0) (m : Res E A) (f : A → Res E B)
    → Fails P m
    → ((a : A) → Fails P (f a))
    → Fails P (m >>= f)
Fails->>= P (ok a) f h k = k a
Fails->>= P (err e) f h k = h

pub Fails-if {ℓ} :
    {E : Type 0} {A : Type ℓ} (P : E → Type 0) (b : Bool) (m n : Res E A)
    → Fails P m
    → Fails P n
    → Fails P (if b then m else n)
Fails-if P true m n h k = h
Fails-if P false m n h k = k

pub Fails-err {ℓ} :
    {E : Type 0} {A : Type ℓ} (P : E → Type 0) (m : Res E A) {e : E} → Fails P m → m ≡ err e → P e
Fails-err P (ok a) h eq = cc
Fails-err P (err e) h eq = subst P (cc) h

pub Fails-intro {ℓ} :
    {E : Type 0} {A : Type ℓ} (P : E → Type 0) (m : Res E A)
    → ((e : E) → m ≡ err e → P e)
    → Fails P m
Fails-intro P (ok a) h = tt
Fails-intro P (err e) h = h e refl

pub ok-injective {ℓ} : {E : Type 0} {A : Type ℓ} {a b : A} → ◌≡◌ {A = Res E A} (ok a) (ok b) → a ≡ b
ok-injective h = cc h
