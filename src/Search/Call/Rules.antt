-- ===== src/Search/Call/Rules.antt =====
-- What holds after a call, one rule for each way to build one.
use kinetix_search_service.Common.{
  ok, err, Bool, true, false, ◌≡◌, refl, ap, ok-injective, if◌then◌else◌, arith,
}
use kinetix_search_service.Search.Errors.{Result, GoError}
use kinetix_search_service.Search.Call.{Call, pure, raise, continue, ◌>>=◌, when, settled, handling}

module _ {W A : Type 0} where
  -- `Q` after an answer, `F` after an error.
  abbrev pub Holds : (A → W → Type 0) → (W → Type 0) → Result A → W → Type 0
  Holds Q F (ok a) w = Q a w
  Holds Q F (err e) w = F w

  pub record After (P : W → Type 0) (m : Call W A) (Q : A → W → Type 0) (F : W → Type 0)
      : Type 0 where
    pub at : (w : W) → P w → Holds Q F (m w).0 (m w).1

  pub After-pure :
      (P : W → Type 0) (a : A) (Q : A → W → Type 0) (F : W → Type 0)
      → ((w : W) → P w → Q a w)
      → After P (pure a) Q F
  After-pure P a Q F h = record { at = h }

  pub After-raise :
      (P : W → Type 0) (e : GoError) (Q : A → W → Type 0) (F : W → Type 0)
      → ((w : W) → P w → F w)
      → After P (raise e) Q F
  After-raise P e Q F h = record { at = h }

module _ {W A B : Type 0} {F : W → Type 0} where
  Holds-continue :
      (Q : A → W → Type 0) (R : B → W → Type 0) (r : Result A) (f : A → Call W B) (w : W)
      → ((a : A) → After (Q a) (f a) R F)
      → Holds Q F r w
      → Holds R F (continue r f w).0 (continue r f w).1
  Holds-continue Q R (ok a) f w h q = (h a).at w q
  Holds-continue Q R (err e) f w h q = q

  pub After->>= :
      (m : Call W A) (f : A → Call W B) (Q : A → W → Type 0) (R : B → W → Type 0)
      → {P : W → Type 0} → After P m Q F
      → ((a : A) → After (Q a) (f a) R F)
      → After P (m >>= f) R F
  After->>= m f Q R hm hf = record {
    at = λ w p. Holds-continue Q R (m w).0 f (m w).1 hf (hm.at w p);
  }

module _ {W : Type 0} {P : W → Type 0} {F : W → Type 0} where
  pub After-when :
      (b : Bool) (m : Call W (Unit {0})) (Q : W → Type 0)
      → (b ≡ true → After P m (λ _. Q) F)
      → (b ≡ false → (w : W) → P w → Q w)
      → After P (when b m) (λ _. Q) F
  After-when true m Q h k = h refl
  After-when false m Q h k = record { at = k refl }

module _ {W A B : Type 0} where
  continue-inv :
      (m : Call W A) (f : A → Call W B) (w : W) (r : Result A) (w₁ : W) {b : B} {w' : W}
      → m w ≡ (r, w₁)
      → continue r f w₁ ≡ (ok b, w')
      → (a : A) × (v : W) × (m w ≡ (ok a, v)) × (f a v ≡ (ok b, w'))
  continue-inv m f w (ok a) w₁ e h = (a, w₁, e, h)
  continue-inv m f w (err x) w₁ e h = absurd (ground arith)

  -- A chain that answered, taken apart at its first call.
  pub >>=-inv :
      (m : Call W A) (f : A → Call W B) (w : W) {b : B} {w' : W}
      → (m >>= f) w ≡ (ok b, w')
      → (a : A) × (v : W) × (m w ≡ (ok a, v)) × (f a v ≡ (ok b, w'))
  >>=-inv m f w h = continue-inv m f w (m w).0 (m w).1 refl h

settled-ok :
    {A : Type 0} (handle : GoError → GoError) (r : Result A) {a : A}
    → settled handle r ≡ ok a
    → r ≡ ok a
settled-ok handle (ok x) h = h
settled-ok handle (err e) h = absurd (ground arith)

-- The call under a `handling` that answered.
pub handling-inv :
    {W A : Type 0} (handle : GoError → GoError) (m : Call W A) (w : W) {a : A} {w' : W}
    → handling handle m w ≡ (ok a, w')
    → m w ≡ (ok a, w')
handling-inv handle m w h = λ i. (settled-ok handle (m w).0 (ap (λ p. p.0) h) i, (h i).1)

-- The end of a call that checks its answer.
pub checked-inv :
    {W A : Type 0} (b : Bool) (a : A) (e : GoError) (w : W) {x : A} {w' : W}
    → ◌≡◌ {A = Result A × W} (if b then (ok a, w) else (err e, w)) (ok x, w')
    → (b ≡ true) × (a ≡ x) × (w ≡ w')
checked-inv true a e w h = (refl, ok-injective (ap (λ p. p.0) h), ap (λ p. p.1) h)
checked-inv false a e w h = absurd (ground (arith, ap (λ p. p.0) h))
