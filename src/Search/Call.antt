-- ===== src/Search/Call.antt =====
-- A call of what stands behind an interface: it takes the state `W` there and returns it, changed
-- or not, beside the answer. A call that fails may have changed it too.
pub mod Rules
pub mod Yields
use kinetix_search_service.Common.{ℕ, ok, err, Bool, true, false, if◌then◌else◌}
use kinetix_search_service.Search.Errors.{Result, GoError}

abbrev pub Call : Type 0 → Type 0 → Type 0
Call W A = W → Result A × W

module _ {W : Type 0} where
  abbrev pub pure : {A : Type 0} → A → Call W A
  pure a w = (ok a, w)

  abbrev pub raise : {A : Type 0} → GoError → Call W A
  raise e w = (err e, w)

  abbrev pub continue : {A B : Type 0} → Result A → (A → Call W B) → Call W B
  continue (ok a) f w = f a w
  continue (err e) f w = (err e, w)

  -- `if err != nil { return err }` after each call.
  infixl 5 ◌>>=◌ ◌>>◌
  abbrev pub ◌>>=◌ : {A B : Type 0} → Call W A → (A → Call W B) → Call W B
  ◌>>=◌ m f w = let (r, w') = m w in continue r f w'

  abbrev pub ◌>>◌ : {B : Type 0} → Call W (Unit {0}) → Call W B → Call W B
  m >> k = m >>= λ _. k

  -- A call that is made under a condition.
  abbrev pub when : Bool → Call W (Unit {0}) → Call W (Unit {0})
  when true m = m
  when false m = pure tt

abbrev pub settled : {A : Type 0} → (GoError → GoError) → Result A → Result A
settled handle (ok a) = ok a
settled handle (err e) = err (handle e)

-- A call whose error is wrapped on its way out.
abbrev pub handling : {W A : Type 0} → (GoError → GoError) → Call W A → Call W A
handling handle m w = let (r, w') = m w in (settled handle r, w')
