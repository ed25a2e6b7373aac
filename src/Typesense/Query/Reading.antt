-- ===== src/Typesense/Query/Reading.antt =====
-- How the engine reads a filter: what stands between backticks is a value, all else is the clause.
-- Nothing inside backticks can be escaped, so a reader needs to know only whether it is inside.
use kinetix_search_service.Common.{
  ℕ, ◌==◌, ◌&&◌, not, Bool, true, false, ◌≡◌, refl, sym, ap, ◌∙◌, Option, none, some, List, [], ◌∷◌,
  ◌++◌, append_assoc, append-nil, Text, any, if◌then◌else◌, arith,
}

-- A filter with each value taken out of its backticks; the flag says that the reader is inside.
unfoldable pub outline_from : Bool → Text → Text
outline_from inside [] = []
outline_from inside (c ∷ s) =
    let rest = outline_from (if c == 96 then not inside else inside) s in
    if inside && not (c == 96) then rest else c ∷ rest

abbrev pub outline : Text → Text
outline = outline_from false

abbrev read_on : ℕ → Option Text → Option Text
read_on c none = if c == 96 then some [] else none
read_on c (some value) = if c == 96 then none else some (value ++ c ∷ [])

abbrev closing : ℕ → Option Text → List Text → List Text
closing c none values = values
closing c (some value) values = if c == 96 then value ∷ values else values

-- The values, in their order.
unfoldable pub values_from : Option Text → Text → List Text
values_from state [] = []
values_from state (c ∷ s) = closing c state (values_from (read_on c state) s)

abbrev pub values : Text → List Text
values = values_from none

-- A piece of a filter that begins and ends outside: its outline and its values, whatever follows.
pub record Reads (s o : Text) (vs : List Text) : Type 0 where
  pub outlined : (rest : Text) → outline (s ++ rest) ≡ o ++ outline rest
  pub valued : (rest : Text) → values (s ++ rest) ≡ vs ++ values rest

abbrev pub IsPlain : Text → Type 0
IsPlain s = any (λ c. c == 96) s ≡ false

outline-plain : (s rest : Text) → IsPlain s → outline (s ++ rest) ≡ s ++ outline rest
unfolding outline_from
outline-plain [] rest h = refl
outline-plain (c ∷ s) rest h = ground (arith, outline-plain s rest)

values-plain : (s rest : Text) → IsPlain s → values (s ++ rest) ≡ values rest
unfolding values_from
values-plain [] rest h = refl
values-plain (c ∷ s) rest h = ground (arith, values-plain s rest)

-- Text without a backtick reads as itself.
pub Reads-plain : (s : Text) → IsPlain s → Reads s s []
Reads-plain s h = record {
  outlined = λ rest. outline-plain s rest h;
  valued = λ rest. values-plain s rest h;
}

outline-inside :
    (v rest : Text) → IsPlain v → outline_from true (v ++ 96 ∷ rest) ≡ 96 ∷ outline rest
unfolding outline_from
outline-inside [] rest h = refl
outline-inside (c ∷ v) rest h = ground (arith, outline-inside v rest)

values-inside :
    (got v rest : Text)
    → IsPlain v
    → values_from (some got) (v ++ 96 ∷ rest) ≡ (got ++ v) ∷ values rest
unfolding values_from
values-inside got [] rest h = ap (λ (x : Text). x ∷ values rest) (sym (append-nil got))
values-inside got (c ∷ v) rest h =
    ground (arith, values-inside (got ++ c ∷ []) v rest, append_assoc got (c ∷ []) v)

-- A value between backticks reads as empty backticks and that value.
pub Reads-quoted : (v : Text) → IsPlain v → Reads (96 ∷ (v ++ 96 ∷ [])) (96 ∷ 96 ∷ []) (v ∷ [])
unfolding outline_from values_from
Reads-quoted v h = record {
  outlined = λ rest.
      ap (λ (x : Text). 96 ∷ x)
        (ap (outline_from true) (append_assoc v (96 ∷ []) rest) ∙ outline-inside v rest h);
  valued = λ rest.
      ap (values_from (some [])) (append_assoc v (96 ∷ []) rest) ∙ values-inside [] v rest h;
}

pub Reads-append :
    (s t o p : Text) (vs ws : List Text)
    → Reads s o vs
    → Reads t p ws
    → Reads (s ++ t) (o ++ p) (vs ++ ws)
Reads-append s t o p vs ws h k = record {
  outlined = λ rest.
      ap outline (append_assoc s t rest)
      ∙ h.outlined (t ++ rest)
      ∙ ap (λ (x : Text). o ++ x) (k.outlined rest)
      ∙ sym (append_assoc o p (outline rest));
  valued = λ rest.
      ap values (append_assoc s t rest)
      ∙ h.valued (t ++ rest)
      ∙ ap (λ (x : List Text). vs ++ x) (k.valued rest)
      ∙ sym (append_assoc vs ws (values rest));
}

-- A whole filter.
pub outline-Reads : (s o : Text) (vs : List Text) → Reads s o vs → outline s ≡ o
unfolding outline_from
outline-Reads s o vs h = ap outline (sym (append-nil s)) ∙ h.outlined [] ∙ append-nil o

pub values-Reads : (s o : Text) (vs : List Text) → Reads s o vs → values s ≡ vs
unfolding values_from
values-Reads s o vs h = ap values (sym (append-nil s)) ∙ h.valued [] ∙ append-nil vs
