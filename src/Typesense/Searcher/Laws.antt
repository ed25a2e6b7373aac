-- ===== src/Typesense/Searcher/Laws.antt =====
-- What `Suggest` of internal/typesense/searcher.go makes of the engine's hits.
use kinetix_search_service.Common.{
  Bool, true, false, not, ◌&&◌, ◌||◌, ◌≡◌, refl, ap, List, [], ◌∷◌, ◌++◌, any, any-append, Text,
  is_empty, text_eq, text_eq_sym, eq_of_text_eq, if◌then◌else◌, Floats, arith, Bool-cases, inl, inr,
  ||_neither,
}
use kinetix_search_service.Typesense.Engine.{ResultHit}
use kinetix_search_service.Typesense.Searcher.{is_new, suggested, suggestions_onto}

abbrev pub contains : List Text → Text → Bool
contains ts v = any (text_eq v) ts

-- No two are equal, and none is empty.
abbrev pub Distinct : List Text → Type 0
Distinct [] = Unit
Distinct (t ∷ ts) = (is_empty t ≡ false) × (contains ts t ≡ false) × Distinct ts

Distinct-snoc :
    (ts : List Text) (v : Text)
    → is_empty v ≡ false
    → contains ts v ≡ false
    → Distinct ts
    → Distinct (ts ++ v ∷ [])
Distinct-snoc [] v filled other h = (filled, refl, tt)
Distinct-snoc (t ∷ ts) v filled other (t_filled, t_new, h) =
    let (differs, elsewhere) = ||_neither (text_eq v t) (contains ts v) other in
    (
      t_filled,
      ground (arith, any-append (text_eq t) ts (v ∷ []), text_eq_sym t v),
      Distinct-snoc ts v filled elsewhere h,
    )

is_new-inv :
    (out : List Text) (v : Text)
    → is_new out v ≡ true
    → (is_empty v ≡ false) × (contains out v ≡ false)
is_new-inv out [] h = ground arith
is_new-inv out (c ∷ v) h = ground arith

contained_already :
    (out : List Text) (v u : Text)
    → contains out u ≡ true
    → (contains out v || text_eq v u) ≡ contains out v
contained_already out v u old = elim (Bool-cases (text_eq v u)) [
  | inl same ↦ ground (arith, ap (contains out) (eq_of_text_eq v u same))
  | inr differs ↦ ground arith
]

-- What one round adds to what is contained.
contains_round :
    (out : List Text) (v u : Text)
    → contains (if is_new out u then out ++ u ∷ [] else out) v
      ≡ (contains out v || (not (is_empty v) && text_eq v u))
contains_round out [] [] = ground arith
contains_round out (d ∷ v) [] = ground arith
contains_round out [] (c ∷ u) =
    ground (arith, any-append (text_eq []) out ((c ∷ u) ∷ []), contained_already out [] (c ∷ u))
contains_round out (d ∷ v) (c ∷ u) =
    ground (
      arith,
      any-append (text_eq (d ∷ v)) out ((c ∷ u) ∷ []),
      contained_already out (d ∷ v) (c ∷ u),
    )

module _ {F : Type 0} (fl : Floats F) (field : Text) where
  suggestions-Distinct :
      (out : List Text) (hits : List (ResultHit F))
      → Distinct out
      → Distinct (suggestions_onto fl field out hits)
  unfolding suggestions_onto
  suggestions-Distinct out [] d = d
  suggestions-Distinct out (h ∷ hs) d =
      elim (Bool-cases (is_new out (suggested fl field h.document))) [
        | inl new ↦
            let (filled, other) = is_new-inv out (suggested fl field h.document) new in
            rw new (
              suggestions-Distinct (out ++ suggested fl field h.document ∷ []) hs
                (Distinct-snoc out (suggested fl field h.document) filled other d))
        | inr old ↦ rw old (suggestions-Distinct out hs d)
      ]

  suggestions-contains :
      (out : List Text) (hits : List (ResultHit F)) (v : Text)
      → contains (suggestions_onto fl field out hits) v ≡ (
          contains out v
          || (not (is_empty v) && any (λ h. text_eq v (suggested fl field h.document)) hits))
  unfolding suggestions_onto
  suggestions-contains out [] v = ground arith
  suggestions-contains out (h ∷ hs) v =
      let u = suggested fl field h.document in
      ground (
        arith,
        suggestions-contains (if is_new out u then out ++ u ∷ [] else out) hs v,
        contains_round out v u,
      )

  -- The suggestions are distinct and none is empty, and a text is among them exactly when it is not
  -- empty and some hit's document has it in the field.
  pub suggestions_exact :
      (hits : List (ResultHit F))
      → Distinct (suggestions_onto fl field [] hits)
        × ((v : Text)
            → contains (suggestions_onto fl field [] hits) v
              ≡ (not (is_empty v) && any (λ h. text_eq v (suggested fl field h.document)) hits))
  suggestions_exact hits = (suggestions-Distinct [] hits tt, suggestions-contains [] hits)
