-- ===== src/Commands/Laws.antt =====
-- What an invocation of cmd/reindex that succeeds has rebuilt.
use kinetix_search_service.Common.{
  ◌≡◌, refl, ap, subst, ◌⊎◌, inl, inr, List, [], ◌∷◌, Text, lit, text_eq, eq_of_text_eq, Bool-cases,
  ok, err, arith,
}
use kinetix_search_service.Search.Errors.{Result}
use kinetix_search_service.Search.Call.Rules.{>>=-inv}
use kinetix_search_service.Search.Document.{
  Collection, products, merchants, orders, collection_name,
}
use kinetix_search_service.Commands.{Reindexers, wanted, rebuild, rebuild_all, rebuild_wanted, run}

-- The collections that an argument names: one by its own name, or all three.
abbrev pub Names : Text → List Collection → Type 0
Names arg cs =
    ((arg ≡ lit "all") × (cs ≡ products ∷ merchants ∷ orders ∷ []))
    ⊎ ((c : Collection) × (arg ≡ collection_name c) × (cs ≡ c ∷ []))

wanted-Names : (arg : Text) {cs : List Collection} → wanted arg ≡ ok cs → Names arg cs
unfolding wanted
wanted-Names arg h = elim (Bool-cases (text_eq arg (collection_name products))) [
  | inl p ↦ inr (products, eq_of_text_eq arg _ p, ground (arith, p, h))
  | inr p ↦ elim (Bool-cases (text_eq arg (collection_name merchants))) [
    | inl m ↦ inr (merchants, eq_of_text_eq arg _ m, ground (arith, p, m, h))
    | inr m ↦ elim (Bool-cases (text_eq arg (collection_name orders))) [
      | inl o ↦ inr (orders, eq_of_text_eq arg _ o, ground (arith, p, m, o, h))
      | inr o ↦ elim (Bool-cases (text_eq arg (lit "all"))) [
        | inl a ↦ inl (eq_of_text_eq arg _ a, ground (arith, p, m, o, a, h))
        | inr a ↦ absurd (ground (arith, p, m, o, a, h))
      ]
    ]
  ]
]

module _ {W : Type 0} (r : Reindexers W) where
  -- Rebuilds that succeeded, one after the other.
  pub data Ran : List Collection → W → W → Type 0 where
    none_left : {w : W} → Ran [] w w
    then_ran :
        {c : Collection} {cs : List Collection} {w w₁ w' : W}
        → rebuild r c w ≡ (ok tt, w₁)
        → Ran cs w₁ w'
        → Ran (c ∷ cs) w w'

  rebuild_all-Ran :
      (cs : List Collection) (w : W) {w' : W} → rebuild_all r cs w ≡ (ok tt, w') → Ran cs w w'
  unfolding rebuild_all
  rebuild_all-Ran [] w h = subst (Ran [] w) (ap (λ p. p.1) h) none_left
  rebuild_all-Ran (c ∷ cs) w h =
      let (_, w₁, first, rest) = >>=-inv (rebuild r c) _ w h in
      then_ran first (rebuild_all-Ran cs w₁ rest)

  rebuild_wanted-Ran :
      (arg : Text) (m : Result (List Collection)) (w : W) {w' : W}
      → wanted arg ≡ m
      → rebuild_wanted r m w ≡ (ok tt, w')
      → (cs : List Collection) × Names arg cs × Ran cs w w'
  rebuild_wanted-Ran arg (ok cs) w named h = (cs, wanted-Names arg named, rebuild_all-Ran cs w h)
  rebuild_wanted-Ran arg (err e) w named h = absurd (ground (arith, ap (λ p. p.0) h))

  -- An invocation that succeeds had one argument, and has rebuilt, successfully and in order, the
  -- collection of that name, or all three for `all`.
  pub run-Ran :
      (args : List Text) (w : W) {w' : W}
      → run r args w ≡ (ok tt, w')
      → (arg : Text) × (cs : List Collection) × (args ≡ arg ∷ []) × Names arg cs × Ran cs w w'
  unfolding run
  run-Ran [] w h = absurd (ground (arith, ap (λ p. p.0) h))
  run-Ran (arg ∷ b ∷ args) w h = absurd (ground (arith, ap (λ p. p.0) h))
  run-Ran (arg ∷ []) w h =
      let (cs, names, ran) = rebuild_wanted-Ran arg (wanted arg) w refl h in
      (arg, cs, refl, names, ran)
