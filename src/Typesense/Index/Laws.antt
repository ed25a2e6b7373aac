-- ===== src/Typesense/Index/Laws.antt =====
-- What success of internal/typesense/index.go means for the engine.
use kinetix_search_service.Common.{
  ℕ, suc, true, ◌≡◌, refl, ap, ◌∙◌, ◌⊎◌, inl, inr, Option, none, some, List, [], ◌∷◌, map, length,
  Text, lit, ok, err, arith, Bool-cases, All, subst,
}
use kinetix_search_service.Search.Errors.{Result}
use kinetix_search_service.Search.Call.{Call}
use kinetix_search_service.Search.Call.Rules.{>>=-inv, handling-inv}
use kinetix_search_service.Search.Document.{Collection, Generation}
use kinetix_search_service.Typesense.Documents.{Document}
use kinetix_search_service.Typesense.Engine.{Engine, ImportResult, not_found, handling}
use kinetix_search_service.Typesense.Index.{first_refusal, bulk, import_error, remove, deleted}

-- A result that is no refusal.
abbrev pub IsAccepted : Option ImportResult → Type 0
IsAccepted none = Unit
IsAccepted (some r) = r.success ≡ true

all-IsAccepted :
    (n count : ℕ) (gen : Generation) (rs : List (Option ImportResult))
    → first_refusal n count gen rs ≡ ok tt
    → All IsAccepted rs
unfolding first_refusal
all-IsAccepted n count gen [] h = tt
all-IsAccepted n count gen (none ∷ rs) h = (tt, all-IsAccepted (suc n) count gen rs h)
all-IsAccepted n count gen (some r ∷ rs) h = elim (Bool-cases r.success) [
  | inl good ↦ (good, all-IsAccepted (suc n) count gen rs (rw (good, first_refusal) at h))
  | inr bad ↦ absurd (ground arith)
]

-- A deletion that leaves no document behind.
abbrev pub IsGone : Result (Unit {0}) → Type 0
IsGone (ok _) = Unit
IsGone (err e) = not_found e ≡ true

module _ {W F D : Type 0} (engine : Engine W F) (c : Collection) (encode : D → Document F) where
  -- What a successful bulk has done.
  pub record IsImported (gen : Generation) (docs : List D) (w w' : W) : Type 0 where
    pub results : List (Option ImportResult)
    pub imported : engine.import_into gen (lit "upsert") (map encode docs) w ≡ (ok results, w')
    pub accepted : All IsAccepted results

  -- A bulk that succeeds either had no document and made no call, or has imported every document,
  -- each as it is encoded, in one call with the action "upsert", and the engine refused none.
  pub bulk-IsImported :
      (gen : Generation) (docs : List D) (w : W) {w' : W}
      → bulk engine c encode gen docs w ≡ (ok tt, w')
      → ((docs ≡ []) × (w ≡ w')) ⊎ IsImported gen docs w w'
  unfolding bulk
  bulk-IsImported gen [] w h = inl (refl, ap (λ p. p.1) h)
  bulk-IsImported gen (d ∷ docs) w {w' = w'} h =
      let (results, w₁, got, last) =
        >>=-inv
          (handling (import_error engine c encode gen (d ∷ docs))
            (engine.import_into gen (lit "upsert") (map encode (d ∷ docs))))
          _ w h in
      let kept : w₁ ≡ w' = ap (λ p. p.1) last in
      inr (record {
        results = results;
        imported =
            handling-inv (import_error engine c encode gen (d ∷ docs))
              (engine.import_into gen (lit "upsert") (map encode (d ∷ docs))) w got
            ∙ (λ i. (ok results, kept i));
        accepted = all-IsAccepted 1 (length (d ∷ docs)) gen results (ap (λ p. p.0) last);
      })

  -- What a successful removal has done: one deletion for each identifier, in their order, each
  -- answered with success or with the report that the document is not there.
  pub data Removed (gen : Generation) : List Text → W → W → Type 0 where
    all_gone : {w : W} → Removed gen [] w w
    gone :
        {id : Text} {ids : List Text} {w w₁ w' : W} (r : Result (Unit {0}))
        → engine.delete gen id w ≡ (r, w₁)
        → IsGone r
        → Removed gen ids w₁ w'
        → Removed gen (id ∷ ids) w w'

  deleted-inv :
      (rest : Call W (Unit {0})) (gen : Generation) (id : Text) (r : Result (Unit {0})) (w : W)
      {w' : W}
      → deleted engine c encode rest gen id r w ≡ (ok tt, w')
      → IsGone r × (rest w ≡ (ok tt, w'))
  deleted-inv rest gen id (ok _) w h = (tt, h)
  deleted-inv rest gen id (err e) w h = elim (Bool-cases (not_found e)) [
    | inl absent ↦ (absent, rw (absent) at h)
    | inr other ↦ absurd (ground arith)
  ]

  -- A removal that succeeds has asked the engine to delete every identifier, and each is gone.
  pub remove-Removed :
      (gen : Generation) (ids : List Text) (w : W) {w' : W}
      → remove engine c encode gen ids w ≡ (ok tt, w')
      → Removed gen ids w w'
  unfolding remove
  remove-Removed gen [] w {w'} h = subst (Removed gen [] w) (ap (λ p. p.1) h) all_gone
  remove-Removed gen (id ∷ ids) w h =
      let (r, w₁) = engine.delete gen id w in
      let (gone_r, rest) = deleted-inv (remove engine c encode gen ids) gen id r w₁ h in
      gone r refl gone_r (remove-Removed gen ids w₁ rest)
