-- ===== src/Typesense/Index.antt =====
-- internal/typesense/index.go: generations of a collection in the engine, and the alias that
-- queries go by.
pub mod Laws
use kinetix_search_service.Common.{
  ℕ, ℤ, suc, pos, ◌+◌, Bool, true, false, Option, none, some, List, [], ◌∷◌, map, length, Text, lit,
  is_empty, if◌then◌else◌, ok, err,
}
use kinetix_search_service.Search.Errors.{Result, GoError, errf, index_unavailable, str, num}
use kinetix_search_service.Search.Call.{Call, pure, raise, continue, ◌>>=◌, ◌>>◌}
use kinetix_search_service.Search.Document.{Collection, Generation, collection_name}
use kinetix_search_service.Search.Service.{Index}
use kinetix_search_service.Typesense.Documents.{Document}
use kinetix_search_service.Typesense.Schema.{CollectionSchema, schema_for}
use kinetix_search_service.Typesense.Engine.{Engine, ImportResult, fail, not_found, handling}

-- `api.IndexAction("upsert")`
abbrev pub upsert_action : Text
upsert_action = lit "upsert"

abbrev pub refused_at : ℕ → ℕ → Generation → Text → GoError
refused_at n count gen why =
    errf index_unavailable (lit "typesense.Bulk") none
      (lit "document %d of %d was refused by %s: %s")
      (num (pos n) ∷ num (pos count) ∷ str gen ∷ str why ∷ [])

-- The loop over the results of an import; `n` is the position of the first, from 1.
unfoldable pub first_refusal : ℕ → ℕ → Generation → List (Option ImportResult) → Result (Unit {0})
first_refusal n count gen [] = ok tt
first_refusal n count gen (none ∷ rs) = first_refusal (suc n) count gen rs
first_refusal n count gen (some r ∷ rs) =
    let rest = first_refusal (suc n) count gen rs in
    if r.success then rest else err (refused_at n count gen r.error_text)

abbrev pub no_count : Generation → GoError
no_count gen =
    errf index_unavailable (lit "typesense.CountIn") none (lit "%s reported no document count")
      (str gen ∷ [])

abbrev pub no_schema : Collection → GoError
no_schema c =
    errf index_unavailable (lit "typesense.CreateGeneration") none
      (lit "no schema is defined for collection %q") (str (collection_name c) ∷ [])

module _ {W F D : Type 0} (engine : Engine W F) (c : Collection) (encode : D → Document F) where
  abbrev pub created : Generation → Option CollectionSchema → Call W (Unit {0})
  created gen none = raise (no_schema c)
  created gen (some schema) =
      handling (λ e. fail (lit "typesense.CreateGeneration") e (lit "creating %s") (str gen ∷ []))
        (engine.create schema)

  unfoldable pub create_generation : Generation → Call W (Unit {0})
  create_generation gen = created gen (schema_for c gen)

  abbrev pub import_error : Generation → List D → GoError → GoError
  import_error gen docs e =
      fail (lit "typesense.Bulk") e (lit "importing %d documents into %s")
        (num (pos (length docs)) ∷ str gen ∷ [])

  unfoldable pub bulk : Generation → List D → Call W (Unit {0})
  bulk gen [] = pure tt
  bulk gen (d ∷ docs) = do
    results ←
        handling (import_error gen (d ∷ docs))
          (engine.import_into gen upsert_action (map encode (d ∷ docs)))
    (λ w. (first_refusal 1 (length (d ∷ docs)) gen results, w))

  abbrev delete_error : Generation → Text → GoError → GoError
  delete_error gen id e =
      fail (lit "typesense.Remove") e (lit "deleting %q from %s") (str id ∷ str gen ∷ [])

  -- The end of a round of `Remove`: a document that is not there is as good as deleted.
  abbrev pub deleted : Call W (Unit {0}) → Generation → Text → Result (Unit {0}) → Call W (Unit {0})
  deleted rest gen id (ok _) = rest
  deleted rest gen id (err e) = if not_found e then rest else raise (delete_error gen id e)

  unfoldable pub remove : Generation → List Text → Call W (Unit {0})
  remove gen [] = pure tt
  remove gen (id ∷ ids) =
      λ w. let (r, w') = engine.delete gen id w in deleted (remove gen ids) gen id r w'

  abbrev count_of : Generation → Option ℤ → Call W ℤ
  count_of gen none = raise (no_count gen)
  count_of gen (some n) = pure n

  unfoldable pub count_in : Generation → Call W ℤ
  count_in gen = do
    got ←
        handling (λ e. fail (lit "typesense.CountIn") e (lit "reading %s") (str gen ∷ []))
          (engine.count_documents gen)
    count_of gen got

  unfoldable pub promote : Generation → Call W (Unit {0})
  promote gen =
      handling
        (λ e.
          fail (lit "typesense.Promote") e (lit "pointing alias %s at %s")
            (str (collection_name c) ∷ str gen ∷ []))
        (engine.upsert_alias (collection_name c) gen)

  abbrev pub live_of : Result Text → Result Generation
  live_of (ok target) = ok target
  live_of (err e) =
      if not_found e
      then ok []
      else err
          (fail (lit "typesense.Live") e (lit "reading alias %s") (str (collection_name c) ∷ []))

  unfoldable pub live : Call W Generation
  live w = let (r, w') = engine.alias_target (collection_name c) w in (live_of r, w')

  abbrev pub index : Index W D
  index = record {
    create_generation = create_generation;
    bulk = bulk;
    remove = remove;
    count_in = count_in;
    promote = promote;
    live = live;
  }
