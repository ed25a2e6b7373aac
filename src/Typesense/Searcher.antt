-- ===== src/Typesense/Searcher.antt =====
-- internal/typesense/searcher.go: queries put to the engine, and its answers.
pub mod Laws
pub mod Private
use kinetix_search_service.Common.{
  ℤ, pos, Bool, true, false, Option, none, some, List, [], ◌∷◌, ◌++◌, any, Text, lit, is_empty,
  text_eq, if◌then◌else◌, ok, err, Floats,
}
use kinetix_search_service.Search.Errors.{Result, GoError, str}
use kinetix_search_service.Search.Time.{zero_time}
use kinetix_search_service.Search.Call.{Call, pure, raise, continue, ◌>>=◌}
use kinetix_search_service.Search.Document.{
  Collection, products, merchants, orders, unnamed, collection_name, Hit, FacetValue, Freshness,
  Results,
}
use kinetix_search_service.Search.Query.{Query, SuggestQuery}
use kinetix_search_service.Search.Service.{Searcher}
use kinetix_search_service.Typesense.Documents.{Document, text}
use kinetix_search_service.Typesense.Schema.{query_fields_for, facet_fields_for}
use kinetix_search_service.Typesense.Query.{filter_for, sort_for}
use kinetix_search_service.Typesense.Engine.{
  Engine, SearchParams, SearchResult, ResultHit, FacetCounts, FacetCount, fail_query, handling,
}

abbrev no_freshness : Freshness
no_freshness = record {
  synced = false;
  indexed_through = zero_time;
  age = zero_time;
  stale = false;
}

-- `if s != ""` before a pointer is set.
abbrev pub unless_empty : Text → Option Text
unless_empty [] = none
unless_empty (c ∷ s) = some (c ∷ s)

abbrev everything_for : Text → Text
everything_for [] = lit "*"
everything_for (c ∷ s) = c ∷ s

unfoldable pub search_params : Collection → Query → Text → SearchParams
search_params c q filter = record {
  q = everything_for q.text;
  query_by = (query_fields_for c).0;
  query_by_weights = some (query_fields_for c).1;
  sort_by = some (sort_for c q.ranking);
  offset = some q.page.offset;
  limit = some q.page.limit;
  prioritize_exact_match = some true;
  filter_by = unless_empty filter;
  facet_by = unless_empty (facet_fields_for c);
  include_fields = none;
}

unfoldable pub suggest_field_for : Collection → Text
suggest_field_for merchants = lit "display_name"
suggest_field_for orders = lit "number"
suggest_field_for products = lit "title"
suggest_field_for (unnamed s) = lit "title"

unfoldable pub suggest_params : Collection → SuggestQuery → SearchParams
unfolding suggest_field_for
suggest_params c q = record {
  q = q.prefix;
  query_by = (query_fields_for c).0;
  query_by_weights = none;
  sort_by = none;
  offset = some (pos 0);
  limit = some q.limit;
  prioritize_exact_match = none;
  filter_by = none;
  facet_by = none;
  include_fields = some (suggest_field_for c);
}

abbrev counted : Option Text → Option ℤ → List FacetValue → List FacetValue
counted (some v) (some n) rest = record { value = v; count = n } ∷ rest
counted _ _ rest = rest

-- The inner loop over the counts of a facet.
unfoldable pub facet_values : List FacetCount → List FacetValue
facet_values [] = []
facet_values (c ∷ cs) = counted c.value c.count (facet_values cs)

-- `m[key] = v`
abbrev pub put_facet :
    Text → List FacetValue → List (Text × List FacetValue) → List (Text × List FacetValue)
put_facet k v [] = (k, v) ∷ []
put_facet k v ((j, w) ∷ m) = if text_eq j k then (k, v) ∷ m else (j, w) ∷ put_facet k v m

abbrev add_facet :
    Option Text
    → Option (List FacetCount)
    → List (Text × List FacetValue)
    → List (Text × List FacetValue)
add_facet (some name) (some cs) m = put_facet name (facet_values cs) m
add_facet _ _ m = m

-- The loop over the facets, onto the entries that are there.
unfoldable pub facets_onto :
    List (Text × List FacetValue) → List FacetCounts → List (Text × List FacetValue)
facets_onto m [] = m
facets_onto m (f ∷ fs) = facets_onto (add_facet f.field_name f.counts m) fs

abbrev or_nothing : {A : Type 0} → Option (List A) → List A
or_nothing none = []
or_nothing (some xs) = xs

abbrev or_zero_count : Option ℤ → ℤ
or_zero_count none = pos 0
or_zero_count (some n) = n

-- One round of the loop of `Suggest`: what it appends to the values seen so far.
abbrev pub is_new : List Text → Text → Bool
is_new seen [] = false
is_new seen (c ∷ s) = if any (text_eq (c ∷ s)) seen then false else true

module _ {F : Type 0} (fl : Floats F) where
  abbrev score_of : Option ℤ → F
  score_of none = fl.zero_float
  score_of (some n) = fl.of_int64 n

  abbrev add_hit : {D : Type 0} → Option ℤ → D → Result (List (Hit F D)) → Result (List (Hit F D))
  add_hit n doc (ok rest) = ok (record { score = score_of n; doc = doc } ∷ rest)
  add_hit n doc (err e) = err e

  abbrev hit_onto :
      {D : Type 0}
      → (Document F → Result D)
      → Option (Document F)
      → Option ℤ
      → Result (List (Hit F D))
      → Result (List (Hit F D))
  hit_onto decode none n rest = rest
  hit_onto decode (some m) n rest = elim (decode m) [ ok doc ↦ add_hit n doc rest | err e ↦ err e ]

  -- The loop over the hits. A hit with no document is passed over, and the first that does not
  -- decode fails the search.
  unfoldable pub hits_from :
      {D : Type 0} → (Document F → Result D) → List (ResultHit F) → Result (List (Hit F D))
  hits_from decode [] = ok []
  hits_from decode (h ∷ hs) = hit_onto decode h.document h.text_match (hits_from decode hs)

  abbrev with_hits : {D : Type 0} → SearchResult F → Result (List (Hit F D)) → Result (Results F D)
  with_hits res (err e) = err e
  with_hits res (ok hits) = ok (record {
    hits = hits;
    total = or_zero_count res.found;
    facets = facets_onto [] (or_nothing res.facet_counts);
    freshness = no_freshness;
  })

  unfoldable pub to_results :
      {D : Type 0} → (Document F → Result D) → SearchResult F → Result (Results F D)
  to_results decode res = with_hits res (hits_from decode (or_nothing res.hits))

  abbrev pub suggested : Text → Option (Document F) → Text
  suggested field none = []
  suggested field (some m) = text fl m field

  -- The loop of `Suggest`; what was seen is what was put out.
  unfoldable pub suggestions_onto : Text → List Text → List (ResultHit F) → List Text
  suggestions_onto field out [] = out
  suggestions_onto field out (h ∷ hs) =
      let value = suggested field h.document in
      suggestions_onto field (if is_new out value then out ++ value ∷ [] else out) hs

  module _ {W D : Type 0} (engine : Engine W F) (c : Collection)
      (decode : Document F → Result D) where
    abbrev lift : {A : Type 0} → Result A → Call W A
    lift r w = (r, w)

    unfoldable pub search_docs : Query → Call W (Results F D)
    search_docs q = do
      filter ← lift (filter_for c q)
      res ←
          handling
            (λ e.
              fail_query (lit "typesense.Search") e (lit "searching %s")
                (str (collection_name c) ∷ []))
            (engine.search_in (collection_name c) (search_params c q filter))
      lift (to_results decode res)

    unfoldable pub suggest : SuggestQuery → Call W (List Text)
    suggest q = do
      res ←
          handling
            (λ e.
              fail_query (lit "typesense.Suggest") e (lit "suggesting in %s")
                (str (collection_name c) ∷ []))
            (engine.search_in (collection_name c) (suggest_params c q))
      pure (suggestions_onto (suggest_field_for c) [] (or_nothing res.hits))

    abbrev pub searcher : Searcher F W D
    searcher = record { search_docs = search_docs; suggest = suggest }
