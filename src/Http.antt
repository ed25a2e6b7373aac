-- ===== src/Http.antt =====
-- internal/httpapi: the HTTP side of the service. A response is its status and its body, before
-- encoding/json prints it; the query of a URL is the values under each name. The routes of chi and
-- the header of the response are not modelled.
pub mod Laws
use kinetix_search_service.Common.{
  ℕ, ℤ, pos, Bool, true, false, Option, none, some, List, [], ◌∷◌, map, Text, lit, is_empty, ok,
  err, if◌then◌else◌, Floats, ◌>>=◌,
}
use kinetix_search_service.Common.Strings.Numbers.{atoi}
use kinetix_search_service.Search.Errors.{
  Result, GoError, Kind, errf, kind_of, kind_string, str, malformed_query, not_found, stale,
  index_unavailable, dependency_unavailable, corrupt_record, unknown,
}
use kinetix_search_service.Search.Time.{is_zero_time, unix_milli}
use kinetix_search_service.Search.Document.{ProductDoc, Hit, FacetValue, Freshness, Results}
use kinetix_search_service.Search.Query.{
  Query, QueryOption, ranking_profile, with_categories, with_ranking, with_page, new_query,
  SuggestQuery, new_suggest_query,
}
use kinetix_search_service.Querying.{Finder, find, suggest}

pub record ProductHit (F : Type 0) : Type 0 where
  pub id : Text
  pub merchant_id : Text
  pub title : Text
  pub description : Text
  pub categories : List Text
  pub price_minor : ℤ
  pub currency : Text
  pub updated_at_ms : ℤ
  pub score : F

pub record IndexInfo : Type 0 where
  pub indexed_through_ms : Option ℤ
  pub age_seconds : Option ℤ
  pub stale : Bool

pub record SearchResponse (F : Type 0) : Type 0 where
  pub total : ℤ
  pub hits : List (ProductHit F)
  pub facets : List (Text × List FacetValue)
  pub index : IndexInfo

pub data Body (F : Type 0) : Type 0 where
  search_body : SearchResponse F → Body F
  suggest_body : List Text → Body F
  error_body : Text → Body F
  status_body : Text → Body F

pub record Response (F : Type 0) : Type 0 where
  pub status : ℕ
  pub body : Body F

unfoldable pub status_for : Kind → ℕ
status_for malformed_query = 400
status_for not_found = 404
status_for stale = 200
status_for index_unavailable = 503
status_for dependency_unavailable = 503
status_for corrupt_record = 500
status_for unknown = 500

-- `url.Values`, and its `Get`.
abbrev pub Params : Type 0
Params = Text → List Text

abbrev pub first : List Text → Text
first [] = []
first (v ∷ vs) = v

abbrev pub get : Params → Text → Text
get params name = first (params name)

abbrev pub whole : Text → Text → Option ℤ → Result ℤ
whole name raw (some n) = ok n
whole name raw none = err (
    errf malformed_query (lit "httpapi.count") none (lit "%s %q is not a whole number")
      (str name ∷ str raw ∷ []))

unfoldable pub count : Params → Text → Result ℤ
count params name =
    let raw = get params name in if is_empty raw then ok (pos 0) else whole name raw (atoi raw)

abbrev pub options_of : Params → ℤ → ℤ → List QueryOption
options_of params offset limit =
    with_page offset limit
    ∷ with_ranking (ranking_profile (get params (lit "sort")))
    ∷ with_categories (params (lit "category"))
    ∷ []

-- The part of `searchProducts` up to the query.
unfoldable pub to_query : Params → Result Query
unfolding count
to_query params = do
  offset ← count params (lit "offset")
  limit ← count params (lit "limit")
  new_query (get params (lit "q")) (options_of params offset limit)

unfoldable pub to_suggest_query : Params → Result SuggestQuery
unfolding count
to_suggest_query params = do
  limit ← count params (lit "limit")
  new_suggest_query (get params (lit "q")) limit

module _ {F : Type 0} (floats : Floats F) where
  abbrev pub to_hit : Hit F ProductDoc → ProductHit F
  to_hit h = record {
    id = h.doc.id.v;
    merchant_id = h.doc.merchant_id.v;
    title = h.doc.title;
    description = h.doc.description;
    categories = h.doc.categories;
    price_minor = h.doc.price_minor;
    currency = h.doc.currency;
    updated_at_ms = unix_milli h.doc.updated_at;
    score = h.score;
  }

  unfoldable pub to_index_info : Freshness → IndexInfo
  to_index_info f = record {
    indexed_through_ms =
        if is_zero_time f.indexed_through then none else some (unix_milli f.indexed_through);
    age_seconds = if f.synced then some (floats.to_int64 (floats.seconds f.age)) else none;
    stale = f.stale;
  }

  unfoldable pub to_search_response : Results F ProductDoc → SearchResponse F
  unfolding to_index_info
  to_search_response results = record {
    total = results.total;
    hits = map to_hit results.hits;
    facets = results.facets;
    index = to_index_info results.freshness;
  }

  -- `writeFailure`
  unfoldable pub write_failure : GoError → Response F
  write_failure e = record {
    status = status_for (kind_of e);
    body = error_body (kind_string (kind_of e));
  }

  module _ {W : Type 0} (products : Finder F W ProductDoc) where
    abbrev pub found_response : Result (Results F ProductDoc) → Response F
    found_response (err e) = write_failure e
    found_response (ok results) = record {
      status = 200;
      body = search_body (to_search_response results);
    }

    abbrev pub search_for : Result Query → W → Response F × W
    search_for (err e) w = (write_failure e, w)
    search_for (ok q) w = let (r, w') = find products q w in (found_response r, w')

    unfoldable pub search_products : Params → W → Response F × W
    search_products params w = search_for (to_query params) w

    abbrev pub suggest_response : Result (List Text) → Response F
    suggest_response (err e) = write_failure e
    suggest_response (ok suggestions) = record { status = 200; body = suggest_body suggestions }

    abbrev pub suggest_for : Result SuggestQuery → W → Response F × W
    suggest_for (err e) w = (write_failure e, w)
    suggest_for (ok q) w = let (r, w') = suggest products q w in (suggest_response r, w')

    unfoldable pub suggest_products : Params → W → Response F × W
    suggest_products params w = suggest_for (to_suggest_query params) w

  unfoldable pub live : Response F
  live = record { status = 200; body = status_body (lit "live") }

  -- `readiness`, on the error of the check, if there is one.
  unfoldable pub readiness : Option GoError → Response F
  readiness none = record { status = 200; body = status_body (lit "ready") }
  readiness (some e) = record { status = 503; body = error_body (kind_string (kind_of e)) }
