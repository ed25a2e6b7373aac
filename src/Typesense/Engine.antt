-- ===== src/Typesense/Engine.antt =====
-- The engine's client, which is not of this repository: the calls that internal/typesense makes of
-- it, as parameters, and the values that pass, an unset pointer as `none`. With it errors.go, which
-- tells the client's errors apart.
use kinetix_search_service.Common.{
  ℕ, ℤ, ◌==◌, ◌||◌, Bool, false, Option, none, some, List, Text, if◌then◌else◌,
}
use kinetix_search_service.Search.Errors.{
  GoError, Arg, errf, http_status, index_unavailable, malformed_query,
}
use kinetix_search_service.Search.Call.{Call}
pub use kinetix_search_service.Search.Call.{settled, handling}
use kinetix_search_service.Typesense.Documents.{Document}
use kinetix_search_service.Typesense.Schema.{CollectionSchema}

pub record SearchParams : Type 0 where
  pub q : Text
  pub query_by : Text
  pub query_by_weights : Option Text
  pub sort_by : Option Text
  pub offset : Option ℤ
  pub limit : Option ℤ
  pub prioritize_exact_match : Option Bool
  pub filter_by : Option Text
  pub facet_by : Option Text
  pub include_fields : Option Text

pub record ResultHit (F : Type 0) : Type 0 where
  pub document : Option (Document F)
  pub text_match : Option ℤ

pub record FacetCount : Type 0 where
  pub value : Option Text
  pub count : Option ℤ

pub record FacetCounts : Type 0 where
  pub field_name : Option Text
  pub counts : Option (List FacetCount)

pub record SearchResult (F : Type 0) : Type 0 where
  pub found : Option ℤ
  pub hits : Option (List (ResultHit F))
  pub facet_counts : Option (List FacetCounts)

pub record ImportResult : Type 0 where
  pub success : Bool
  pub error_text : Text

pub record Engine (W F : Type 0) : Type 0 where
  pub search_in : Text → SearchParams → Call W (SearchResult F)
  pub create : CollectionSchema → Call W (Unit {0})
  pub import_into : Text → Text → List (Document F) → Call W (List (Option ImportResult))
  pub delete : Text → Text → Call W (Unit {0})
  pub count_documents : Text → Call W (Option ℤ)
  pub upsert_alias : Text → Text → Call W (Unit {0})
  pub alias_target : Text → Call W Text

abbrev is_status : ℕ → Option ℕ → Bool
is_status n none = false
is_status n (some status) = status == n

-- `notFound`, `refused`
unfoldable pub not_found : GoError → Bool
not_found e = is_status 404 (http_status e)

unfoldable pub refused : GoError → Bool
refused e = is_status 400 (http_status e) || is_status 422 (http_status e)

-- `fail`, `failQuery`
unfoldable pub fail : Text → GoError → Text → List Arg → GoError
fail op e format args = errf index_unavailable op (some e) format args

unfoldable pub fail_query : Text → GoError → Text → List Arg → GoError
unfolding fail
fail_query op e format args =
    if refused e then errf malformed_query op (some e) format args else fail op e format args
