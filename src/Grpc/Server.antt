-- ===== src/Grpc/Server.antt =====
-- internal/grpcapi/server.go and money.go: the gRPC methods. A handler returns the pair of a
-- message, which may be nil (`none`), and an error. The protobuf messages are records.
pub mod Requests
pub mod Laws
use kinetix_search_service.Common.{
  ℕ, ℤ, pos, ◌==◌, ◌&&◌, eq_ℤ, Bool, true, false, Option, none, some, List, [], ◌∷◌, ◌++◌, map,
  Text, lit, is_empty, ok, err, Res, if◌then◌else◌, decimal, Floats, ◌>>=◌,
}
use kinetix_search_service.Search.Errors.{
  Result, GoError, Kind, kind_of, kind_string, malformed_query, not_found, stale, index_unavailable,
  dependency_unavailable, corrupt_record, unknown,
}
use kinetix_search_service.Search.Time.{Time, is_zero_time}
use kinetix_search_service.Search.Identifier.{MerchantId, new_merchant_id}
use kinetix_search_service.Search.Document.{ProductDoc, Hit, FacetValue, Freshness, Results}
use kinetix_search_service.Search.Query.{
  RankingProfile, by_relevance, by_newest, by_price_asc, ranking_profile, Query, QueryOption,
  with_categories, with_ranking, with_page, with_merchant, new_query, SuggestQuery,
  new_suggest_query,
}
use kinetix_search_service.Querying.{Finder, find, suggest}
use kinetix_search_service.Upstream.{Timestamps}
use kinetix_search_service.Upstream.Catalog.{Money}
use kinetix_search_service.Grpc.{Status}

-- An open enum: its names, or any other number, which protobuf prints.
pub data ProtoRanking : Type 0 where
  unspecified relevance newest price_asc : ProtoRanking
  unnamed_ranking : ℤ → ProtoRanking

-- The offset and the limit are `int32`, which `int` holds.
pub record ProtoPage : Type 0 where
  pub offset : ℤ
  pub limit : ℤ

pub record SearchProductsRequest : Type 0 where
  pub text : Text
  pub categories : List Text
  pub merchant_principal_id : Text
  pub page : Option ProtoPage
  pub ranking : ProtoRanking

pub record ProductHit (F T : Type 0) : Type 0 where
  pub sku : Text
  pub merchant_principal_id : Text
  pub title : Text
  pub description : Text
  pub price : Option Money
  pub categories : List Text
  pub updated_at : Option T
  pub score : F

pub record IndexFreshness (T : Type 0) : Type 0 where
  pub indexed_through : Option T
  pub age_seconds : ℤ
  pub stale : Bool

pub record Facet : Type 0 where
  pub field : Text
  pub values : List FacetValue

pub record SearchProductsResponse (F T : Type 0) : Type 0 where
  pub hits : List (ProductHit F T)
  pub total : ℤ
  pub facets : List Facet
  pub freshness : IndexFreshness T

unfoldable pub ranking_from : ProtoRanking → RankingProfile
ranking_from newest = by_newest
ranking_from price_asc = by_price_asc
ranking_from relevance = by_relevance
ranking_from unspecified = by_relevance
ranking_from (unnamed_ranking n) = ranking_profile (decimal n)

abbrev pub page_option : Option ProtoPage → List QueryOption
page_option none = []
page_option (some page) = with_page page.offset page.limit ∷ []

abbrev pub merchant_given : Result MerchantId → Result (List QueryOption)
merchant_given (err e) = err e
merchant_given (ok merchant) = ok (with_merchant merchant ∷ [])

abbrev pub merchant_option : Text → Result (List QueryOption)
merchant_option raw = if is_empty raw then ok [] else merchant_given (new_merchant_id raw)

abbrev pub base_options : SearchProductsRequest → List QueryOption
base_options request =
    with_categories request.categories
    ∷ with_ranking (ranking_from request.ranking)
    ∷ page_option request.page

unfoldable pub to_query : SearchProductsRequest → Result Query
unfolding ranking_from
to_query request = do
  merchant ← merchant_option request.merchant_principal_id
  new_query request.text (base_options request ++ merchant)

-- `toMoney`
unfoldable pub to_money : ProductDoc → Option Money
to_money doc =
    if is_empty doc.currency && eq_ℤ doc.price_minor (pos 0)
    then none
    else some (record { amount_minor = doc.price_minor; currency = doc.currency })

-- The gRPC codes OK, InvalidArgument, NotFound, Internal and Unavailable.
unfoldable pub code_for : Kind → ℕ
code_for malformed_query = 3
code_for not_found = 5
code_for index_unavailable = 14
code_for dependency_unavailable = 14
code_for stale = 0
code_for corrupt_record = 13
code_for unknown = 13

-- `return nil, toStatus(err)`: `status.Error` makes no error of the code OK.
unfoldable pub to_status : {A : Type 0} → GoError → Res Status (Option A)
unfolding code_for
to_status e =
    if code_for (kind_of e) == 0
    then ok none
    else err (record { code = code_for (kind_of e); format = kind_string (kind_of e); args = [] })

module _ {F T : Type 0} (floats : Floats F) (ts : Timestamps T) where
  abbrev pub sent : Time → Option T
  sent t = if is_zero_time t then none else some (ts.new t)

  unfoldable pub to_hit : Hit F ProductDoc → ProductHit F T
  to_hit h = record {
    sku = h.doc.id.v;
    merchant_principal_id = h.doc.merchant_id.v;
    title = h.doc.title;
    description = h.doc.description;
    price = to_money h.doc;
    categories = h.doc.categories;
    updated_at = sent h.doc.updated_at;
    score = h.score;
  }

  unfoldable pub to_freshness : Freshness → IndexFreshness T
  to_freshness f = record {
    indexed_through = sent f.indexed_through;
    age_seconds = if f.synced then floats.to_int64 (floats.seconds f.age) else pos 0;
    stale = f.stale;
  }

  abbrev pub to_facet : Text × List FacetValue → Facet
  to_facet (field, values) = record { field = field; values = values }

  unfoldable pub to_facets : List (Text × List FacetValue) → List Facet
  to_facets facets = map to_facet facets

  unfoldable pub to_search_response : Results F ProductDoc → SearchProductsResponse F T
  unfolding to_hit to_freshness to_facets
  to_search_response results = record {
    hits = map to_hit results.hits;
    total = results.total;
    facets = to_facets results.facets;
    freshness = to_freshness results.freshness;
  }

  module _ {W : Type 0} (products : Finder F W ProductDoc) where
    abbrev pub found_reply :
        Result (Results F ProductDoc) → Res Status (Option (SearchProductsResponse F T))
    found_reply (err e) = to_status e
    found_reply (ok results) = ok (some (to_search_response results))

    abbrev pub search_for : Result Query → W → Res Status (Option (SearchProductsResponse F T)) × W
    search_for (err e) w = (to_status e, w)
    search_for (ok q) w = let (r, w') = find products q w in (found_reply r, w')

    unfoldable pub search_products :
        SearchProductsRequest → W → Res Status (Option (SearchProductsResponse F T)) × W
    search_products request w = search_for (to_query request) w

    abbrev pub suggest_reply : Result (List Text) → Res Status (Option (List Text))
    suggest_reply (err e) = to_status e
    suggest_reply (ok suggestions) = ok (some suggestions)

    abbrev pub suggest_for : Result SuggestQuery → W → Res Status (Option (List Text)) × W
    suggest_for (err e) w = (to_status e, w)
    suggest_for (ok q) w = let (r, w') = suggest products q w in (suggest_reply r, w')

    -- `SuggestProducts`, on the prefix and the limit of the request.
    unfoldable pub suggest_products : Text → ℤ → W → Res Status (Option (List Text)) × W
    suggest_products prefix limit w = suggest_for (new_suggest_query prefix limit) w
