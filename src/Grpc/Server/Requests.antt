-- ===== src/Grpc/Server/Requests.antt =====
-- What the query of a request of internal/grpcapi/server.go asks for.
use kinetix_search_service.Common.{
  lit, subst, ◌≡◌, refl, sym, ap, ◌∙◌, ◌⊎◌, inl, inr, Option, none, some, List, [], ◌∷◌, ◌++◌, Text,
  ok, err, >>=-eq_ok, ok-injective, arith,
}
use kinetix_search_service.Search.Errors.{Result, GoError}
use kinetix_search_service.Search.Identifier.{MerchantId, new_merchant_id, merchant_identifier}
use kinetix_search_service.Search.Query.{
  Query, QueryOption, RankingProfile, by_relevance, by_newest, by_price_asc, unnamed, apply_options,
  zero_query, with_categories, with_merchant, with_page, with_ranking, new_query, searchable,
  query_op,
}
use kinetix_search_service.Search.Query.Checked.{checked-merchant_id, checked-on_behalf_of}
use kinetix_search_service.Grpc.Server.{
  SearchProductsRequest, ProtoPage, page_option, merchant_option, merchant_given, base_options,
  ranking_from, to_query,
}

-- The two fields that no option but one changes.
record Stays (q r : Query) : Type 0 where
  merchant : r.merchant_id ≡ q.merchant_id
  principal : r.on_behalf_of ≡ q.on_behalf_of

with_ranking-Stays : (r : RankingProfile) (q : Query) → Stays q (with_ranking r q)
unfolding with_ranking
with_ranking-Stays by_relevance q = record { merchant = refl; principal = refl }
with_ranking-Stays by_newest q = record { merchant = refl; principal = refl }
with_ranking-Stays by_price_asc q = record { merchant = refl; principal = refl }
with_ranking-Stays (unnamed []) q = record { merchant = refl; principal = refl }
with_ranking-Stays (unnamed (c ∷ s)) q = record { merchant = refl; principal = refl }

-- The query before the option of the merchant.
paged : Option ProtoPage → Query → Query
paged none q = q
paged (some p) q = with_page p.offset p.limit q

paged-Stays : (p : Option ProtoPage) (q : Query) → Stays q (paged p q)
unfolding paged with_page
paged-Stays none q = record { merchant = refl; principal = refl }
paged-Stays (some p) q = record { merchant = refl; principal = refl }

apply_page :
    (p : Option ProtoPage) (os : List QueryOption) (q : Query)
    → apply_options (page_option p ++ os) q ≡ apply_options os (paged p q)
unfolding paged
apply_page none os q = refl
apply_page (some p) os q = refl

-- What a request says of the merchant, and what its query is limited to.
abbrev pub IsLimited : Text → MerchantId → Type 0
IsLimited raw m = ((raw ≡ []) × (m ≡ merchant_identifier.zero_id)) ⊎ (new_merchant_id raw ≡ ok m)

given_by :
    (r : Result MerchantId) {os : List QueryOption}
    → merchant_given r ≡ ok os
    → (m : MerchantId) × (r ≡ ok m) × (with_merchant m ∷ [] ≡ os)
given_by (err e) h = absurd (ground arith)
given_by (ok m) h = (m, refl, ok-injective {E = GoError} h)

IsLimited-after :
    (raw : Text) {os : List QueryOption}
    → merchant_option raw ≡ ok os
    → (q : Query) → q.merchant_id ≡ merchant_identifier.zero_id
    → IsLimited raw (apply_options os q).merchant_id
      × ((apply_options os q).on_behalf_of ≡ q.on_behalf_of)
unfolding with_merchant
IsLimited-after [] h q unset =
    subst
      (λ (os : List QueryOption).
        IsLimited [] (apply_options os q).merchant_id
        × ((apply_options os q).on_behalf_of ≡ q.on_behalf_of))
      (ok-injective {E = GoError} h) (inl (refl, unset), refl)
IsLimited-after (c ∷ raw) h q unset =
    let (m, accepted, same) = given_by (new_merchant_id (c ∷ raw)) h in
    subst
      (λ (os : List QueryOption).
        IsLimited (c ∷ raw) (apply_options os q).merchant_id
        × ((apply_options os q).on_behalf_of ≡ q.on_behalf_of))
      same (inr accepted, refl)

pub to_query-IsLimited :
    (request : SearchProductsRequest) {q : Query}
    → to_query request ≡ ok q
    → IsLimited request.merchant_principal_id q.merchant_id
      × (q.on_behalf_of ≡ merchant_identifier.zero_id)
unfolding to_query new_query with_categories
to_query-IsLimited request {q} h =
    let (os, given, made) = >>=-eq_ok (merchant_option request.merchant_principal_id) _ h in
    let (trimmed, found, last) =
      >>=-eq_ok (searchable query_op (lit "query") request.text) _ made in
    let start = with_categories request.categories (zero_query trimmed) in
    let ranked = with_ranking (ranking_from request.ranking) start in
    let stays = with_ranking-Stays (ranking_from request.ranking) start in
    let page = paged-Stays request.page ranked in
    let before = paged request.page ranked in
    let all : apply_options (base_options request ++ os) (zero_query trimmed)
        ≡ apply_options os before =
      apply_page request.page os ranked in
    let (limited, nobody) =
      IsLimited-after request.merchant_principal_id given before (page.merchant ∙ stays.merchant) in
    (
      subst (IsLimited request.merchant_principal_id)
          (sym (checked-merchant_id _ last ∙ ap (λ (x : Query). x.merchant_id) all)) limited,
      checked-on_behalf_of _ last
          ∙ ap (λ (x : Query). x.on_behalf_of) all
          ∙ nobody
          ∙ page.principal
          ∙ stays.principal,
    )
