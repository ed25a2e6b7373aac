-- ===== src/Search/Query.antt =====
-- internal/search/query.go and suggest_query.go: what a caller may ask for.
pub mod Laws
pub mod Checked
pub mod Refusals
pub mod Answers
use kinetix_search_service.Common.{
  ℕ, ℤ, pos, Bool, true, false, ◌||◌, none, List, [], ◌∷◌, Text, lit, is_empty, any, byte_len,
  trim_space, ltb, ltb_ℤ, eq_ℤ, text_eq, if◌then◌else◌, ok, err, ◌>>=◌,
}
use kinetix_search_service.Search.Errors.{Result, Kind, GoError, errf, malformed_query, str, num}
use kinetix_search_service.Search.Identifier.{MerchantId, merchant_identifier, is_control}

abbrev pub default_page_size : ℤ
default_page_size = pos 24

abbrev pub max_page_size : ℤ
max_page_size = pos 100

abbrev pub max_query_length : ℕ
max_query_length = 256

-- The string type of query.go: its three constants, or any string beside them.
pub data RankingProfile : Type 0 where
  by_relevance by_newest by_price_asc : RankingProfile
  unnamed : Text → RankingProfile

-- The conversion of a string.
unfoldable pub ranking_profile : Text → RankingProfile
ranking_profile s =
    if text_eq s (lit "relevance")
    then by_relevance
    else if text_eq s (lit "newest")
    then by_newest
    else if text_eq s (lit "price_asc")
    then by_price_asc
    else unnamed s

pub record Page : Type 0 where
  pub offset : ℤ
  pub limit : ℤ

pub record Query : Type 0 where
  pub text : Text
  pub categories : List Text
  pub merchant_id : MerchantId
  pub on_behalf_of : MerchantId
  pub page : Page
  pub ranking : RankingProfile

unfoldable pub for_principal : Query → MerchantId → Query
for_principal q p = record q { on_behalf_of = p }

abbrev pub QueryOption : Type 0
QueryOption = Query → Query

unfoldable pub with_categories : List Text → QueryOption
with_categories c q = record q { categories = c }

unfoldable pub with_merchant : MerchantId → QueryOption
with_merchant m q = record q { merchant_id = m }

abbrev pub ranked : RankingProfile → Query → Query
ranked (unnamed []) q = q
ranked r q = record q { ranking = r }

unfoldable pub with_ranking : RankingProfile → QueryOption
with_ranking r q = ranked r q

unfoldable pub with_page : ℤ → ℤ → QueryOption
with_page offset limit q = record q { page = record { offset = offset; limit = limit } }

abbrev pub apply_options : List QueryOption → Query → Query
apply_options [] q = q
apply_options (o ∷ os) q = apply_options os (o q)

unfoldable pub searchable : Text → Text → Text → Result Text
unfolding is_control
searchable op what raw =
    let trimmed = trim_space raw in
    if ltb max_query_length (byte_len trimmed)
    then err (errf malformed_query op none (lit "%s too long") (str what ∷ []))
    else if any is_control trimmed
    then err (errf malformed_query op none (lit "control byte in %s") (str what ∷ []))
    else ok trimmed

abbrev min_ℤ : ℤ → ℤ → ℤ
min_ℤ a b = if ltb_ℤ b a then b else a

unfoldable pub page_size : Text → ℤ → ℤ → Result ℤ
page_size op limit fallback =
    if ltb_ℤ limit (pos 0)
    then err (errf malformed_query op none (lit "limit %d is negative") (num limit ∷ []))
    else if eq_ℤ limit (pos 0)
    then ok fallback
    else ok (min_ℤ limit max_page_size)

-- The loop of `categories`, from the first element on.
unfoldable pub categories : Text → List Text → Result (List Text)
categories op [] = ok []
categories op (c ∷ raw) = do
  trimmed ← searchable op (lit "category") c
  rest ← categories op raw
  ok (if is_empty trimmed then rest else trimmed ∷ rest)

abbrev pub is_known : RankingProfile → Bool
is_known (unnamed s) = false
is_known r = true

abbrev pub ranking_text : RankingProfile → Text
ranking_text (unnamed s) = s
ranking_text r = []

abbrev pub zero_query : Text → Query
zero_query text = record {
  text = text;
  categories = [];
  merchant_id = merchant_identifier.zero_id;
  on_behalf_of = merchant_identifier.zero_id;
  page = record { offset = pos 0; limit = pos 0 };
  ranking = by_relevance;
}

abbrev pub query_op : Text
query_op = lit "search.NewQuery"

-- The last part of `NewQuery`, once the limit is found.
abbrev pub checked_within : Query → ℤ → Result Query
checked_within q limit =
    if is_known q.ranking
    then (do
      kept ← categories query_op q.categories
      ok (record q { page = record { offset = q.page.offset; limit = limit }; categories = kept }))
    else err (
        errf malformed_query query_op none (lit "unknown ranking profile %q")
          (str (ranking_text q.ranking) ∷ []))

-- The checks of `NewQuery` on the query that the options have made.
unfoldable pub checked : Query → Result Query
checked q =
    if ltb_ℤ q.page.offset (pos 0)
    then err
        (errf malformed_query query_op none (lit "offset %d is negative") (num q.page.offset ∷ []))
    else page_size query_op q.page.limit default_page_size >>= checked_within q

unfoldable pub new_query : Text → List QueryOption → Result Query
new_query text options = do
  trimmed ← searchable query_op (lit "query") text
  checked (apply_options options (zero_query trimmed))

pub record SuggestQuery : Type 0 where
  pub prefix : Text
  pub limit : ℤ

abbrev pub default_suggestions : ℤ
default_suggestions = pos 10

unfoldable pub new_suggest_query : Text → ℤ → Result SuggestQuery
new_suggest_query prefix limit = do
  trimmed ← searchable (lit "search.NewSuggestQuery") (lit "prefix") prefix
  size ← page_size (lit "search.NewSuggestQuery") limit default_suggestions
  ok (record { prefix = trimmed; limit = size })
