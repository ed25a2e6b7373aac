-- ===== src/Typesense/Query.antt =====
-- internal/typesense/query.go: the filter and the order of a query, in the engine's language.
pub mod Reading
pub mod Safety
pub mod Clauses
use kinetix_search_service.Common.{
  ℕ, ◌==◌, ◌||◌, ◌&&◌, not, Bool, true, false, none, List, [], ◌∷◌, ◌++◌, Text, lit, any, join,
  nonempty, if◌then◌else◌, ok, err, ◌>>=◌,
}
use kinetix_search_service.Search.Errors.{Result, errf, malformed_query, str}
use kinetix_search_service.Search.Identifier.{is_zero_id, merchant_identifier}
use kinetix_search_service.Search.Document.{Collection, products, merchants, orders, unnamed}
use kinetix_search_service.Search.Query.{
  Query, RankingProfile, by_relevance, by_newest, by_price_asc,
}
use kinetix_search_service.Querying.{is_orders}

-- A backtick or a backslash.
abbrev pub is_breaking : ℕ → Bool
is_breaking c = c == 96 || c == 92

-- `strings.HasSuffix(s, "*")`.
abbrev pub ends_in_star : Text → Bool
ends_in_star [] = false
ends_in_star (c ∷ []) = c == 42
ends_in_star (c ∷ d ∷ s) = ends_in_star (d ∷ s)

unfoldable pub quote : Text → Result Text
quote value =
    if any is_breaking value || ends_in_star value
    then err (
        errf malformed_query (lit "typesense.FilterFor") none
          (lit
            "%q cannot be matched exactly: a filter value may not hold a backtick or a backslash, or end in *")
          (str value ∷ []))
    else ok (96 ∷ (value ++ 96 ∷ []))

-- The three parts of `FilterFor`, each with the clauses that it appends.
abbrev pub wants_principal : Collection → Query → Bool
wants_principal c q = not (is_zero_id q.on_behalf_of) && is_orders c

unfoldable pub principal_clauses : Collection → Query → Result (List Text)
principal_clauses c q =
    if wants_principal c q
    then (do
      p ← quote q.on_behalf_of.v
      ok ((lit "(buyer:=" ++ (p ++ (lit " || merchant_id:=" ++ (p ++ lit ")")))) ∷ []))
    else ok []

unfoldable pub merchant_clauses : Query → Result (List Text)
merchant_clauses q =
    if is_zero_id q.merchant_id
    then ok []
    else do m ← quote q.merchant_id.v; ok ((lit "merchant_id:=" ++ m) ∷ [])

unfoldable pub quote_all : List Text → Result (List Text)
quote_all [] = ok []
quote_all (c ∷ cs) = do value ← quote c; rest ← quote_all cs; ok (value ∷ rest)

unfoldable pub category_clauses : List Text → Result (List Text)
category_clauses cs =
    if nonempty cs
    then (do
      quoted ← quote_all cs
      ok ((lit "categories:=[" ++ (join quoted (lit ",") ++ lit "]")) ∷ []))
    else ok []

unfoldable pub filter_for : Collection → Query → Result Text
filter_for c q = do
  first ← principal_clauses c q
  second ← merchant_clauses q
  third ← category_clauses q.categories
  ok (join (first ++ (second ++ third)) (lit " && "))

unfoldable pub sort_for : Collection → RankingProfile → Text
sort_for c by_newest = lit "updated_at:desc"
sort_for products by_price_asc = lit "price_minor:asc"
sort_for _ by_price_asc = lit "_text_match:desc"
sort_for c by_relevance = lit "_text_match:desc"
sort_for c _ = lit "_text_match:desc"
