-- ===== src/Search/Query/Refusals.antt =====
-- Every refusal of `NewQuery` and `NewSuggestQuery` is the caller's fault, and so is every accepted
-- suggestion in form.
use kinetix_search_service.Common.{
  ℤ, ◌≡◌, subst, List, [], ◌∷◌, Text, lit, none, arith, ok, err, >>=-eq_ok, Fails, Fails->>=,
  Fails-err, Fails-intro, Bool-cases, inl, inr, ltb_ℤ, pos,
}
use kinetix_search_service.Search.Errors.{GoError, Arg, errf, kind_of, malformed_query, num, str}
use kinetix_search_service.Search.Errors.Laws.{kind_of-errf}
use kinetix_search_service.Search.Query.{
  Query, QueryOption, SuggestQuery, searchable, page_size, categories, checked, checked_within,
  new_query, new_suggest_query, is_known, apply_options, zero_query, ranking_text,
  default_page_size, query_op, default_suggestions,
}
use kinetix_search_service.Search.Query.Laws.{
  IsSearchable, IsPageSize, searchable-IsSearchable, page_size-IsPageSize,
}

abbrev pub IsMalformed : GoError → Type 0
IsMalformed e = kind_of e ≡ malformed_query

malformed :
    (op format : Text) (args : List Arg) → IsMalformed (errf malformed_query op none format args)
malformed op format args = kind_of-errf malformed_query op none format args

searchable_malformed :
    (op what raw : Text) (e : GoError)
    → searchable op what raw ≡ err e
    → kind_of e ≡ malformed_query
unfolding searchable errf kind_of
searchable_malformed op what raw e h = ground arith

searchable-Fails : (op what raw : Text) → Fails IsMalformed (searchable op what raw)
searchable-Fails op what raw =
    Fails-intro IsMalformed (searchable op what raw) (searchable_malformed op what raw)

page_size_malformed :
    (op : Text) (limit fallback : ℤ) (e : GoError)
    → page_size op limit fallback ≡ err e
    → kind_of e ≡ malformed_query
unfolding page_size errf kind_of
page_size_malformed op limit fallback e h = ground arith

page_size_Fails : (op : Text) (limit fallback : ℤ) → Fails IsMalformed (page_size op limit fallback)
page_size_Fails op limit fallback =
    Fails-intro IsMalformed (page_size op limit fallback) (page_size_malformed op limit fallback)

categories_Fails : (op : Text) (raw : List Text) → Fails IsMalformed (categories op raw)
unfolding categories
categories_Fails op [] = tt
categories_Fails op (c ∷ raw) =
    Fails->>= IsMalformed (searchable op (lit "category") c) _ (searchable-Fails op _ c)
      λ t. Fails->>= IsMalformed (categories op raw) _ (categories_Fails op raw) λ rest. tt

checked_within-Fails : (q : Query) (limit : ℤ) → Fails IsMalformed (checked_within q limit)
checked_within-Fails q limit = elim (Bool-cases (is_known q.ranking)) [
  | inl known ↦ rw known (
      Fails->>= IsMalformed (categories query_op q.categories) _
        (categories_Fails query_op q.categories) λ kept. tt)
  | inr unknown ↦
      rw unknown
        (malformed query_op (lit "unknown ranking profile %q") (str (ranking_text q.ranking) ∷ []))
]

checked-Fails : (q : Query) → Fails IsMalformed (checked q)
unfolding checked
checked-Fails q = elim (Bool-cases (ltb_ℤ q.page.offset (pos 0))) [
  | inl negative ↦
      rw negative (malformed query_op (lit "offset %d is negative") (num q.page.offset ∷ []))
  | inr natural ↦ rw natural (
      Fails->>= IsMalformed (page_size query_op q.page.limit default_page_size) (checked_within q)
        (page_size_Fails query_op q.page.limit default_page_size) (checked_within-Fails q))
]

pub new_query-Fails :
    (text : Text) (options : List QueryOption) → Fails IsMalformed (new_query text options)
unfolding new_query
new_query-Fails text options =
    Fails->>= IsMalformed (searchable query_op (lit "query") text) _
      (searchable-Fails query_op _ text) λ t. checked-Fails (apply_options options (zero_query t))

-- Whatever `NewQuery` refuses, it refuses as a malformed query.
pub new_query_malformed :
    (text : Text) (options : List QueryOption) {e : GoError}
    → new_query text options ≡ err e
    → kind_of e ≡ malformed_query
new_query_malformed text options h =
    Fails-err IsMalformed (new_query text options) (new_query-Fails text options) h

pub new_suggest_query-Fails :
    (prefix : Text) (limit : ℤ) → Fails IsMalformed (new_suggest_query prefix limit)
unfolding new_suggest_query
new_suggest_query-Fails prefix limit =
    Fails->>= IsMalformed (searchable (lit "search.NewSuggestQuery") (lit "prefix") prefix) _
      (searchable-Fails _ (lit "prefix") prefix)
      λ t.
        Fails->>= IsMalformed (page_size (lit "search.NewSuggestQuery") limit default_suggestions) _
          (page_size_Fails _ limit default_suggestions) λ size. tt

-- What a suggestion query holds: a searchable prefix, and between 1 and 100 suggestions.
pub record IsValidSuggest (q : SuggestQuery) : Type 0 where
  pub prefix : IsSearchable q.prefix
  pub limit : IsPageSize q.limit

-- A query for suggestions that is returned has a trimmed prefix of at most 256 bytes without
-- control bytes, and a limit from 1 to 100.
pub new_suggest_query-IsValidSuggest :
    (prefix : Text) (limit : ℤ) {q : SuggestQuery}
    → new_suggest_query prefix limit ≡ ok q
    → IsValidSuggest q
unfolding new_suggest_query
new_suggest_query-IsValidSuggest prefix limit h =
    let op = lit "search.NewSuggestQuery" in
    let (t, found, h') = >>=-eq_ok (searchable op (lit "prefix") prefix) _ h in
    let (size, sized, last) = >>=-eq_ok (page_size op limit default_suggestions) _ h' in
    subst IsValidSuggest (cc last) (record {
      prefix = searchable-IsSearchable op (lit "prefix") prefix found;
      limit = page_size-IsPageSize op limit default_suggestions (omega arith) sized;
    })
