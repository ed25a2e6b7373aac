-- ===== src/Search/Query/Answers.antt =====
-- What `NewQuery` and `NewSuggestQuery` answer, on every branch.
use kinetix_search_service.Common.{ℤ, ◌≡◌, refl, List, Text, ok, err, All}
use kinetix_search_service.Search.Errors.{Result, kind_of, malformed_query}
use kinetix_search_service.Search.Query.{
  Query, QueryOption, SuggestQuery, checked, new_query, new_suggest_query,
}
use kinetix_search_service.Search.Query.Checked.{
  KeepsText, IsValidQuery, IsChecked-checked, new_query-IsValidQuery,
}
use kinetix_search_service.Search.Query.Refusals.{
  new_query_malformed, IsValidSuggest, new_suggest_query-IsValidSuggest, new_suggest_query-Fails,
  IsMalformed,
}
use kinetix_search_service.Common.{Fails-err}

-- A valid query, which the checks leave as it is, or the error of a malformed one.
abbrev pub Answers : Result Query → Type 0
Answers (ok q) = IsValidQuery q × (checked q ≡ ok q)
Answers (err e) = kind_of e ≡ malformed_query

answered :
    (text : Text) (options : List QueryOption) (r : Result Query)
    → All KeepsText options
    → new_query text options ≡ r
    → Answers r
answered text options (ok q) keep h =
    let valid = new_query-IsValidQuery text options keep h in (valid, IsChecked-checked q valid.1)
answered text options (err e) keep h = new_query_malformed text options h

-- If the options leave the text alone, as those of the package do, `NewQuery` returns a query that has
-- a trimmed text of at most 256 bytes without control bytes, an offset that is not negative, a limit
-- from 1 to 100, one of the three rankings, and categories that are such texts and not empty, and which
-- its checks would leave as it is; or it refuses the query as malformed.
pub new_query-Answers :
    (text : Text) (options : List QueryOption)
    → All KeepsText options
    → Answers (new_query text options)
new_query-Answers text options keep = answered text options (new_query text options) keep refl

abbrev pub Suggests : Result SuggestQuery → Type 0
Suggests (ok q) = IsValidSuggest q
Suggests (err e) = kind_of e ≡ malformed_query

suggested :
    (prefix : Text) (limit : ℤ) (r : Result SuggestQuery)
    → new_suggest_query prefix limit ≡ r
    → Suggests r
suggested prefix limit (ok q) h = new_suggest_query-IsValidSuggest prefix limit h
suggested prefix limit (err e) h =
    Fails-err IsMalformed (new_suggest_query prefix limit) (new_suggest_query-Fails prefix limit) h

-- `NewSuggestQuery` returns a query that has a trimmed prefix of at most 256 bytes without control
-- bytes, and a limit from 1 to 100; or it refuses the query as malformed.
pub new_suggest_query-Suggests :
    (prefix : Text) (limit : ℤ) → Suggests (new_suggest_query prefix limit)
new_suggest_query-Suggests prefix limit =
    suggested prefix limit (new_suggest_query prefix limit) refl
