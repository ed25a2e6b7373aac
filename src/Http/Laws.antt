-- ===== src/Http/Laws.antt =====
-- What a caller over HTTP is answered, and how it compares with gRPC.
use kinetix_search_service.Common.{
  ℕ, ℤ, pos, ◌==◌, ◌≡◌, refl, sym, subst, Option, none, some, Text, lit, is_empty, ok, err,
  if◌then◌else◌, Floats, All, Fails, Fails->>=, Fails-if, Fails-err, >>=-eq_ok,
}
use kinetix_search_service.Common.Strings.Numbers.{atoi}
use kinetix_search_service.Search.Errors.{
  Result, GoError, Kind, errf, kind_of, kind_string, malformed_query, not_found, stale,
  index_unavailable, dependency_unavailable, corrupt_record, unknown,
}
use kinetix_search_service.Search.Document.{ProductDoc, Results}
use kinetix_search_service.Search.Query.{Query, with_page, with_categories}
use kinetix_search_service.Search.Query.Checked.{
  IsValidQuery, KeepsText, with_ranking-KeepsText, new_query-IsValidQuery,
}
use kinetix_search_service.Search.Query.Refusals.{new_query-Fails, IsMalformed}
use kinetix_search_service.Querying.{Finder, find}
use kinetix_search_service.Grpc.Server.{code_for}
use kinetix_search_service.Http.{
  error_body, search_body, Response, status_for, Params, get, whole, count, options_of, to_query,
  to_search_response, write_failure, found_response, search_for, search_products,
}

whole-Fails : (name raw : Text) (n : Option ℤ) → Fails IsMalformed (whole name raw n)
unfolding errf kind_of
whole-Fails name raw none = refl
whole-Fails name raw (some n) = tt

count-Fails : (params : Params) (name : Text) → Fails IsMalformed (count params name)
unfolding count
count-Fails params name =
    Fails-if IsMalformed (is_empty (get params name)) (ok (pos 0))
      (whole name (get params name) (atoi (get params name))) tt
      (whole-Fails name (get params name) (atoi (get params name)))

options_of-KeepsText :
    (params : Params) (offset limit : ℤ) → All KeepsText (options_of params offset limit)
unfolding with_page with_categories
options_of-KeepsText params offset limit = (λ q. refl, (with_ranking-KeepsText _, (λ q. refl, tt)))

to_query-Fails : (params : Params) → Fails IsMalformed (to_query params)
unfolding to_query
to_query-Fails params =
    Fails->>= IsMalformed (count params (lit "offset")) _ (count-Fails params (lit "offset"))
      λ offset.
        Fails->>= IsMalformed (count params (lit "limit")) _ (count-Fails params (lit "limit"))
          λ limit. new_query-Fails (get params (lit "q")) (options_of params offset limit)

to_query-IsValidQuery : (params : Params) {q : Query} → to_query params ≡ ok q → IsValidQuery q
unfolding to_query
to_query-IsValidQuery params h =
    let (offset, _, h₁) = >>=-eq_ok (count params (lit "offset")) _ h in
    let (limit, _, made) = >>=-eq_ok (count params (lit "limit")) _ h₁ in
    new_query-IsValidQuery (get params (lit "q")) (options_of params offset limit)
      (options_of-KeepsText params offset limit) made

module _ {F : Type 0} (floats : Floats F) {W : Type 0} (products : Finder F W ProductDoc) where
  -- How a search over HTTP ends.
  pub data Replies (params : Params) (w : W) : Response F → W → Type 0 where
    malformed :
        {e : GoError}
        → to_query params ≡ err e
        → Replies params w (record { status = 400; body = error_body (lit "malformed_query") }) w
    failed :
        {q : Query} {e : GoError} {w' : W}
        → to_query params ≡ ok q
        → IsValidQuery q
        → find products q w ≡ (err e, w')
        → Replies params w
            (record {
              status = status_for (kind_of e);
              body = error_body (kind_string (kind_of e));
            })
            w'
    answered :
        {q : Query} {results : Results F ProductDoc} {w' : W}
        → to_query params ≡ ok q
        → IsValidQuery q
        → find products q w ≡ (ok results, w')
        → Replies params w
            (record { status = 200; body = search_body (to_search_response floats results) })
            w'

  write_failure_malformed :
      (e : GoError)
      → kind_of e ≡ malformed_query
      → write_failure floats e ≡ record { status = 400; body = error_body (lit "malformed_query") }
  unfolding write_failure status_for kind_string
  write_failure_malformed e h = rw (h) (refl)

  found_response-Replies :
      (params : Params) (w : W) (q : Query) (r : Result (Results F ProductDoc)) (w' : W)
      → to_query params ≡ ok q
      → find products q w ≡ (r, w')
      → Replies params w (found_response floats products r) w'
  unfolding write_failure
  found_response-Replies params w q (err e) w' made ran =
      failed made (to_query-IsValidQuery params made) ran
  found_response-Replies params w q (ok results) w' made ran =
      answered made (to_query-IsValidQuery params made) ran

  search_for-Replies :
      (params : Params) (w : W) (r : Result Query)
      → to_query params ≡ r
      → Replies params w (search_for floats products r w).0 (search_for floats products r w).1
  search_for-Replies params w (err e) h =
      let bad = Fails-err IsMalformed (to_query params) (to_query-Fails params) h in
      subst (λ s. Replies params w s w) (sym (write_failure_malformed e bad)) (malformed h)
  search_for-Replies params w (ok q) h = found_response-Replies params w q _ _ h refl

  -- Every search over HTTP ends in one of three ways: a request that makes no query is answered
  -- with 400 and nothing else is called; otherwise its query is valid, and the answer is 200 with
  -- the response made of what `Find` returned for it, or the status and the name of the kind of its
  -- error.
  pub search_products-Replies :
      (params : Params) (w : W)
      → Replies params w
          (search_products floats products params w).0
          (search_products floats products params w).1
  unfolding search_products
  search_products-Replies params w = search_for-Replies params w (to_query params) refl

-- The HTTP status that gRPC documents for a code, of the codes that the service answers with.
abbrev pub http_of_code : ℕ → ℕ
http_of_code code =
    if code == 0
    then 200
    else if code == 3
    then 400
    else if code == 5
    then 404
    else if code == 14
    then 503
    else 500

-- Both sides of the service tell a kind of error alike: the status of HTTP is the one that stands
-- for the code of gRPC.
pub status_for-code_for : (k : Kind) → status_for k ≡ http_of_code (code_for k)
unfolding status_for code_for
status_for-code_for malformed_query = refl
status_for-code_for not_found = refl
status_for-code_for stale = refl
status_for-code_for index_unavailable = refl
status_for-code_for dependency_unavailable = refl
status_for-code_for corrupt_record = refl
status_for-code_for unknown = refl
