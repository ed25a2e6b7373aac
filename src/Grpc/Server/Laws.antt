-- ===== src/Grpc/Server/Laws.antt =====
-- What a client of the gRPC methods is answered.
use kinetix_search_service.Common.{
  lit, ◌==◌, if◌then◌else◌, ℤ, pos, Bool, true, ◌&&◌, eq_ℤ, ◌≡◌, refl, sym, subst, inl, inr, Option,
  none, some, List, [], ◌∷◌, ◌++◌, Text, is_empty, ok, err, Res, Floats, Bool-cases, All,
  All-append, Fails, Fails->>=, Fails-if, Fails-err, Fails-intro, ok-injective, arith, >>=-eq_ok,
  eq_of_parts,
}
use kinetix_search_service.Search.Errors.{
  Result, GoError, Kind, kind_of, kind_string, malformed_query, not_found, stale, index_unavailable,
  dependency_unavailable, corrupt_record, unknown,
}
use kinetix_search_service.Search.Time.{is_zero_time}
use kinetix_search_service.Search.Identifier.{MerchantId, new_merchant_id, merchant_identifier}
use kinetix_search_service.Search.Identifier.Laws.{new_id_malformed}
use kinetix_search_service.Search.Document.{ProductDoc, Hit, Results}
use kinetix_search_service.Search.Query.{
  Query, QueryOption, with_categories, with_page, with_merchant,
}
use kinetix_search_service.Search.Query.Checked.{
  IsValidQuery, KeepsText, with_ranking-KeepsText, new_query-IsValidQuery,
}
use kinetix_search_service.Search.Query.Refusals.{new_query-Fails, IsMalformed}
use kinetix_search_service.Querying.{Finder, find}
use kinetix_search_service.Upstream.{Timestamps, time_at}
use kinetix_search_service.Upstream.Laws.{IsFaithful, time_at-sent}
use kinetix_search_service.Upstream.Catalog.{get_currency, get_amount_minor}
use kinetix_search_service.Grpc.{Status}
use kinetix_search_service.Grpc.Server.Requests.{IsLimited, to_query-IsLimited}
use kinetix_search_service.Grpc.Server.{
  SearchProductsRequest, ProductHit, SearchProductsResponse, ProtoPage, page_option,
  merchant_option, merchant_given, base_options, to_query, to_money, to_status, code_for, to_hit,
  to_search_response, found_reply, search_for, search_products,
}

page_option-KeepsText : (p : Option ProtoPage) → All KeepsText (page_option p)
unfolding with_page
page_option-KeepsText none = tt
page_option-KeepsText (some p) = (λ q. refl, tt)

base_options-KeepsText : (request : SearchProductsRequest) → All KeepsText (base_options request)
unfolding with_categories
base_options-KeepsText request =
    (λ q. refl, (with_ranking-KeepsText _, page_option-KeepsText request.page))

merchant_given-KeepsText :
    (r : Result MerchantId) (os : List QueryOption) → merchant_given r ≡ ok os → All KeepsText os
unfolding with_merchant
merchant_given-KeepsText (err e) os h = absurd (ground arith)
merchant_given-KeepsText (ok m) os h = subst (All KeepsText) (ok-injective h) (λ q. refl, tt)

merchant_option-KeepsText :
    (raw : Text) (os : List QueryOption) → merchant_option raw ≡ ok os → All KeepsText os
merchant_option-KeepsText [] os h = subst (All KeepsText) (ok-injective h) tt
merchant_option-KeepsText (c ∷ raw) os h = merchant_given-KeepsText (new_merchant_id (c ∷ raw)) os h

to_query-IsValidQuery :
    (request : SearchProductsRequest) {q : Query} → to_query request ≡ ok q → IsValidQuery q
unfolding to_query
to_query-IsValidQuery request h =
    let (os, given, made) = >>=-eq_ok (merchant_option request.merchant_principal_id) _ h in
    new_query-IsValidQuery request.text (base_options request ++ os)
      (All-append KeepsText (base_options request) os (base_options-KeepsText request)
        (merchant_option-KeepsText request.merchant_principal_id os given))
      made

merchant_given-Fails :
    (r : Result MerchantId) → Fails IsMalformed r → Fails IsMalformed (merchant_given r)
merchant_given-Fails (ok m) h = tt
merchant_given-Fails (err e) h = h

to_query-Fails : (request : SearchProductsRequest) → Fails IsMalformed (to_query request)
unfolding to_query new_merchant_id
to_query-Fails request =
    let raw = request.merchant_principal_id in
    Fails->>= IsMalformed (merchant_option raw) _
      (Fails-if IsMalformed (is_empty raw) (ok []) (merchant_given (new_merchant_id raw)) tt (
        merchant_given-Fails (new_merchant_id raw)
          (Fails-intro IsMalformed (new_merchant_id raw) (λ e h. new_id_malformed raw _ h))))
      λ os. new_query-Fails request.text (base_options request ++ os)

to_query_malformed :
    (request : SearchProductsRequest) {e : GoError}
    → to_query request ≡ err e
    → kind_of e ≡ malformed_query
to_query_malformed request h = Fails-err IsMalformed (to_query request) (to_query-Fails request) h

-- The status of an error by its kind: gRPC's InvalidArgument, NotFound, Unavailable or Internal, and
-- the kind's name as its whole text. `Stale` is the kind that is no error.
pub data Told {A : Type 0} : Kind → Res Status (Option A) → Type 0 where
  invalid :
      Told malformed_query (err (record { code = 3; format = lit "malformed_query"; args = [] }))
  no_such : Told not_found (err (record { code = 5; format = lit "not_found"; args = [] }))
  index_away :
      Told index_unavailable
        (err (record { code = 14; format = lit "index_unavailable"; args = [] }))
  dependency_away :
      Told dependency_unavailable
        (err (record { code = 14; format = lit "dependency_unavailable"; args = [] }))
  corrupt :
      Told corrupt_record (err (record { code = 13; format = lit "corrupt_record"; args = [] }))
  not_known : Told unknown (err (record { code = 13; format = lit "unknown"; args = [] }))
  no_error : Told stale (ok none)

-- What `toStatus` makes of an error of a kind.
abbrev status_of : {A : Type 0} → Kind → Res Status (Option A)
status_of k =
    if code_for k == 0
    then ok none
    else err (record { code = code_for k; format = kind_string k; args = [] })

status_of-Told : {A : Type 0} (k : Kind) → Told {A = A} k (status_of k)
unfolding code_for kind_string
status_of-Told malformed_query = invalid
status_of-Told not_found = no_such
status_of-Told index_unavailable = index_away
status_of-Told dependency_unavailable = dependency_away
status_of-Told corrupt_record = corrupt
status_of-Told unknown = not_known
status_of-Told stale = no_error

to_status-Told : {A : Type 0} (e : GoError) → Told {A = A} (kind_of e) (to_status e)
unfolding to_status
to_status-Told e = status_of-Told (kind_of e)

module _ {F T : Type 0} (floats : Floats F) (ts : Timestamps T) {W : Type 0}
    (products : Finder F W ProductDoc) where
  -- How a search over gRPC ends.
  pub data Ends (request : SearchProductsRequest) (w : W)
      : Res Status (Option (SearchProductsResponse F T)) → W → Type 0 where
    malformed :
        {e : GoError}
        → to_query request ≡ err e
        → Ends request w (err (record { code = 3; format = lit "malformed_query"; args = [] })) w
    failed :
        {q : Query} {e : GoError} {w' : W} {r : Res Status (Option (SearchProductsResponse F T))}
        → to_query request ≡ ok q
        → IsValidQuery q
        → IsLimited request.merchant_principal_id q.merchant_id
        → q.on_behalf_of ≡ merchant_identifier.zero_id
        → find products q w ≡ (err e, w')
        → Told (kind_of e) r
        → Ends request w r w'
    answered :
        {q : Query} {results : Results F ProductDoc} {w' : W}
        → to_query request ≡ ok q
        → IsValidQuery q
        → IsLimited request.merchant_principal_id q.merchant_id
        → q.on_behalf_of ≡ merchant_identifier.zero_id
        → find products q w ≡ (ok results, w')
        → Ends request w (ok (some (to_search_response floats ts results))) w'

  malformed-status :
      (e : GoError)
      → kind_of e ≡ malformed_query
      → ◌≡◌ {A = Res Status (Option (SearchProductsResponse F T))}
          (to_status e)
          (err (record { code = 3; format = lit "malformed_query"; args = [] }))
  unfolding to_status code_for kind_string
  malformed-status e h = rw (h) (refl)

  found_reply-Ends :
      (request : SearchProductsRequest) (w : W) (q : Query) (r : Result (Results F ProductDoc))
      (w' : W)
      → to_query request ≡ ok q
      → find products q w ≡ (r, w')
      → Ends request w (found_reply floats ts products r) w'
  found_reply-Ends request w q (err e) w' made ran =
      let (limited, nobody) = to_query-IsLimited request made in
      failed made (to_query-IsValidQuery request made) limited nobody ran (to_status-Told e)
  found_reply-Ends request w q (ok results) w' made ran =
      let (limited, nobody) = to_query-IsLimited request made in
      answered made (to_query-IsValidQuery request made) limited nobody ran

  search_for-Ends :
      (request : SearchProductsRequest) (w : W) (r : Result Query)
      → to_query request ≡ r
      → Ends request w (search_for floats ts products r w).0 (search_for floats ts products r w).1
  search_for-Ends request w (err e) h =
      subst (λ s. Ends request w s w) (sym (malformed-status e (to_query_malformed request h)))
        (malformed h)
  search_for-Ends request w (ok q) h = found_reply-Ends request w q _ _ h refl

  -- Every search over gRPC ends in one of three ways: a request that makes no query is answered
  -- InvalidArgument with the text `malformed_query`, and nothing else is called; otherwise its query is
  -- valid, limited to the merchant that the request names, if it names one, and on behalf of nobody,
  -- and the answer is the response made of what `Find` returned for it, or, after an error, the
  -- code that is fixed for its kind (3 for a malformed query, 5 for what was not found, 14 for an
  -- unavailable index or dependency, 13 for a corrupt record and the rest) with the name of the kind as
  -- its whole text, and an empty answer without an error for the kind `Stale`.
  pub search_products-Ends :
      (request : SearchProductsRequest) (w : W)
      → Ends request w
          (search_products floats ts products request w).0
          (search_products floats ts products request w).1
  unfolding search_products
  search_products-Ends request w = search_for-Ends request w (to_query request) refl

no_currency : (currency : Text) (b : Bool) → (is_empty currency && b) ≡ true → currency ≡ []
no_currency [] b h = refl
no_currency (c ∷ s) b h = absurd (ground arith)

no_price : (price : ℤ) (b : Bool) → (b && eq_ℤ price (pos 0)) ≡ true → price ≡ pos 0
no_price price b h = eq_of_parts price (pos 0) (ground arith)

-- The price that is read of a message is the price of the document, also where the message has
-- none.
to_money-read :
    (d : ProductDoc)
    → (get_currency (to_money d) ≡ d.currency) × (get_amount_minor (to_money d) ≡ d.price_minor)
unfolding to_money
to_money-read d = elim (Bool-cases (is_empty d.currency && eq_ℤ d.price_minor (pos 0))) [
  | inl absent ↦ rw (absent) (
    sym (no_currency d.currency (eq_ℤ d.price_minor (pos 0)) absent),
    sym (no_price d.price_minor (is_empty d.currency) absent),
  )
  | inr priced ↦ rw (priced) (refl, refl)
]

module _ {F T : Type 0} (floats : Floats F) (ts : Timestamps T) (faithful : IsFaithful ts) where
  -- What a client reads of a hit.
  abbrev pub read_hit : ProductHit F T → Hit F ProductDoc
  read_hit h = record {
    score = h.score;
    doc = record {
      id = record { v = h.sku };
      merchant_id = record { v = h.merchant_principal_id };
      title = h.title;
      description = h.description;
      categories = h.categories;
      price_minor = get_amount_minor h.price;
      currency = get_currency h.price;
      updated_at = time_at ts h.updated_at;
    };
  }

  -- If timestamps keep the instant, a client reads of a hit's message the document of the hit,
  -- whole, and its score.
  pub read_hit-to_hit : (h : Hit F ProductDoc) → read_hit (to_hit floats ts h) ≡ h
  unfolding to_hit
  read_hit-to_hit h =
      let (currency, amount) = to_money-read h.doc in
      let updated =
        time_at-sent ts faithful h.doc.updated_at (is_zero_time h.doc.updated_at) refl in
      λ i. record h {
        doc = record h.doc {
          price_minor = amount i;
          currency = currency i;
          updated_at = updated i;
        };
      }
