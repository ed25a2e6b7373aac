-- ===== src/Typesense/Searcher/Private.antt =====
-- Orders are private: what internal/querying/finder.go and internal/typesense together let the
-- engine see of a search over orders.
use kinetix_search_service.Common.{
  sym, All, false, ◌≡◌, refl, ap, ◌∙◌, some, List, [], ◌∷◌, ◌++◌, Text, lit, join, ok, err,
  >>=-eq_ok, ok-injective, Floats, arith,
}
use kinetix_search_service.Search.Errors.{Result, GoError}
use kinetix_search_service.Search.Identifier.{is_zero_id, merchant_identifier}
use kinetix_search_service.Search.Document.{orders, collection_name}
use kinetix_search_service.Search.Query.{Query}
use kinetix_search_service.Search.Service.{Checkpoint, Clock}
use kinetix_search_service.Search.Time.{Duration}
use kinetix_search_service.Querying.{Finder, find, found}
use kinetix_search_service.Typesense.Documents.{Document}
use kinetix_search_service.Typesense.Engine.{Engine, SearchParams}
use kinetix_search_service.Typesense.Query.{
  quote, principal_clauses, merchant_clauses, category_clauses, filter_for,
}
use kinetix_search_service.Typesense.Query.Safety.{quote-inv}
use kinetix_search_service.Typesense.Query.Clauses.{IsSingle, others-IsSingle}
use kinetix_search_service.Typesense.Searcher.{search_params, search_docs, searcher, unless_empty}

abbrev with_party : Text → Text
with_party p = lit "(buyer:=" ++ (p ++ (lit " || merchant_id:=" ++ (p ++ lit ")")))

-- The buyer or the merchant of an order is the principal.
abbrev pub party_clause : Text → Text
party_clause p = with_party (96 ∷ (p ++ 96 ∷ []))

principal_clauses-orders :
    (q : Query) {cs : List Text}
    → is_zero_id q.on_behalf_of ≡ false
    → principal_clauses orders q ≡ ok cs
    → party_clause q.on_behalf_of.v ∷ [] ≡ cs
unfolding principal_clauses
principal_clauses-orders q {cs} someone h =
    let (p, made, last) =
      >>=-eq_ok (quote q.on_behalf_of.v) (λ p. ok (with_party p ∷ []))
        (rw (someone, principal_clauses) at h) in
    let made_as = (quote-inv q.on_behalf_of.v made).1 in
    ap (λ (x : Text). with_party x ∷ []) made_as ∙ ok-injective {E = GoError} last

-- A filter that asks for the principal's own orders, and for whatever else all at once: the clause
-- and further conditions, each of them single, joined by ` && `.
pub record IsOwn (p f : Text) : Type 0 where
  pub others : List Text
  pub joined : f ≡ join (party_clause p ∷ others) (lit " && ")
  pub singles : All IsSingle others

-- The filter of a search over orders asks for the principal's own.
filter_for-party :
    (q : Query) (f : Text)
    → is_zero_id q.on_behalf_of ≡ false
    → filter_for orders q ≡ ok f
    → IsOwn q.on_behalf_of.v f
unfolding filter_for
filter_for-party q f someone h =
    let (first, principal, h₁) = >>=-eq_ok (principal_clauses orders q) _ h in
    let (second, merchant, h₂) = >>=-eq_ok (merchant_clauses q) _ h₁ in
    let (third, cats, last) = >>=-eq_ok (category_clauses q.categories) _ h₂ in
    record {
      others = second ++ third;
      joined =
          sym (ok-injective {E = GoError} last)
          ∙ ap (λ (cs : List Text). join (cs ++ (second ++ third)) (lit " && "))
              (sym (principal_clauses-orders q someone principal));
      singles = others-IsSingle q merchant cats;
    }

unless_empty-IsOwn : (p f : Text) → IsOwn p f → unless_empty f ≡ some f
unless_empty-IsOwn p [] h = absurd (ground (arith, h.joined))
unless_empty-IsOwn p (c ∷ f) h = refl

-- Two engines that answer alike whatever is filtered to the principal's own orders.
abbrev pub AgreeFor : {W F : Type 0} → Text → Engine W F → Engine W F → Type 0
AgreeFor {W} p e₁ e₂ =
    (name : Text) (params : SearchParams) (f : Text) (w : W)
    → params.filter_by ≡ some f
    → IsOwn p f
    → e₁.search_in name params w ≡ e₂.search_in name params w

module _ {W F D : Type 0} (fl : Floats F) (decode : Document F → Result D)
    (e₁ e₂ : Engine W F) where
  asks_alike :
      (q : Query) (f : Text) (w : W)
      → AgreeFor q.on_behalf_of.v e₁ e₂
      → IsOwn q.on_behalf_of.v f
      → e₁.search_in (collection_name orders) (search_params orders q f) w
        ≡ e₂.search_in (collection_name orders) (search_params orders q f) w
  unfolding search_params
  asks_alike q f w agree b = agree _ _ f w (unless_empty-IsOwn q.on_behalf_of.v f b) b

  search_docs-private :
      (q : Query) (w : W)
      → is_zero_id q.on_behalf_of ≡ false
      → AgreeFor q.on_behalf_of.v e₁ e₂
      → search_docs fl e₁ orders decode q w ≡ search_docs fl e₂ orders decode q w
  unfolding search_docs
  search_docs-private q w someone agree = by_filter (filter_for orders q) refl
    where
      by_filter :
          (r : Result Text)
          → filter_for orders q ≡ r
          → search_docs fl e₁ orders decode q w ≡ search_docs fl e₂ orders decode q w
      by_filter (err e) h = rw h
      by_filter (ok f) h = rw (h, asks_alike q f w agree (filter_for-party q f someone h))

-- The finder of orders over an engine.
abbrev pub orders_finder :
    {W F D : Type 0}
    → Floats F
    → (Document F → Result D)
    → Checkpoint W
    → Clock W
    → Duration
    → Engine W F
    → Finder F W D
orders_finder fl decode checkpoint clock stale_after engine = record {
  collection = orders;
  searcher = searcher fl engine orders decode;
  checkpoint = checkpoint;
  clock = clock;
  stale_after = stale_after;
}

module _ {W F D : Type 0} (fl : Floats F) (decode : Document F → Result D) (cp : Checkpoint W)
    (clock : Clock W) (stale_after : Duration) (e₁ e₂ : Engine W F) where
  -- A search over orders on behalf of a principal learns nothing of other parties' orders: if two
  -- engines answer alike every question whose filter is the clause that the buyer or the merchant is
  -- that principal, joined by ` && ` with single conditions only (of no connective or parenthesis
  -- outside of their backticks), the search has the same answer and the same effects over both.
  pub find_private :
      (q : Query) (w : W)
      → is_zero_id q.on_behalf_of ≡ false
      → AgreeFor q.on_behalf_of.v e₁ e₂
      → find (orders_finder fl decode cp clock stale_after e₁) q w
        ≡ find (orders_finder fl decode cp clock stale_after e₂) q w
  unfolding find found
  find_private q w someone agree =
      rw (someone, search_docs-private fl decode e₁ e₂ q w someone agree)
