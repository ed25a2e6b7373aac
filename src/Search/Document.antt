-- ===== src/Search/Document.antt =====
-- internal/search/document.go, cursor.go, progress.go, refusal.go and result.go: what is indexed,
-- where a walk of a source stands, and what a search answers.
use kinetix_search_service.Common.{ℕ, ℤ, Bool, List, [], Text, lit}
use kinetix_search_service.Search.Errors.{GoError}
use kinetix_search_service.Search.Time.{Time, Duration, zero_time}
use kinetix_search_service.Search.Identifier.{ProductId, MerchantId, OrderId, BuyerId}

-- The string type of document.go: its three constants, or any string beside them.
pub data Collection : Type 0 where
  products merchants orders : Collection
  unnamed : Text → Collection

unfoldable pub collection_name : Collection → Text
collection_name products = lit "products"
collection_name merchants = lit "merchants"
collection_name orders = lit "orders"
collection_name (unnamed s) = s

pub record ProductDoc : Type 0 where
  pub id : ProductId
  pub merchant_id : MerchantId
  pub title : Text
  pub description : Text
  pub categories : List Text
  pub price_minor : ℤ
  pub currency : Text
  pub updated_at : Time

pub record MerchantDoc : Type 0 where
  pub id : MerchantId
  pub display_name : Text
  pub status : Text
  pub may_sell : Bool
  pub categories : List Text
  pub updated_at : Time

pub record OrderDoc : Type 0 where
  pub id : OrderId
  pub buyer : BuyerId
  pub merchant_id : MerchantId
  pub number : Text
  pub status : Text
  pub line_titles : List Text
  pub placed_at : Time
  pub updated_at : Time

-- A generation is the name of one index of a collection.
abbrev pub Generation : Type 0
Generation = Text

pub record Cursor : Type 0 where
  pub transaction_id : ℕ
  pub last_id : Text
  pub updated_through : Time

abbrev pub zero_cursor : Cursor
zero_cursor = record { transaction_id = 0; last_id = []; updated_through = zero_time }

pub record Refusal : Type 0 where
  pub id : Text
  pub reason : GoError

pub record Changes (D : Type 0) : Type 0 where
  pub upserted : List D
  pub removed : List Text
  pub refused : List Refusal
  pub next : Cursor
  pub has_more : Bool

pub record Progress : Type 0 where
  pub cursor : Cursor
  pub saved_at : Time

abbrev pub zero_progress : Progress
zero_progress = record { cursor = zero_cursor; saved_at = zero_time }

-- The score is a `float64`, a type that the users of these records take as a parameter.
pub record Hit (F D : Type 0) : Type 0 where
  pub score : F
  pub doc : D

pub record FacetValue : Type 0 where
  pub value : Text
  pub count : ℤ

pub record Freshness : Type 0 where
  pub synced : Bool
  pub indexed_through : Time
  pub age : Duration
  pub stale : Bool

-- The map of facets is its list of entries, in the order of a walk over it.
pub record Results (F D : Type 0) : Type 0 where
  pub hits : List (Hit F D)
  pub total : ℤ
  pub facets : List (Text × List FacetValue)
  pub freshness : Freshness
