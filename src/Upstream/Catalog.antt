-- ===== src/Upstream/Catalog.antt =====
-- internal/catalogclient: products, from the catalog service.
pub mod Laws
use kinetix_search_service.Common.{
  ℕ, ℤ, wrap32, pos, Bool, true, false, Option, none, some, List, [], ◌∷◌, Text, lit, is_empty, ok,
  err, if◌then◌else◌,
}
use kinetix_search_service.Search.Errors.{
  Result, GoError, errf, str, corrupt_record, dependency_unavailable,
}
use kinetix_search_service.Search.Call.{Call, pure, raise, continue, ◌>>=◌, handling}
use kinetix_search_service.Search.Identifier.{
  ProductId, MerchantId, new_product_id, new_merchant_id, merchant_identifier,
}
use kinetix_search_service.Search.Document.{ProductDoc, Cursor, Changes}
use kinetix_search_service.Search.Service.{Source, Counter}
use kinetix_search_service.Upstream.{
  Timestamps, ProtoCursor, ChangedSinceRequest, carries_transaction, to_proto_cursor,
  from_proto_cursor, time_at, collect, fail,
}

pub record Money : Type 0 where
  pub amount_minor : ℤ
  pub currency : Text

pub record Product (T : Type 0) : Type 0 where
  pub sku : Text
  pub title : Text
  pub description : Text
  pub price : Option Money
  pub merchant_principal_id : Text
  pub category_slug : Text
  pub updated_at : Option T

pub record ChangedSinceResponse (T : Type 0) : Type 0 where
  pub upserted : List (Product T)
  pub removed_skus : List Text
  pub next : Option (ProtoCursor T)
  pub has_more : Bool

pub record Stub (W T : Type 0) : Type 0 where
  pub changed_since : ChangedSinceRequest T → Call W (ChangedSinceResponse T)
  pub count_products : Call W ℤ
  pub status_code : GoError → ℕ

-- The getters of an unset price.
abbrev pub get_currency : Option Money → Text
get_currency none = []
get_currency (some m) = m.currency

abbrev pub get_amount_minor : Option Money → ℤ
get_amount_minor none = pos 0
get_amount_minor (some m) = m.amount_minor

-- The merchant of a record: the zero identifier in place of an unusable one.
abbrev pub merchant_or_zero : Result MerchantId → MerchantId
merchant_or_zero (ok m) = m
merchant_or_zero (err e) = record { v = [] }

abbrev pub unusable_sku : GoError → GoError
unusable_sku e =
    errf corrupt_record (lit "catalogclient.ToDoc") (some e)
      (lit "catalog sent a product with an unusable sku") []

module _ {T : Type 0} (ts : Timestamps T) where
  abbrev pub doc_of : Product T → Result ProductId → Result ProductDoc
  doc_of p (err e) = err (unusable_sku e)
  doc_of p (ok id) = ok (record {
    id = id;
    merchant_id = merchant_or_zero (new_merchant_id p.merchant_principal_id);
    title = p.title;
    description = p.description;
    categories = if is_empty p.category_slug then [] else p.category_slug ∷ [];
    price_minor = get_amount_minor p.price;
    currency = get_currency p.price;
    updated_at = time_at ts p.updated_at;
  })

  unfoldable pub to_doc : Product T → Result ProductDoc
  to_doc p = doc_of p (new_product_id p.sku)

  unfoldable pub to_changes : ChangedSinceResponse T → Changes ProductDoc
  to_changes response =
      collect (λ p. p.sku) to_doc
        (record {
          upserted = [];
          removed = response.removed_skus;
          refused = [];
          next = from_proto_cursor ts response.next;
          has_more = response.has_more;
        })
        response.upserted

module _ {W T : Type 0} (ts : Timestamps T) (stub : Stub W T) where
  abbrev pub outdated : GoError
  outdated =
      errf dependency_unavailable (lit "catalogclient.ChangedSince") none
        (lit "catalog answered without a transaction cursor; it predates contracts 1.5.0") []

  abbrev pub unpaged : Cursor → GoError → GoError
  unpaged cur e =
      fail stub.status_code (lit "catalogclient.ChangedSince") e (lit "paging from %q")
        (str cur.last_id ∷ [])

  abbrev pub request : Cursor → ℤ → ChangedSinceRequest T
  request cur limit = record { cursor = to_proto_cursor ts cur; limit = wrap32 limit }

  abbrev pub asking : Cursor → ℤ → Call W (ChangedSinceResponse T)
  asking cur limit = handling (unpaged cur) (stub.changed_since (request cur limit))

  unfoldable pub changed_since : Cursor → ℤ → Call W (Changes ProductDoc)
  changed_since cur limit = do
    response ← asking cur limit
    (λ w.
        if carries_transaction response.next
        then (ok (to_changes ts response), w)
        else (err outdated, w))

  unfoldable pub count : Call W ℤ
  count =
      handling
        (λ e. fail stub.status_code (lit "catalogclient.Count") e (lit "counting products") [])
        stub.count_products

  abbrev pub client : Source W ProductDoc
  client = record { changed_since = changed_since }

  abbrev pub counter : Counter W
  counter = record { count = count }
