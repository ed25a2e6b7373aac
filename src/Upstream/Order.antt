-- ===== src/Upstream/Order.antt =====
-- internal/orderclient: orders, from the order service.
pub mod Laws
use kinetix_search_service.Common.{
  ℕ, ℤ, wrap32, pos, ◌||◌, Bool, true, false, Option, none, some, List, [], ◌∷◌, Text, lit,
  is_empty, ok, err, if◌then◌else◌, trim_prefix, to_lower, text_eq, decimal,
}
use kinetix_search_service.Search.Errors.{
  Result, GoError, errf, str, corrupt_record, dependency_unavailable,
}
use kinetix_search_service.Search.Call.{Call, pure, raise, continue, ◌>>=◌, handling}
use kinetix_search_service.Search.Identifier.{
  OrderId, BuyerId, MerchantId, new_order_id, new_buyer_id, new_merchant_id, merchant_identifier,
}
use kinetix_search_service.Search.Document.{OrderDoc, Cursor, Changes}
use kinetix_search_service.Search.Service.{Source}
use kinetix_search_service.Upstream.{
  Timestamps, ProtoCursor, ChangedSinceRequest, carries_transaction, to_proto_cursor,
  from_proto_cursor, time_at, collect, fail,
}

-- An open enum: its names, or any other number. Protobuf prints that number.
pub data OrderStatus : Type 0 where
  unspecified pending_payment paid received packing packed assigned : OrderStatus
  dispatched in_transit delivered completed cancelled refunded : OrderStatus
  unnamed_status : ℤ → OrderStatus

unfoldable pub order_status_name : OrderStatus → Text
order_status_name unspecified = lit "ORDER_STATUS_UNSPECIFIED"
order_status_name pending_payment = lit "ORDER_STATUS_PENDING_PAYMENT"
order_status_name paid = lit "ORDER_STATUS_PAID"
order_status_name received = lit "ORDER_STATUS_RECEIVED"
order_status_name packing = lit "ORDER_STATUS_PACKING"
order_status_name packed = lit "ORDER_STATUS_PACKED"
order_status_name assigned = lit "ORDER_STATUS_ASSIGNED"
order_status_name dispatched = lit "ORDER_STATUS_DISPATCHED"
order_status_name in_transit = lit "ORDER_STATUS_IN_TRANSIT"
order_status_name delivered = lit "ORDER_STATUS_DELIVERED"
order_status_name completed = lit "ORDER_STATUS_COMPLETED"
order_status_name cancelled = lit "ORDER_STATUS_CANCELLED"
order_status_name refunded = lit "ORDER_STATUS_REFUNDED"
order_status_name (unnamed_status n) = decimal n

abbrev status_of_trimmed : Text → Text
status_of_trimmed trimmed =
    if is_empty trimmed || text_eq trimmed (lit "UNSPECIFIED")
    then lit "unknown"
    else to_lower trimmed

unfoldable pub status_of : OrderStatus → Text
unfolding order_status_name
status_of status = status_of_trimmed (trim_prefix (order_status_name status) (lit "ORDER_STATUS_"))

pub record OrderRecord (T : Type 0) : Type 0 where
  pub order_number : Text
  pub buyer_principal_id : Text
  pub merchant_principal_id : Text
  pub status : OrderStatus
  pub line_titles : List Text
  pub placed_at : Option T
  pub updated_at : Option T

pub record ChangedSinceResponse (T : Type 0) : Type 0 where
  pub upserted : List (OrderRecord T)
  pub next : Option (ProtoCursor T)
  pub has_more : Bool

pub record Stub (W T : Type 0) : Type 0 where
  pub changed_since : ChangedSinceRequest T → Call W (ChangedSinceResponse T)
  pub status_code : GoError → ℕ

-- The merchant of a record: the zero identifier in place of an unusable one.
abbrev merchant_or_zero : Result MerchantId → MerchantId
merchant_or_zero (ok m) = m
merchant_or_zero (err e) = record { v = [] }

abbrev unusable_number : GoError → GoError
unusable_number e =
    errf corrupt_record (lit "orderclient.ToDoc") (some e)
      (lit "order sent a record with an unusable order number") []

abbrev no_buyer : Text → GoError → GoError
no_buyer number e =
    errf corrupt_record (lit "orderclient.ToDoc") (some e)
      (lit "order %s names no buyer, and an order with no buyer cannot be filtered to one")
      (str number ∷ [])

module _ {T : Type 0} (ts : Timestamps T) where
  abbrev pub doc_for : OrderRecord T → OrderId → Result BuyerId → Result OrderDoc
  doc_for o id (err e) = err (no_buyer o.order_number e)
  doc_for o id (ok buyer) = ok (record {
    id = id;
    buyer = buyer;
    merchant_id = merchant_or_zero (new_merchant_id o.merchant_principal_id);
    number = o.order_number;
    status = status_of o.status;
    line_titles = o.line_titles;
    placed_at = time_at ts o.placed_at;
    updated_at = time_at ts o.updated_at;
  })

  abbrev pub doc_of : OrderRecord T → Result OrderId → Result OrderDoc
  doc_of o (err e) = err (unusable_number e)
  doc_of o (ok id) = doc_for o id (new_buyer_id o.buyer_principal_id)

  unfoldable pub to_doc : OrderRecord T → Result OrderDoc
  to_doc o = doc_of o (new_order_id o.order_number)

  unfoldable pub to_changes : ChangedSinceResponse T → Changes OrderDoc
  to_changes response =
      collect (λ r. r.order_number) to_doc
        (record {
          upserted = [];
          removed = [];
          refused = [];
          next = from_proto_cursor ts response.next;
          has_more = response.has_more;
        })
        response.upserted

module _ {W T : Type 0} (ts : Timestamps T) (stub : Stub W T) where
  abbrev pub outdated : GoError
  outdated =
      errf dependency_unavailable (lit "orderclient.ChangedSince") none
        (lit "order answered without a transaction cursor; it predates contracts 1.5.0") []

  abbrev pub unpaged : Cursor → GoError → GoError
  unpaged cur e =
      fail stub.status_code (lit "orderclient.ChangedSince") e (lit "paging from %q")
        (str cur.last_id ∷ [])

  abbrev pub request : Cursor → ℤ → ChangedSinceRequest T
  request cur limit = record { cursor = to_proto_cursor ts cur; limit = wrap32 limit }

  abbrev pub asking : Cursor → ℤ → Call W (ChangedSinceResponse T)
  asking cur limit = handling (unpaged cur) (stub.changed_since (request cur limit))

  unfoldable pub changed_since : Cursor → ℤ → Call W (Changes OrderDoc)
  changed_since cur limit = do
    response ← asking cur limit
    (λ w.
        if carries_transaction response.next
        then (ok (to_changes ts response), w)
        else (err outdated, w))

  abbrev pub client : Source W OrderDoc
  client = record { changed_since = changed_since }
