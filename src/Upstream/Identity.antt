-- ===== src/Upstream/Identity.antt =====
-- internal/identityclient: merchants, from the identity service.
pub mod Laws
use kinetix_search_service.Common.{
  ℕ, ℤ, wrap32, pos, ◌||◌, Bool, true, false, Option, none, some, List, [], ◌∷◌, Text, lit,
  is_empty, ok, err, if◌then◌else◌, trim_prefix, to_lower, text_eq, decimal,
}
use kinetix_search_service.Search.Errors.{
  Result, GoError, errf, str, corrupt_record, dependency_unavailable,
}
use kinetix_search_service.Search.Call.{Call, pure, raise, continue, ◌>>=◌, handling}
use kinetix_search_service.Search.Identifier.{
  OrderId, BuyerId, MerchantId, new_order_id, new_buyer_id, new_merchant_id, merchant_identifier,
}
use kinetix_search_service.Search.Document.{MerchantDoc, Cursor, Changes}
use kinetix_search_service.Search.Service.{Source}
use kinetix_search_service.Upstream.{
  Timestamps, ProtoCursor, ChangedSinceRequest, carries_transaction, to_proto_cursor,
  from_proto_cursor, time_at, collect, fail,
}

-- An open enum: its names, or any other number.
pub data MerchantStatus : Type 0 where
  unspecified pending verified suspended closed : MerchantStatus
  unnamed_status : ℤ → MerchantStatus

unfoldable pub status_of : MerchantStatus → Text
status_of pending = lit "pending"
status_of verified = lit "verified"
status_of suspended = lit "suspended"
status_of closed = lit "closed"
status_of unspecified = lit "unknown"
status_of (unnamed_status n) = lit "unknown"

pub record MerchantRecord (T : Type 0) : Type 0 where
  pub principal_id : Text
  pub store_name : Text
  pub status : MerchantStatus
  pub may_sell : Bool
  pub updated_at : Option T

pub record ChangedSinceResponse (T : Type 0) : Type 0 where
  pub upserted : List (MerchantRecord T)
  pub removed_principal_ids : List Text
  pub next : Option (ProtoCursor T)
  pub has_more : Bool

pub record Stub (W T : Type 0) : Type 0 where
  pub changed_since : ChangedSinceRequest T → Call W (ChangedSinceResponse T)
  pub status_code : GoError → ℕ

abbrev unusable_principal : GoError → GoError
unusable_principal e =
    errf corrupt_record (lit "identityclient.ToDoc") (some e)
      (lit "identity sent a merchant with an unusable principal id") []

module _ {T : Type 0} (ts : Timestamps T) where
  abbrev pub doc_of : MerchantRecord T → Result MerchantId → Result MerchantDoc
  doc_of m (err e) = err (unusable_principal e)
  doc_of m (ok id) = ok (record {
    id = id;
    display_name = m.store_name;
    status = status_of m.status;
    may_sell = m.may_sell;
    categories = [];
    updated_at = time_at ts m.updated_at;
  })

  unfoldable pub to_doc : MerchantRecord T → Result MerchantDoc
  to_doc m = doc_of m (new_merchant_id m.principal_id)

  unfoldable pub to_changes : ChangedSinceResponse T → Changes MerchantDoc
  to_changes response =
      collect (λ r. r.principal_id) to_doc
        (record {
          upserted = [];
          removed = response.removed_principal_ids;
          refused = [];
          next = from_proto_cursor ts response.next;
          has_more = response.has_more;
        })
        response.upserted

module _ {W T : Type 0} (ts : Timestamps T) (stub : Stub W T) where
  abbrev pub outdated : GoError
  outdated =
      errf dependency_unavailable (lit "identityclient.ChangedSince") none
        (lit "identity answered without a transaction cursor; it predates contracts 1.5.0") []

  abbrev pub unpaged : Cursor → GoError → GoError
  unpaged cur e =
      fail stub.status_code (lit "identityclient.ChangedSince") e (lit "paging from %q")
        (str cur.last_id ∷ [])

  abbrev pub request : Cursor → ℤ → ChangedSinceRequest T
  request cur limit = record { cursor = to_proto_cursor ts cur; limit = wrap32 limit }

  abbrev pub asking : Cursor → ℤ → Call W (ChangedSinceResponse T)
  asking cur limit = handling (unpaged cur) (stub.changed_since (request cur limit))

  unfoldable pub changed_since : Cursor → ℤ → Call W (Changes MerchantDoc)
  changed_since cur limit = do
    response ← asking cur limit
    (λ w.
        if carries_transaction response.next
        then (ok (to_changes ts response), w)
        else (err outdated, w))

  abbrev pub client : Source W MerchantDoc
  client = record { changed_since = changed_since }
