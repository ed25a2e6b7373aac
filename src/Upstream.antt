-- ===== src/Upstream.antt =====
-- What internal/catalogclient, orderclient and identityclient have in common: the cursor of the
-- messages, the loop over a response, and the errors of a call. The three packages write it out
-- three times, each for its own generated messages; the code is the same but for the names.
-- The stubs, the timestamps of protobuf and `status.Code` are parameters. A deadline is an error
-- that the stub may answer with.
pub mod Dial
pub mod Catalog
pub mod Order
pub mod Identity
pub mod Laws
use kinetix_search_service.Common.{
  ℕ, ℤ, ◌==◌, Bool, true, false, Option, none, some, List, [], ◌∷◌, ◌++◌, Text, ok, err,
  if◌then◌else◌,
}
use kinetix_search_service.Search.Errors.{
  Result, GoError, Arg, errf, dependency_unavailable, malformed_query,
}
use kinetix_search_service.Search.Time.{Time, zero_time, is_zero_time}
use kinetix_search_service.Search.Call.{Call}
use kinetix_search_service.Search.Document.{Cursor, zero_cursor, Refusal, Changes}

-- `timestamppb.New` and `AsTime`.
pub record Timestamps (T : Type 0) : Type 0 where
  pub new : Time → T
  pub as_time : T → Time

-- The cursor of a message; its last identifier is `last_sku`, `last_order_number` or
-- `last_principal_id`.
pub record ProtoCursor (T : Type 0) : Type 0 where
  pub last_id : Text
  pub transaction_id : Option ℕ
  pub updated_through : Option T

-- The request of the three `ChangedSince`; the limit is an `int32`.
pub record ChangedSinceRequest (T : Type 0) : Type 0 where
  pub cursor : ProtoCursor T
  pub limit : ℤ

-- `GetTransactionId`: zero for an unset field.
abbrev pub get_transaction_id : Option ℕ → ℕ
get_transaction_id none = 0
get_transaction_id (some n) = n

abbrev pub carries_transaction_id : Option ℕ → Bool
carries_transaction_id none = false
carries_transaction_id (some n) = true

unfoldable pub carries_transaction : {T : Type 0} → Option (ProtoCursor T) → Bool
carries_transaction none = false
carries_transaction (some c) = carries_transaction_id c.transaction_id

module _ {T : Type 0} (ts : Timestamps T) where
  unfoldable pub to_proto_cursor : Cursor → ProtoCursor T
  to_proto_cursor cur = record {
    last_id = cur.last_id;
    transaction_id = some cur.transaction_id;
    updated_through =
        if is_zero_time cur.updated_through then none else some (ts.new cur.updated_through);
  }

  -- `at` and the two `updatedAt`: the zero time for an unset timestamp.
  unfoldable pub time_at : Option T → Time
  time_at none = zero_time
  time_at (some t) = ts.as_time t

  unfoldable pub from_proto_cursor : Option (ProtoCursor T) → Cursor
  unfolding time_at
  from_proto_cursor none = zero_cursor
  from_proto_cursor (some c) = record {
    transaction_id = get_transaction_id c.transaction_id;
    last_id = c.last_id;
    updated_through = time_at c.updated_through;
  }

module _ {R D : Type 0} (key : R → Text) (to_doc : R → Result D) where
  -- One round of the loop of `ToChanges`, from what `ToDoc` said of the record.
  abbrev pub added : Changes D → R → Result D → Changes D
  added changes r (ok doc) = record changes { upserted = changes.upserted ++ (doc ∷ []) }
  added changes r (err e) = record changes {
    refused = changes.refused ++ (record { id = key r; reason = e } ∷ []);
  }

  unfoldable pub collect : Changes D → List R → Changes D
  collect changes [] = changes
  collect changes (r ∷ rs) = collect (added changes r (to_doc r)) rs

-- The three `fail`; code 3 is `InvalidArgument`.
unfoldable pub fail : (GoError → ℕ) → Text → GoError → Text → List Arg → GoError
fail status_code op e format args =
    errf (if status_code e == 3 then malformed_query else dependency_unavailable) op (some e) format
      args
