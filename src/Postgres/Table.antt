-- ===== src/Postgres/Table.antt =====
-- The table sync_checkpoint of internal/migrations, and the two statements of
-- internal/postgres/queries.sql.go on it. `stored` is what the server keeps of an instant, which it
-- holds in microseconds; a statement that the server refuses leaves the table as it is.
use kinetix_search_service.Common.{
  ℤ, pos, ltb_ℤ, Bool, true, ◌&&◌, ◌||◌, not, Option, none, some, List, [], ◌∷◌, Text, lit, text_eq,
  ok, err, if◌then◌else◌, any, undecodable, ◌==◌, ℕ,
}
use kinetix_search_service.Search.Errors.{Result, foreign}
use kinetix_search_service.Search.Time.{Time}
use kinetix_search_service.Search.Call.{Call}
use kinetix_search_service.Postgres.{LoadCheckpointRow, SaveCheckpointParams, Queries, no_rows}

pub record SyncCheckpoint : Type 0 where
  pub collection : Text
  pub transaction_id : Option ℤ
  pub updated_through : Time
  pub last_id : Text
  pub saved_at : Time

-- The rows, and the time that `now()` tells the next statement.
pub record Database : Type 0 where
  pub rows : List SyncCheckpoint
  pub now : Time

unfoldable pub row_for : Text → List SyncCheckpoint → Option SyncCheckpoint
row_for col [] = none
row_for col (r ∷ rs) =
    let rest = row_for col rs in if text_eq r.collection col then some r else rest

abbrev pub selected : Option SyncCheckpoint → Result LoadCheckpointRow
selected none = err (foreign no_rows)
selected (some r) = ok (record {
  transaction_id = r.transaction_id;
  updated_through = some r.updated_through;
  last_id = r.last_id;
  saved_at = some r.saved_at;
})

unfoldable pub load_checkpoint : Text → Call Database LoadCheckpointRow
unfolding row_for
load_checkpoint col db = (selected (row_for col db.rows), db)

-- `ON CONFLICT (collection) DO UPDATE`: the row in place, or a row more.
unfoldable pub upsert :
    Text → (Option SyncCheckpoint → SyncCheckpoint) → List SyncCheckpoint → List SyncCheckpoint
upsert col f [] = f none ∷ []
upsert col f (r ∷ rs) =
    let rest = upsert col f rs in if text_eq r.collection col then f (some r) ∷ rs else r ∷ rest

abbrev pub greatest : Time → Time → Time
greatest a b = if ltb_ℤ a b then b else a

abbrev pub known_collection : Text → Bool
known_collection s =
    text_eq s (lit "products") || text_eq s (lit "merchants") || text_eq s (lit "orders")

-- What a text of the server, which is in UTF-8, cannot hold.
abbrev pub unstorable : ℕ → Bool
unstorable r = r == 0 || undecodable r

-- `transaction_id >= 0`, which a null does not break.
abbrev pub unsigned : Option ℤ → Bool
unsigned none = true
unsigned (some n) = not (ltb_ℤ n (pos 0))

module _ (stored : Time → Time) where
  abbrev pub through : Option SyncCheckpoint → Time → Time
  through none t = stored t
  through (some r) t = greatest r.updated_through (stored t)

  abbrev pub written : SaveCheckpointParams → Time → Time → Option SyncCheckpoint → SyncCheckpoint
  written p t now old = record {
    collection = p.collection;
    transaction_id = p.transaction_id;
    updated_through = through old t;
    last_id = p.last_id;
    saved_at = now;
  }

  abbrev pub insert : SaveCheckpointParams → Option Time → Call Database (Unit {0})
  insert p none db = (err (foreign (lit "null value in column updated_through")), db)
  insert p (some t) db =
      if any unstorable p.collection || any unstorable p.last_id
      then (err (foreign (lit "invalid byte sequence for encoding")), db)
      else if known_collection p.collection && unsigned p.transaction_id
      then (ok tt, record db { rows = upsert p.collection (written p t db.now) db.rows })
      else (err (foreign (lit "violates check constraint")), db)

  unfoldable pub save_checkpoint : SaveCheckpointParams → Call Database (Unit {0})
  unfolding upsert
  save_checkpoint p = insert p p.updated_through

  abbrev pub queries : Queries Database
  queries = record { load_checkpoint = load_checkpoint; save_checkpoint = save_checkpoint }
