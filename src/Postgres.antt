-- ===== src/Postgres.antt =====
-- internal/postgres: the checkpoint and the lock, over the queries of queries.sql.go. The driver is
-- a parameter: what it answers a query with, and the transactions of a pool. A value of pgtype that
-- is not valid is `none`. The deadline of a release is not modelled.
pub mod Table
pub mod Laws
use kinetix_search_service.Common.{
  ℕ, ℤ, pos, negsuc, ◌-◌, ◌^◌, ltb, Bool, true, false, Option, none, some, List, [], ◌∷◌, Text, lit,
  ok, err, if◌then◌else◌,
}
use kinetix_search_service.Search.Errors.{
  Result, GoError, errf, error_is, str, num, dependency_unavailable,
}
use kinetix_search_service.Search.Time.{Time, zero_time}
use kinetix_search_service.Search.Call.{Call, pure, raise, continue, ◌>>=◌, handling}
use kinetix_search_service.Search.Document.{
  Collection, collection_name, Cursor, zero_cursor, Progress,
}
use kinetix_search_service.Search.Service.{Checkpoint}

pub record LoadCheckpointRow : Type 0 where
  pub transaction_id : Option ℤ
  pub updated_through : Option Time
  pub last_id : Text
  pub saved_at : Option Time

pub record SaveCheckpointParams : Type 0 where
  pub collection : Text
  pub transaction_id : Option ℤ
  pub updated_through : Option Time
  pub last_id : Text

pub record Queries (W : Type 0) : Type 0 where
  pub load_checkpoint : Text → Call W LoadCheckpointRow
  pub save_checkpoint : SaveCheckpointParams → Call W (Unit {0})

-- `pgx.ErrNoRows`
abbrev pub no_rows : Text
no_rows = lit "no rows in result set"

abbrev pub max_int64 : ℕ
max_int64 = 2 ^ 63 - 1

-- `uint64(n)` of an `int64`.
abbrev pub to_uint64 : ℤ → ℕ
to_uint64 (pos n) = n
to_uint64 (negsuc n) = 2 ^ 64 - 1 - n

abbrev pub time_or_zero : Option Time → Time
time_or_zero none = zero_time
time_or_zero (some t) = t

abbrev pub cursor_at : Option ℤ → Text → Cursor
cursor_at none last_id = zero_cursor
cursor_at (some n) last_id = record zero_cursor { transaction_id = to_uint64 n; last_id = last_id }

abbrev pub progress_of : LoadCheckpointRow → Progress
progress_of row = record {
  cursor = record (cursor_at row.transaction_id row.last_id) {
    updated_through = time_or_zero row.updated_through;
  };
  saved_at = time_or_zero row.saved_at;
}

abbrev pub unread : Collection → GoError → GoError
unread col e =
    errf dependency_unavailable (lit "postgres.LoadCheckpoint") (some e)
      (lit "reading the %s cursor") (str (collection_name col) ∷ [])

abbrev pub loaded : Collection → Result LoadCheckpointRow → Result Progress
loaded col (ok row) = ok (progress_of row)
loaded col (err e) =
    if error_is no_rows e
    then ok (record { cursor = zero_cursor; saved_at = zero_time })
    else err (unread col e)

abbrev pub too_large : Collection → Cursor → GoError
too_large col cur =
    errf dependency_unavailable (lit "postgres.SaveCheckpoint") none
      (lit "the %s cursor names transaction %d, beyond what the checkpoint can store")
      (str (collection_name col) ∷ num (pos cur.transaction_id) ∷ [])

abbrev pub unsaved : Collection → GoError → GoError
unsaved col e =
    errf dependency_unavailable (lit "postgres.SaveCheckpoint") (some e)
      (lit "saving the %s cursor") (str (collection_name col) ∷ [])

abbrev pub params_of : Collection → Cursor → SaveCheckpointParams
params_of col cur = record {
  collection = collection_name col;
  transaction_id = some (pos cur.transaction_id);
  updated_through = some cur.updated_through;
  last_id = cur.last_id;
}

module _ {W : Type 0} (queries : Queries W) where
  unfoldable pub load : Collection → Call W Progress
  load col w = let (r, w') = queries.load_checkpoint (collection_name col) w in (loaded col r, w')

  unfoldable pub save : Collection → Cursor → Call W (Unit {0})
  save col cur w =
      if ltb max_int64 cur.transaction_id
      then (err (too_large col cur), w)
      else handling (unsaved col) (queries.save_checkpoint (params_of col cur)) w

  abbrev pub checkpoint : Checkpoint W
  checkpoint = record { load = load; save = save }

-- The pool and its transactions: `hold_collection` takes the advisory lock.
pub record Pool (W X : Type 0) : Type 0 where
  pub begin : Call W X
  pub hold_collection : X → Text → Call W (Unit {0})
  pub rollback : X → W → W

abbrev pub unopened : Collection → GoError → GoError
unopened col e =
    errf dependency_unavailable (lit "postgres.Lock") (some e)
      (lit "opening a transaction for the %s lock") (str (collection_name col) ∷ [])

abbrev pub unheld : Collection → GoError → GoError
unheld col e =
    errf dependency_unavailable (lit "postgres.Lock") (some e) (lit "waiting for the %s lock")
      (str (collection_name col) ∷ [])

module _ {W X : Type 0} (pool : Pool W X) where
  -- The function that `Hold` returns, on its transaction.
  unfoldable pub release : X → W → W
  release tx w = pool.rollback tx w

  abbrev pub held : Collection → X → Result (Unit {0}) → Call W X
  unfolding release
  held col tx (ok _) w = (ok tx, w)
  held col tx (err e) w = (err (unheld col e), release tx w)

  abbrev pub within : Collection → Result X → Call W X
  within col (err e) w = (err (unopened col e), w)
  within col (ok tx) w =
      let (r, w') = pool.hold_collection tx (collection_name col) w in held col tx r w'

  unfoldable pub hold : Collection → Call W X
  hold col w = let (r, w') = pool.begin w in within col r w'
