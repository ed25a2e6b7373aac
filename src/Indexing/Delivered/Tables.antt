-- ===== src/Indexing/Delivered/Tables.antt =====
-- The checkpoint of internal/postgres/checkpoint.go is one that the runs can rely on: it stands over
-- its table, and the table is a part of the world.
use kinetix_search_service.Common.{
  true, ◌≡◌, refl, sym, ap, ◌∙◌, Option, none, some, ltb, false, arith,
}
use kinetix_search_service.Search.Call.{Call}
use kinetix_search_service.Search.Time.{Time}
use kinetix_search_service.Search.Document.{Collection, collection_name, Cursor}
use kinetix_search_service.Postgres.{Queries, load, save, params_of, max_int64, checkpoint}
use kinetix_search_service.Postgres.Table.{
  SyncCheckpoint, Database, written, known_collection, queries, greatest,
}
use kinetix_search_service.Postgres.Laws.{
  progress_of_row, row_in, row_for-upsert, load-progress, save-kept, kept, IsStorable,
}
use kinetix_search_service.Indexing.Delivered.{Seen, cursor_of, Saves}

-- The saved cursor of a row.
abbrev pub cursor_of_row : Option SyncCheckpoint → Option Cursor
cursor_of_row none = none
cursor_of_row (some r) = some (progress_of_row (some r)).cursor

-- The table keeps of an instant what its column can hold, and never goes back.
abbrev pub keep_instant : (Time → Time) → Option Cursor → Cursor → Cursor
keep_instant stored none cur = record cur { updated_through = stored cur.updated_through }
keep_instant stored (some old) cur = record cur {
  updated_through = greatest old.updated_through (stored cur.updated_through);
}

progress-cursor :
    (o : Option SyncCheckpoint) → (progress_of_row o).cursor ≡ cursor_of (cursor_of_row o)
progress-cursor none = refl
progress-cursor (some r) = refl

module _ (stored : Time → Time) where
  kept-cursor :
      (c : Collection) (cur : Cursor) (db : Database)
      → cursor_of_row (row_in (kept stored c cur db) c)
        ≡ some (keep_instant stored (cursor_of_row (row_in db c)) cur)
  kept-cursor c cur db =
      ap cursor_of_row (
        row_for-upsert (collection_name c)
          (written stored (params_of c cur) cur.updated_through db.now) (λ old. refl) db.rows)
      ∙ written_cursor (row_in db c)
    where
      written_cursor :
          (o : Option SyncCheckpoint)
          → cursor_of_row (some (written stored (params_of c cur) cur.updated_through db.now o))
            ≡ some (keep_instant stored (cursor_of_row o) cur)
      written_cursor none = refl
      written_cursor (some r) = refl

-- A call of the table, in a world that it is a part of.
abbrev pub on_table :
    {W A : Type 0} → (W → Database) → (Database → W → W) → Call Database A → Call W A
on_table table set m w = let (r, db) = m (table w) in (r, set db w)

module _ {W F : Type 0} (view : W → Seen F) (table : W → Database) (set : Database → W → W)
    (stored : Time → Time) (c : Collection)
    (reads : (w : W) → (view w).saved ≡ cursor_of_row (row_in (table w) c))
    (sets : (w : W) (db : Database)
      → view (set db w) ≡ record (view w) { saved = cursor_of_row (row_in db c) }) where
  abbrev pub world_queries : Queries W
  world_queries = record {
    load_checkpoint = λ col. on_table table set ((queries stored).load_checkpoint col);
    save_checkpoint = λ p. on_table table set ((queries stored).save_checkpoint p);
  }

  -- The checkpoint of the table, for one of the collections that it knows.
  pub table-Saves :
      known_collection (collection_name c) ≡ true
      → Saves view (checkpoint world_queries) c (keep_instant stored) IsStorable
  unfolding load save
  table-Saves known = record {
    loads = λ s w seen.
        let db = table w in
        (
          progress_of_row (row_in db c),
          set db w,
          ap (λ p. (p.0, set p.1 w)) (load-progress stored c db),
          progress-cursor (row_in db c) ∙ ap cursor_of (sym (reads w) ∙ ap Seen.saved seen),
          sets w db ∙ (λ i. record (view w) { saved = sym (reads w) i }) ∙ seen,
        );
    saves = λ s cur fits. record {
      at = λ w seen.
          let db = table w in
          let small : ltb max_int64 cur.transaction_id ≡ false = ground (arith, fits.0) in
          (
            set (kept stored c cur db) w,
            rw (small) (
                ap (λ p. (p.0, set p.1 w))
                  (rw (save, small) at (save-kept stored c cur db known fits))),
            sets w (kept stored c cur db)
                ∙ (λ i. record (seen i) { saved = kept-cursor stored c cur db i })
                ∙ (λ i. record s {
                  saved = some (keep_instant stored ((sym (reads w) ∙ ap Seen.saved seen) i) cur);
                }),
          );
    };
  }
