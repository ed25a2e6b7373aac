-- ===== src/Indexing/Reindexer.antt =====
-- internal/indexing/reindexer.go: a rebuild of a collection into a new generation. What the run
-- logs is not modelled. The walk takes fuel, one unit a page, as in Indexing/Syncer.antt.
pub mod Counts
pub mod Protocol
pub mod Walks
pub mod Runs
use kinetix_search_service.Common.{
  ℕ, ℤ, pos, zero, suc, Bool, true, false, Option, none, some, List, [], ◌∷◌, ◌++◌, length,
  nonempty, ok, err, ◌+ℤ◌, ◌-ℤ◌, ltb_ℤ, wrap64, Text, lit, decimal, if◌then◌else◌,
}
use kinetix_search_service.Search.Errors.{Result, GoError, errf, index_unavailable, str, num}
use kinetix_search_service.Search.Time.{Time, unix_seconds}
use kinetix_search_service.Search.Call.{Call, pure, raise, continue, ◌>>=◌, ◌>>◌, when}
use kinetix_search_service.Search.Document.{
  Collection, collection_name, Generation, Cursor, Changes, zero_cursor,
}
use kinetix_search_service.Search.Service.{Source, Index, Checkpoint, Lock, Counter, Clock}

-- `counter` is what the assertion `source.(search.Counter)` yields.
pub record Reindexer (W D : Type 0) : Type 0 where
  pub collection : Collection
  pub source : Source W D
  pub counter : Option (Counter W)
  pub index : Index W D
  pub checkpoint : Checkpoint W
  pub lock : Lock W
  pub clock : Clock W
  pub page_size : ℤ

-- The variables of the walk.
pub record Walk : Type 0 where
  pub sent : ℤ
  pub refused : ℤ
  pub cur : Cursor

abbrev pub start_walk : Walk
start_walk = record { sent = pos 0; refused = pos 0; cur = zero_cursor }

unfoldable pub generation_name : Collection → ℤ → Generation
generation_name c unix = collection_name c ++ (lit "_v" ++ decimal unix)

unfoldable pub reporter : Bool → Text
reporter true = lit "the source"
reporter false = lit "the walk"

abbrev pub countable : Option ℤ → Bool
countable (some total) = true
countable none = false

-- How many documents the generation must hold, given what the source counted, if it counts.
unfoldable pub expected_of : Option ℤ → Walk → ℤ
expected_of (some total) walk = wrap64 (total -ℤ walk.refused)
expected_of none walk = walk.sent

abbrev pub advanced : {D : Type 0} → Walk → Changes D → Walk
advanced walk changes = record {
  sent =
      if nonempty changes.upserted
      then wrap64 (walk.sent +ℤ pos (length changes.upserted))
      else walk.sent;
  refused = wrap64 (walk.refused +ℤ pos (length changes.refused));
  cur = changes.next;
}

module _ {W D : Type 0} (r : Reindexer W D) where
  abbrev pub count_by : Option (Counter W) → Call W (Option ℤ)
  count_by none = pure none
  count_by (some c) = do total ← c.count; pure (some total)

  unfoldable pub count_source : Call W (Option ℤ)
  count_source = count_by r.counter

  -- The body of the loop, up to the test of `HasMore`.
  unfoldable pub walk_page : Generation → Walk → Call W (Changes D)
  walk_page gen walk = do
    changes ← r.source.changed_since walk.cur r.page_size
    when (nonempty changes.upserted) (r.index.bulk gen changes.upserted)
    pure changes

  -- The end of the body: the error, the next page, or the end of the loop.
  abbrev pub turn :
      (Walk → W → Option (Result Walk × W))
      → Walk
      → Result (Changes D)
      → W
      → Option (Result Walk × W)
  turn rest walk (err e) w = some (err e, w)
  turn rest walk (ok changes) w = elim changes.has_more [
    | true ↦ rest (advanced walk changes) w
    | false ↦ some (ok (advanced walk changes), w)
  ]

  unfoldable pub walk_loop : ℕ → Generation → Walk → W → Option (Result Walk × W)
  walk_loop zero gen walk w = none
  walk_loop (suc fuel) gen walk w =
      let (a, w') = walk_page gen walk w in turn (walk_loop fuel gen) walk a w'

  abbrev pub too_few : Generation → ℤ → Option ℤ → ℤ → GoError
  too_few gen indexed total expected =
      errf index_unavailable (lit "indexing.Reindex") none
        (lit "generation %s holds %d documents, %s reported %d")
        (str gen ∷ num indexed ∷ str (reporter (countable total)) ∷ num expected ∷ [])

  -- What runs under the lock.
  unfoldable pub switch : Generation → Cursor → Call W (Unit {0})
  switch gen cur = do r.index.promote gen; r.checkpoint.save r.collection cur

  abbrev pub under_lock : Call W (Unit {0}) → Call W (Unit {0})
  under_lock m w = let (a, w') = m w in (a, r.lock.release r.collection w')

  -- The check of the count, and the switch.
  unfoldable pub verify : Generation → Option ℤ → Walk → ℤ → Call W (Unit {0})
  verify gen total walk indexed =
      if ltb_ℤ indexed (expected_of total walk)
      then raise (too_few gen indexed total (expected_of total walk))
      else (r.lock.hold r.collection >> under_lock (switch gen walk.cur))

  -- From the end of the walk to the return.
  unfoldable pub finish : Generation → Option ℤ → Walk → Call W (Unit {0})
  finish gen total walk = do indexed ← r.index.count_in gen; verify gen total walk indexed

  -- From the start to the walk.
  unfoldable pub prepare : Generation → Call W (Option ℤ)
  prepare gen = do r.index.create_generation gen; count_source

  abbrev pub finished :
      Generation → Option ℤ → Option (Result Walk × W) → Option (Result (Unit {0}) × W)
  finished gen total none = none
  finished gen total (some (err e, w)) = some (err e, w)
  finished gen total (some (ok walk, w)) = some (finish gen total walk w)

  abbrev pub from_total : ℕ → Generation → Result (Option ℤ) → W → Option (Result (Unit {0}) × W)
  from_total fuel gen (err e) w = some (err e, w)
  from_total fuel gen (ok total) w = finished gen total (walk_loop fuel gen start_walk w)

  unfoldable pub rebuild : ℕ → Generation → W → Option (Result (Unit {0}) × W)
  rebuild fuel gen w = let (a, w') = prepare gen w in from_total fuel gen a w'

  -- `Run`.
  unfoldable pub run : ℕ → W → Option (Result (Unit {0}) × W)
  run fuel w =
      let (now, w') = r.clock.now w in
      rebuild fuel (generation_name r.collection (unix_seconds now)) w'
