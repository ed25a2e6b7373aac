-- ===== src/Indexing/Syncer.antt =====
-- internal/indexing/syncer.go: one run of the incremental sync. What the run logs is not modelled.
-- The loop takes fuel, one unit a page: a source can claim more pages for ever. `none` means that
-- the fuel ran out.
pub mod Protocol
pub mod Runs
use kinetix_search_service.Common.{
  ℕ, ℤ, zero, suc, Bool, true, false, Option, none, some, List, [], nonempty, ok, err,
}
use kinetix_search_service.Search.Errors.{Result, GoError}
use kinetix_search_service.Search.Call.{Call, pure, continue, ◌>>=◌, ◌>>◌, when}
use kinetix_search_service.Search.Document.{Collection, Generation, Cursor, Changes, Progress}
use kinetix_search_service.Search.Service.{Source, Index, Checkpoint, Lock}

pub record Syncer (W D : Type 0) : Type 0 where
  pub collection : Collection
  pub source : Source W D
  pub index : Index W D
  pub checkpoint : Checkpoint W
  pub lock : Lock W
  pub page_size : ℤ

-- Where the loop starts.
pub record Start : Type 0 where
  pub cur : Cursor
  pub gen : Generation

module _ {W D : Type 0} (s : Syncer W D) where
  -- The body of the loop, up to the test of `HasMore`.
  unfoldable pub sync_page : Generation → Cursor → Call W (Changes D)
  sync_page gen cur = do
    changes ← s.source.changed_since cur s.page_size
    when (nonempty changes.upserted) (s.index.bulk gen changes.upserted)
    when (nonempty changes.removed) (s.index.remove gen changes.removed)
    s.checkpoint.save s.collection changes.next
    pure changes

  -- The end of the body: the error, the next page, or the end of the loop.
  abbrev pub turn :
      (Cursor → W → Option (Result (Unit {0}) × W))
      → Result (Changes D)
      → W
      → Option (Result (Unit {0}) × W)
  turn rest (err e) w = some (err e, w)
  turn rest (ok changes) w = elim changes.has_more [
    | true ↦ rest changes.next w
    | false ↦ some (ok tt, w)
  ]

  unfoldable pub sync_loop : ℕ → Generation → Cursor → W → Option (Result (Unit {0}) × W)
  sync_loop zero gen cur w = none
  sync_loop (suc fuel) gen cur w =
      let (r, w') = sync_page gen cur w in turn (sync_loop fuel gen) r w'

  -- From the checkpoint and the live generation to the first page.
  unfoldable pub position : Call W Start
  position = do
    progress ← s.checkpoint.load s.collection
    gen ← s.index.live
    pure (record { cur = progress.cursor; gen = gen })

  abbrev pub from_start : ℕ → Result Start → W → Option (Result (Unit {0}) × W)
  from_start fuel (err e) w = some (err e, w)
  from_start fuel (ok start) w = sync_loop fuel start.gen start.cur w

  -- What runs under the lock.
  unfoldable pub sync_held : ℕ → W → Option (Result (Unit {0}) × W)
  sync_held fuel w = let (r, w') = position w in from_start fuel r w'

  abbrev pub let_go : Option (Result (Unit {0}) × W) → Option (Result (Unit {0}) × W)
  let_go none = none
  let_go (some (r, w)) = some (r, s.lock.release s.collection w)

  abbrev pub under_lock : ℕ → Result (Unit {0}) → W → Option (Result (Unit {0}) × W)
  under_lock fuel (err e) w = some (err e, w)
  under_lock fuel (ok _) w = let_go (sync_held fuel w)

  -- `Once`: the deferred release runs on every return past `Hold`.
  unfoldable pub once : ℕ → W → Option (Result (Unit {0}) × W)
  once fuel w = let (r, w') = s.lock.hold s.collection w in under_lock fuel r w'
