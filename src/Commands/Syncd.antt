-- ===== src/Commands/Syncd.antt =====
-- cmd/syncd/main.go: the daemon that syncs the three collections at an interval. What ends the wait
-- after a round, the ticker or a signal, is a list of events; a run is one of Indexing/Syncer.antt, on
-- fuel, and `none` where the fuel ran out. The container, the closing of connections, the log and the
-- exit status are not modelled.
pub mod Laws
use kinetix_search_service.Search.Time.{Duration}
use kinetix_search_service.Common.{pos, ltb_ℤ, if◌then◌else◌, ℕ, Option, none, some, List, [], ◌∷◌}
use kinetix_search_service.Search.Errors.{Result}
use kinetix_search_service.Search.Document.{
  Collection, products, merchants, orders, ProductDoc, MerchantDoc, OrderDoc,
}
use kinetix_search_service.Indexing.Syncer.{Syncer, once}

abbrev pub Once : Type 0 → Type 0
Once W = W → Option (Result (Unit {0}) × W)

-- `collectionSync`
pub record CollectionSync (W : Type 0) : Type 0 where
  pub collection : Collection
  pub once : Once W

pub record Syncd (W : Type 0) : Type 0 where
  pub for_products : Syncer W ProductDoc
  pub for_merchants : Syncer W MerchantDoc
  pub placed : Syncer W OrderDoc
  pub sync_interval : Duration

pub data Event : Type 0 where
  tick done : Event

pub data Ended (W : Type 0) : Type 0 where
  -- `return nil` after `ctx.Done`.
  drained : W → Ended W
  -- `time.NewTicker` panics on an interval that is not positive.
  panicked : W → Ended W
  -- Every event is used up.
  waiting : W → Ended W
  -- A run has not returned.
  syncing : Ended W

module _ {W : Type 0} where
  abbrev pub settled_run : Option (Result (Unit {0}) × W) → Option W
  settled_run none = none
  settled_run (some (r, w)) = some w

  -- `runOnce`: an error is logged, or, if the context was cancelled, not even that.
  unfoldable pub run_once : CollectionSync W → W → Option W
  run_once r w = settled_run (r.once w)

  abbrev pub next_round : (W → Option W) → Option W → Option W
  next_round rest none = none
  next_round rest (some w) = rest w

  -- The loop over the collections.
  unfoldable pub round : List (CollectionSync W) → W → Option W
  unfolding run_once
  round [] w = some w
  round (r ∷ rs) w = next_round (round rs) (run_once r w)

  -- The `select` after a round.
  abbrev pub awaited : (W → Ended W) → Event → W → Ended W
  awaited again tick w = again w
  awaited again done w = drained w

  abbrev pub continued : (W → Ended W) → Option W → Ended W
  continued next none = syncing
  continued next (some w) = next w

  unfoldable pub rounds : List (CollectionSync W) → List Event → W → Ended W
  unfolding round
  rounds runs [] w = continued waiting (round runs w)
  rounds runs (e ∷ events) w = continued (awaited (rounds runs events) e) (round runs w)

  unfoldable pub runs_of : ℕ → Syncd W → List (CollectionSync W)
  runs_of fuel d =
      record { collection = products; once = once d.for_products fuel }
      ∷ record { collection = merchants; once = once d.for_merchants fuel }
      ∷ record { collection = orders; once = once d.placed fuel }
      ∷ []

  unfoldable pub loop : ℕ → Syncd W → List Event → W → Ended W
  unfolding rounds runs_of
  loop fuel d events w =
      if ltb_ℤ (pos 0) d.sync_interval then rounds (runs_of fuel d) events w else panicked w
