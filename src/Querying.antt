-- ===== src/Querying.antt =====
-- internal/querying/finder.go: a search over one collection, with how fresh its index is.
pub mod Laws
use kinetix_search_service.Common.{
  Bool, true, false, ◌&&◌, none, List, [], Text, lit, is_empty, ltb_ℤ, ok, err, if◌then◌else◌,
}
use kinetix_search_service.Search.Errors.{Result, GoError, errf, malformed_query}
use kinetix_search_service.Search.Time.{Time, Duration, zero_time, is_zero_time, time_sub}
use kinetix_search_service.Search.Call.{Call, pure, raise, continue, ◌>>=◌}
use kinetix_search_service.Search.Identifier.{is_zero_id, merchant_identifier}
use kinetix_search_service.Search.Document.{Collection, orders, Progress, Freshness, Results}
use kinetix_search_service.Search.Query.{Query, SuggestQuery}
use kinetix_search_service.Search.Service.{Searcher, Checkpoint, Clock}

pub record Finder (F W D : Type 0) : Type 0 where
  pub collection : Collection
  pub searcher : Searcher F W D
  pub checkpoint : Checkpoint W
  pub clock : Clock W
  pub stale_after : Duration

abbrev pub is_orders : Collection → Bool
is_orders orders = true
is_orders c = false

abbrev pub never_synced : Freshness
never_synced = record { synced = false; indexed_through = zero_time; age = zero_time; stale = true }

-- What `freshness` reports for an age.
abbrev pub aged : Progress → Duration → Duration → Freshness
aged progress stale_after age = record {
  synced = true;
  indexed_through = progress.cursor.updated_through;
  age = age;
  stale = ltb_ℤ stale_after age;
}

abbrev pub unattended : GoError
unattended =
    errf malformed_query (lit "querying.Find") none
      (lit "orders may only be searched on behalf of a principal") []

abbrev pub private_orders : GoError
private_orders =
    errf malformed_query (lit "querying.Suggest") none
      (lit "orders are private and are not suggested") []

module _ {F W D : Type 0} (f : Finder F W D) where
  abbrev pub read_clock : Progress → Time × W → Result Freshness × W
  read_clock progress (now, w) =
      (ok (aged progress f.stale_after (time_sub now progress.saved_at)), w)

  -- The clock is read only if there is a saved time to compare it with.
  unfoldable pub freshness : Progress → Call W Freshness
  freshness progress w =
      if is_zero_time progress.saved_at
      then (ok never_synced, w)
      else read_clock progress (f.clock.now w)

  -- The part of `Find` past its guard.
  unfoldable pub found : Query → Call W (Results F D)
  unfolding freshness
  found q = do
    results ← f.searcher.search_docs q
    progress ← f.checkpoint.load f.collection
    fresh ← freshness progress
    pure (record results { freshness = fresh })

  unfoldable pub find : Query → Call W (Results F D)
  find q = if is_orders f.collection && is_zero_id q.on_behalf_of then raise unattended else found q

  unfoldable pub suggest : SuggestQuery → Call W (List Text)
  suggest q =
      if is_orders f.collection
      then raise private_orders
      else if is_empty q.prefix
      then pure []
      else f.searcher.suggest q
