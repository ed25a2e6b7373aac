-- ===== src/Tests/Indexing.antt =====
-- Examples for internal/indexing: two pages into an empty index.
use kinetix_search_service.Common.{pos, decimal, wrap64, ◌+ℤ◌, true, refl, [], ok}
use kinetix_search_service.Search.Time.{unix_seconds}
use kinetix_search_service.Search.Document.{ProductDoc, collection_name, products}
use kinetix_search_service.Indexing.Recorded.{Noted}
use kinetix_search_service.Indexing.Syncer.{once, sync_held, position, sync_loop, sync_page}
use kinetix_search_service.Indexing.Syncer.Protocol.{Follows, closed, noted}
use kinetix_search_service.Indexing.Syncer.Runs.{once-Follows}
use kinetix_search_service.Indexing.Reindexer.{
  run, generation_name, rebuild, prepare, count_source, walk_loop, walk_page, finish, verify,
  switch, expected_of,
}
use kinetix_search_service.Indexing.Reindexer.Runs.{run-Follows}
use kinetix_search_service.Indexing.Reindexer.Protocol as Rebuild
use kinetix_search_service.Indexing.Memory.{memory_syncer, Memory}
use kinetix_search_service.Tests.Samples.{ended, feed, key, size, memory, reindexer, noon}

abbrev start : Noted (Memory ProductDoc) ProductDoc
start = record { world = memory; trace = [] }

abbrev synced : Noted (Memory ProductDoc) ProductDoc
synced = ended start (once (noted (memory_syncer key size feed products (pos 100))) 3 start)

once-Follows_example : Follows products synced.trace (closed true)
unfolding once sync_held position sync_loop sync_page
once-Follows_example =
    once-Follows (memory_syncer key size feed products (pos 100)) 3 memory {r = ok tt} {n = synced}
      refl

abbrev rebuilt : Noted (Memory ProductDoc) ProductDoc
rebuilt = ended start (run (Rebuild.noted reindexer) 3 start)

run-Follows_example :
    Rebuild.Follows products
      (generation_name products (unix_seconds noon))
      rebuilt.trace
      (Rebuild.closed true)
unfolding run rebuild prepare count_source walk_loop walk_page finish verify switch expected_of
    generation_name collection_name decimal unix_seconds wrap64 ◌+ℤ◌
run-Follows_example = run-Follows reindexer 3 memory {a = ok tt} {n = rebuilt} refl
