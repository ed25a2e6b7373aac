-- ===== src/Tests/Commands.antt =====
-- Examples for cmd/syncd and cmd/migrate.
use kinetix_search_service.Common.{ℕ, pos, ◌+◌, false, ◌≡◌, refl, [], ◌∷◌, lit, ok, err}
use kinetix_search_service.Search.Errors.{foreign}
use kinetix_search_service.Search.Document.{
  Collection, products, merchants, orders, ProductDoc, MerchantDoc, OrderDoc, zero_progress,
}
use kinetix_search_service.Search.Service.{Lock}
use kinetix_search_service.Indexing.Syncer.{Syncer, once, sync_held, sync_loop, sync_page, position}
use kinetix_search_service.Commands.Syncd.{Syncd, loop, drained, tick, done}
use kinetix_search_service.Commands.Syncd.Laws.{Returns, Rounds, loop-Rounds}
use kinetix_search_service.Commands.Migrate.{Goose, run}
use kinetix_search_service.Commands.Migrate.Laws.{Ends, run-Ends}

-- A world that counts the runs which got the lock. A syncer whose lock is free finds one empty page;
-- one whose lock is taken fails.
abbrev free : Lock ℕ
free = record { hold = λ c n. (ok tt, n + 1); release = λ c n. n }

abbrev taken : Lock ℕ
taken = record { hold = λ c n. (err (foreign (lit "taken")), n); release = λ c n. n }

abbrev idle : {D : Type 0} → Collection → Lock ℕ → Syncer ℕ D
idle c lock = record {
  collection = c;
  source = record {
    changed_since = λ cur limit n. (
      ok (record { upserted = []; removed = []; refused = []; next = cur; has_more = false }),
      n,
    );
  };
  index = record {
    create_generation = λ g n. (ok tt, n);
    bulk = λ g docs n. (ok tt, n);
    remove = λ g ids n. (ok tt, n);
    count_in = λ g n. (ok (pos 0), n);
    promote = λ g n. (ok tt, n);
    live = λ n. (ok (lit "v1"), n);
  };
  checkpoint = record { load = λ c n. (ok zero_progress, n); save = λ c cur n. (ok tt, n) };
  lock = lock;
  page_size = pos 100;
}

abbrev daemon : Syncd ℕ
daemon = record {
  for_products = idle products free;
  for_merchants = idle merchants taken;
  placed = idle orders free;
  sync_interval = pos 30_000_000_000;
}

free-Returns : (D : Type 0) (c : Collection) → Returns (once (idle {D = D} c free) 1)
unfolding once sync_held sync_loop sync_page position
free-Returns D c n = (ok tt, n + 1, refl)

taken-Returns : (D : Type 0) (c : Collection) → Returns (once (idle {D = D} c taken) 1)
unfolding once
taken-Returns D c n = (err (foreign (lit "taken")), n, refl)

loop-Rounds_example :
    (n : ℕ) × (loop 1 daemon (tick ∷ tick ∷ done ∷ []) 0 ≡ drained n)
    × Rounds
        (record { collection = products; once = once (idle {D = ProductDoc} products free) 1 }
          ∷ record {
            collection = merchants;
            once = once (idle {D = MerchantDoc} merchants taken) 1;
          }
          ∷ record { collection = orders; once = once (idle {D = OrderDoc} orders free) 1 }
          ∷ [])
        3
        0
        n
loop-Rounds_example =
    loop-Rounds 1 daemon 2 0 refl (free-Returns ProductDoc products)
      (taken-Returns MerchantDoc merchants) (free-Returns OrderDoc orders)

-- Three rounds, in each of which two runs got their lock.
rounds_counted : loop 1 daemon (tick ∷ tick ∷ done ∷ []) 0 ≡ drained 6
unfolding loop once sync_held sync_loop sync_page position
rounds_counted = refl

-- A database whose state is its version.
abbrev goose : Goose ℕ (Unit {0})
goose = record {
  open_database = λ url n. (ok tt, n);
  set_dialect = λ n. (ok tt, n);
  version = λ db n. (ok (pos n), n);
  up = λ db n. (ok tt, n + 2);
  close = λ db n. n;
}

run-Ends_example : Ends goose (lit "postgres://") 1 (run goose (lit "postgres://") 1)
run-Ends_example = run-Ends goose (lit "postgres://") 1

versions : run goose (lit "postgres://") 1 ≡ (ok (pos 1, pos 3), 3)
unfolding run
versions = refl
