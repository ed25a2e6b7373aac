-- ===== src/Tests/Store.antt =====
-- Examples for internal/postgres, internal/config and cmd/reindex.
use kinetix_search_service.Common.{
  +ℤ_parts, ℕ, pos, ◌+◌, ◌*◌, ◌^◌, ◌≤◌, ◌≡◌, refl, some, [], ◌∷◌, lit, text_eq, ok, err, arith,
  if◌then◌else◌, trim_space, is_space, trim_left, trim_right,
}
use kinetix_search_service.Common.Strings.Numbers.{atoi}
use kinetix_search_service.Search.Errors.{foreign}
use kinetix_search_service.Search.Document.{products, collection_name}
use kinetix_search_service.Postgres.{Pool, save, hold}
use kinetix_search_service.Postgres.Table.{Database, queries}
use kinetix_search_service.Postgres.Laws.{IsKept, save-IsKept, Locks, hold-Locks}
use kinetix_search_service.Config.{Environment, number, duration}
use kinetix_search_service.Config.Laws.{duration-exact}
use kinetix_search_service.Tests.Samples.{noon, cursor_two}

-- A row that is a second ahead of the cursor.
abbrev table : Database
table = record {
  rows =
      record {
        collection = lit "products";
        transaction_id = some (pos 1);
        updated_through = pos (62_135_596_801 * 10 ^ 9 + 7 * 10 ^ 6);
        last_id = lit "p-1";
        saved_at = noon;
      }
      ∷ [];
  now = noon;
}

save-IsKept_example :
    (db : Database) × (save (queries (λ t. t)) products cursor_two table ≡ (ok tt, db))
    × IsKept (λ t. t) products cursor_two table db
unfolding collection_name
save-IsKept_example =
    save-IsKept (λ t. t)
      (record { below = λ t. omega arith; near = λ t. omega (arith, +ℤ_parts t (pos 999)) })
      products cursor_two table refl (omega arith, refl)

-- A pool that counts its open transactions, and whose lock is taken.
abbrev busy : Pool ℕ (Unit {0})
busy = record {
  begin = λ n. (ok tt, 1);
  hold_collection = λ tx name n. (err (foreign (lit "timeout")), n);
  rollback = λ tx n. 0;
}

hold-Locks_example : Locks busy products 0 (hold busy products 0).0 (hold busy products 0).1
hold-Locks_example = hold-Locks busy products 0

abbrev pub shell : Environment
shell name = if text_eq name (lit "SEARCH_SYNC_INTERVAL_MS") then lit " 1500 " else lit "x"

duration-exact_example :
    (n : ℕ) × (1 ≤ n)
    × (number shell (lit "SEARCH_SYNC_INTERVAL_MS") (pos 30_000) ≡ pos n)
    × (duration shell (lit "SEARCH_SYNC_INTERVAL_MS") 30_000 ≡ pos (n * 10 ^ 6))
unfolding number trim_space is_space trim_left trim_right atoi
duration-exact_example =
    duration-exact shell (lit "SEARCH_SYNC_INTERVAL_MS") 30_000 (omega arith) (omega arith)
