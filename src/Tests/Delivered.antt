-- ===== src/Tests/Delivered.antt =====
-- Examples for the syncer and the reindexer on the engine's index: an engine that holds the documents itself, which
-- answers 404 to the deletion of what it does not hold.
use kinetix_search_service.Common.{
  Bool, if◌then◌else◌, decimal, ℤ, pos, true, false, ◌≡◌, refl, ap, Option, none, some, List, ◌+ℤ◌,
  [], ◌∷◌, All, ok, err, lit, Text, text_eq, arith,
}
use kinetix_search_service.Search.Errors.{Result, http_error, http_status}
use kinetix_search_service.Search.Document.{
  Generation, collection_name, ProductDoc, Changes, products, zero_cursor,
}
use kinetix_search_service.Search.Service.{Source, Checkpoint, Lock}
use kinetix_search_service.Indexing.Syncer.{once}
use kinetix_search_service.Indexing.Memory.{last_page, and_then}
use kinetix_search_service.Indexing.Delivered.{
  Seen, stored, written, with_generation, Stores, Answers, Saves, Excludes,
}
use kinetix_search_service.Postgres as Postgres
use kinetix_search_service.Postgres.Table.{Database, row_for}
use kinetix_search_service.Postgres.Laws.{row_in, IsStorable}
use kinetix_search_service.Search.Time.{Time}
use kinetix_search_service.Indexing.Memory.{Chain, Docs, Write, replay}
use kinetix_search_service.Indexing.Delivered.{cursor_of}
use kinetix_search_service.Indexing.Delivered.Tables.{
  cursor_of_row, keep_instant, world_queries, table-Saves,
}
use kinetix_search_service.Indexing.Delivered.Indexed.{product-IsNamed}
use kinetix_search_service.Indexing.Delivered.Runs.{index_syncer, IsDelivered, once-IsDelivered}
use kinetix_search_service.Indexing.Reindexer.{run, generation_name}
use kinetix_search_service.Indexing.Delivered.Rebuilds.{IsCounting, index_reindexer, Replaced}
use kinetix_search_service.Indexing.Delivered.Rebuilds.Ends.{run-Replaced}
use kinetix_search_service.Search.Time.{unix_seconds}
use kinetix_search_service.Typesense.Documents.{Document, encode_product}
use kinetix_search_service.Typesense.Engine.{Engine, ImportResult, not_found}
use kinetix_search_service.Typesense.Index.Laws.{IsAccepted, IsGone}
use kinetix_search_service.Tests.Samples.{
  clock, counter, feed, page_one, page_two, cursor_one, noon,
}

-- The engine's part of the world, the lock, and the database of the checkpoint.
record Shop : Type 0 where
  made : Generation → Bool
  docs : Docs (Document ℤ)
  alias : Generation
  held : Bool
  database : Database

abbrev view : Shop → Seen ℤ
view w = record {
  made = w.made;
  docs = w.docs;
  alias = w.alias;
  saved = cursor_of_row (row_in w.database products);
  held = w.held;
}

abbrev filled : Generation → List (Write (Document ℤ)) → Shop → Shop
filled g ws w = record w { docs = replay g ws w.docs }

abbrev opened : Generation → Shop → Shop
opened g w = record w {
  made = λ h. if text_eq h g then true else w.made h;
  docs = λ h id. if text_eq h g then none else w.docs h id;
}

abbrev accepts : List (Document ℤ) → List (Option ImportResult)
accepts [] = []
accepts (d ∷ ds) = some (record { success = true; error_text = [] }) ∷ accepts ds

abbrev deletion : Option (Document ℤ) → Result (Unit {0})
deletion none = err (http_error 404)
deletion (some d) = ok tt

abbrev one_if : Option (Document ℤ) → ℤ
one_if none = pos 0
one_if (some d) = pos 1

-- The catalog has two products.
abbrev tally : (Text → Option (Document ℤ)) → ℤ
tally docs = one_if (docs (lit "p-1")) +ℤ one_if (docs (lit "p-2"))

abbrev engine : Engine Shop ℤ
engine = record {
  search_in = λ g p s. (err (http_error 500), s);
  create = λ schema s. (ok tt, opened schema.name s);
  import_into = λ g action ds s. (ok (accepts ds), filled g (stored ds) s);
  delete = λ g id s. (deletion (s.docs g id), filled g ((id, none) ∷ []) s);
  count_documents = λ g s. (ok (some (tally (s.docs g))), s);
  upsert_alias = λ name g s. (ok tt, record s { alias = g });
  alias_target = λ name s. (ok s.alias, s);
}

accepts-IsAccepted : (ds : List (Document ℤ)) → All IsAccepted (accepts ds)
accepts-IsAccepted [] = tt
accepts-IsAccepted (d ∷ ds) = (refl, accepts-IsAccepted ds)

deletion-IsGone : (o : Option (Document ℤ)) → IsGone (deletion o)
unfolding not_found http_status
deletion-IsGone none = refl
deletion-IsGone (some d) = tt

abbrev source : Source Shop ProductDoc
source = record { changed_since = λ cur limit s. (ok (feed cur), s) }

-- A column that keeps an instant as it is.
abbrev as_is : Time → Time
as_is t = t

abbrev table_set : Database → Shop → Shop
table_set db w = record w { database = db }

abbrev checkpoint : Checkpoint Shop
checkpoint =
    Postgres.checkpoint
      (world_queries view Shop.database table_set as_is products (λ w. refl) (λ w db. refl))

abbrev lock : Lock Shop
lock = record {
  hold = λ c s. (ok tt, record s { held = true });
  release = λ c s. record s { held = false };
}

stores : Stores view engine products tally
stores = record {
  results = λ s ds. accepts ds;
  accepted = λ s ds named. accepts-IsAccepted ds;
  imports = λ s g ds made named. record {
    at = λ w seen. (filled g (stored ds) w, refl, ap (written g (stored ds)) seen);
  };
  deletes = λ s g id w made seen. (
    deletion (w.docs g id),
    filled g ((id, none) ∷ []) w,
    refl,
    deletion-IsGone (w.docs g id),
    ap (written g ((id, none) ∷ [])) seen,
  );
  points = λ s. record { at = λ w seen. (w, ap (λ v. (ok v.alias, w)) seen, seen) };
  creates = λ s schema fresh. record {
    at = λ w seen. (opened schema.name w, refl, ap (with_generation schema.name) seen);
  };
  counts = λ s g made. record {
    at = λ w seen. (w, ap (λ v. (ok (some (tally (v.docs g))), w)) seen, seen);
  };
  moves = λ s g made. record {
    at = λ w seen. (record w { alias = g }, refl, ap (λ (v : Seen ℤ). record v { alias = g }) seen);
  };
}

answers : Answers view source (pos 100) feed
answers = record { answers = λ s cur. record { at = λ w seen. (w, refl, seen) } }

saves : Saves view checkpoint products (keep_instant as_is) IsStorable
unfolding collection_name
saves = table-Saves view Shop.database table_set as_is products (λ w. refl) (λ w db. refl) refl

excludes : Excludes view lock products
excludes = record {
  holds = λ s. record {
    at = λ w seen.
        (record w { held = true }, refl, ap (λ (v : Seen ℤ). record v { held = true }) seen);
  };
  releases = λ s w seen. ap (λ (v : Seen ℤ). record v { held = false }) seen;
}

abbrev shop : Shop
shop = record {
  made = λ g. text_eq g (lit "products_v1");
  docs = λ g id. none;
  alias = lit "products_v1";
  database = record { rows = []; now = noon };
  held = false;
}

abbrev pages : List (Changes ProductDoc)
pages = page_one ∷ page_two ∷ []

chain : Chain feed (cursor_of (view shop).saved) pages
unfolding row_for
chain = and_then zero_cursor (page_two ∷ []) refl (last_page cursor_one refl)

once-IsDelivered_example :
    (n : Shop) × (once
        (index_syncer engine products encode_product source (pos 100) checkpoint lock)
        2
        shop
      ≡ some (ok tt, n))
    × IsDelivered encode_product (keep_instant as_is) pages (view shop) (view n)
once-IsDelivered_example =
    once-IsDelivered view encode_product product-IsNamed stores answers saves excludes 2 pages shop
      refl chain ((omega arith, refl), ((omega arith, refl), tt)) (omega arith)

counting : IsCounting view (some counter) (some (pos 2))
counting s = record { at = λ w seen. (w, refl, seen) }

abbrev tomorrow : Generation
tomorrow = generation_name products (unix_seconds noon)

is_fresh : shop.made tomorrow ≡ false
unfolding generation_name collection_name decimal unix_seconds
is_fresh = refl

run-Replaced_example :
    (r : Result (Unit {0})) × (n : Shop) × (run
        (index_reindexer engine products encode_product source
          (some counter)
          (pos 100)
          checkpoint
          lock
          clock)
        2
        shop
      ≡ some (r, n))
    × Replaced encode_product tally
        (keep_instant as_is)
        feed
        tomorrow
        (some (pos 2))
        pages
        (view shop)
        r
        (view n)
run-Replaced_example =
    run-Replaced view encode_product product-IsNamed (some counter) (some (pos 2)) clock stores
      answers counting saves excludes (λ w. refl) 2 pages shop tt is_fresh
      (and_then zero_cursor (page_two ∷ []) refl (last_page cursor_one refl)) (omega arith, refl)
      (omega arith)
