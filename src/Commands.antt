-- ===== src/Commands.antt =====
-- cmd/reindex/main.go: which collections an invocation rebuilds. The three reindexers are calls;
-- the container that makes them, the signals, the times in the log and the exit status are not
-- modelled.
pub mod Syncd
pub mod Migrate
pub mod Searchd
pub mod Laws
use kinetix_search_service.Common.{List, [], ◌∷◌, none, Text, lit, text_eq, if◌then◌else◌, ok, err}
use kinetix_search_service.Search.Errors.{Result, GoError, errf, malformed_query, str}
use kinetix_search_service.Search.Call.{Call, pure, raise, continue, ◌>>=◌, ◌>>◌}
use kinetix_search_service.Search.Document.{
  Collection, products, merchants, orders, unnamed, collection_name,
}

abbrev pub no_such : Text → GoError
no_such arg =
    errf malformed_query (lit "reindex.arguments") none
      (lit "usage: reindex <products|merchants|orders|all>, not %q") (str arg ∷ [])

unfoldable pub wanted : Text → Result (List Collection)
unfolding collection_name
wanted arg =
    if text_eq arg (collection_name products)
    then ok (products ∷ [])
    else if text_eq arg (collection_name merchants)
    then ok (merchants ∷ [])
    else if text_eq arg (collection_name orders)
    then ok (orders ∷ [])
    else if text_eq arg (lit "all")
    then ok (products ∷ merchants ∷ orders ∷ [])
    else err (no_such arg)

abbrev pub usage : GoError
usage =
    errf malformed_query (lit "reindex.arguments") none
      (lit "usage: reindex <products|merchants|orders|all>") []

-- `Run` of the reindexer of each collection.
pub record Reindexers (W : Type 0) : Type 0 where
  pub run_products : Call W (Unit {0})
  pub run_merchants : Call W (Unit {0})
  pub run_orders : Call W (Unit {0})

abbrev pub no_source : Text → GoError
no_source name =
    errf malformed_query (lit "reindex.rebuild") none (lit "no source for collection %q")
      (str name ∷ [])

module _ {W : Type 0} (r : Reindexers W) where
  unfoldable pub rebuild : Collection → Call W (Unit {0})
  rebuild products = r.run_products
  rebuild merchants = r.run_merchants
  rebuild orders = r.run_orders
  rebuild (unnamed s) = raise (no_source s)

  -- The loop over the collections, up to the first error.
  unfoldable pub rebuild_all : List Collection → Call W (Unit {0})
  unfolding rebuild
  rebuild_all [] = pure tt
  rebuild_all (c ∷ cs) = rebuild c >> rebuild_all cs

  abbrev pub rebuild_wanted : Result (List Collection) → Call W (Unit {0})
  rebuild_wanted (err e) = raise e
  rebuild_wanted (ok cs) = rebuild_all cs

  -- `run`, on the arguments past the name of the program.
  unfoldable pub run : List Text → Call W (Unit {0})
  run (arg ∷ []) = rebuild_wanted (wanted arg)
  run _ = raise usage
