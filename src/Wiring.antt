-- ===== src/Wiring.antt =====
-- internal/wiring: what each provider of the container makes of the configuration and of what other
-- providers made. The container calls each provider once, with its results as arguments of the others;
-- here they are arguments of functions. The libraries that make connections, pools and servers are
-- parameters; the health and reflection services of the gRPC server are theirs, and not modelled.
pub mod Sources
pub mod Serving
pub mod Laws
use kinetix_search_service.Common.{Option, List, Text, Floats, lit, some, [], ok, err}
use kinetix_search_service.Search.Errors.{Result, GoError, errf, dependency_unavailable}
use kinetix_search_service.Search.Time.{Duration}
use kinetix_search_service.Search.Document.{
  Collection, products, merchants, orders, ProductDoc, MerchantDoc, OrderDoc,
}
use kinetix_search_service.Search.Service.{Index, Source, Counter, Checkpoint, Lock, Clock}
use kinetix_search_service.Config.{Config}
use kinetix_search_service.Querying.{Finder}
use kinetix_search_service.Indexing.Syncer.{Syncer}
use kinetix_search_service.Indexing.Reindexer.{Reindexer}
use kinetix_search_service.Typesense.Engine.{Engine}
use kinetix_search_service.Typesense.Client.{Settings, connect}
use kinetix_search_service.Typesense.Documents.{
  encode_product, encode_merchant, encode_order, decode_product,
}
use kinetix_search_service.Typesense.Index.{index}
use kinetix_search_service.Typesense.Searcher.{searcher}
use kinetix_search_service.Postgres.{Queries, checkpoint, Pool, hold}
use kinetix_search_service.Search.Call.{Call}

-- `provideEngine`, on `typesense.NewClient`.
unfoldable pub provide_engine : {C : Type 0} → (Text → Text → Duration → C) → Config → Result C
unfolding connect
provide_engine new_client cfg = connect new_client (record {
  url = cfg.typesense_url;
  api_key = cfg.typesense_api_key;
  timeout = cfg.typesense_timeout;
})

pub record Indexes (W : Type 0) : Type 0 where
  pub for_products : Index W ProductDoc
  pub for_merchants : Index W MerchantDoc
  pub for_orders : Index W OrderDoc

unfoldable pub provide_indexes : {W F : Type 0} → Engine W F → Indexes W
provide_indexes engine = record {
  for_products = index engine products encode_product;
  for_merchants = index engine merchants encode_merchant;
  for_orders = index engine orders encode_order;
}

unfoldable pub provide_product_finder :
    {W F : Type 0} → Floats F → Config → Engine W F → Checkpoint W → Clock W → Finder F W ProductDoc
provide_product_finder fl cfg engine saved clock = record {
  collection = products;
  searcher = searcher fl engine products (decode_product fl);
  checkpoint = saved;
  clock = clock;
  stale_after = cfg.stale_after;
}

pub record IndexingResult (W D : Type 0) : Type 0 where
  pub syncer : Syncer W D
  pub reindexer : Reindexer W D

-- `provideIndexing`; the counter is the source, if it counts.
unfoldable pub provide_indexing :
    {W D : Type 0}
    → Collection
    → Config
    → Source W D
    → Option (Counter W)
    → Index W D
    → Checkpoint W
    → Lock W
    → Clock W
    → IndexingResult W D
provide_indexing collection cfg source counter ix saved lock clock = record {
  syncer = record {
    collection = collection;
    source = source;
    index = ix;
    checkpoint = saved;
    lock = lock;
    page_size = cfg.sync_page_size;
  };
  reindexer = record {
    collection = collection;
    source = source;
    counter = counter;
    index = ix;
    checkpoint = saved;
    lock = lock;
    clock = clock;
    page_size = cfg.sync_page_size;
  };
}

-- `providePool`, on `pgxpool.New`.
abbrev pub pooled : {P : Type 0} → Result P → Result P
pooled (ok pool) = ok pool
pooled (err e) =
    err (errf dependency_unavailable (lit "wiring.database") (some e) (lit "connecting") [])

unfoldable pub provide_pool : {P : Type 0} → (Text → Result P) → Config → Result P
provide_pool new_pool cfg = pooled (new_pool cfg.database_url)

-- `provideStore`; `Hold` yields the transaction that its release ends.
pub record Store (W X : Type 0) : Type 0 where
  pub saved : Checkpoint W
  pub holding : Collection → Call W X

unfoldable pub provide_store : {W X : Type 0} → Queries W → Pool W X → Store W X
provide_store queries pool = record { saved = checkpoint queries; holding = hold pool }
