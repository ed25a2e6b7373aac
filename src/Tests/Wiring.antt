-- ===== src/Tests/Wiring.antt =====
-- Examples for internal/wiring.
use kinetix_search_service.Common.{ℕ, ℤ, ◌+◌, none, some, [], ◌++◌, Text, lit, ok}
use kinetix_search_service.Search.Errors.{Result}
use kinetix_search_service.Search.Call.{Call}
use kinetix_search_service.Search.Time.{Time}
use kinetix_search_service.Search.Document.{products}
use kinetix_search_service.Config.{Config, settings}
use kinetix_search_service.Mesh.Credentials.{Pki, ClientTls}
use kinetix_search_service.Upstream.Catalog as Catalog
use kinetix_search_service.Upstream.Identity as Identity
use kinetix_search_service.Upstream.Order as Order
use kinetix_search_service.Typesense.Documents.{encode_product}
use kinetix_search_service.Typesense.Engine.{Engine}
use kinetix_search_service.Typesense.Index.{index}
use kinetix_search_service.Wiring.Sources.{Stubs, provide_catalog, provide_identity, provide_orders}
use kinetix_search_service.Wiring.Serving.{provide_grpc, readiness}
use kinetix_search_service.Wiring.Laws.{
  Sourced, settings_of, providers-Sourced, IsClosed, provide_grpc-IsClosed, Found, readiness-Found,
}
use kinetix_search_service.Tests.Samples.{floats}
use kinetix_search_service.Tests.Services.{stamps, order_stub, identity_stub, catalog}
use kinetix_search_service.Tests.Store.{shell}
use kinetix_search_service.Tests.Typesense.{engine}

-- Each file holds its own path; any pair and any pool is taken.
abbrev pki : Pki (Text × Text) Text
pki = record {
  read_file = λ path. ok path;
  join = λ dir name. dir ++ (lit "/" ++ name);
  key_pair = λ cert key. ok (cert, key);
  pool_of = λ pem. some pem;
}

abbrev new_client : Text → ClientTls (Text × Text) Text → Result Text
new_client endpoint creds = ok endpoint

abbrev stubs : Stubs (Unit {0}) Time Text
stubs = record {
  catalog = λ conn. catalog;
  identity = λ conn. identity_stub;
  order = λ conn. order_stub;
}

abbrev cfg : Config
cfg = settings shell

providers-Sourced_example :
    Sourced stamps stubs pki new_client
      (settings_of cfg.catalog_endpoint cfg.pki_dir cfg.catalog_deadline)
      (λ conn. Catalog.client stamps catalog)
      (provide_catalog stamps stubs pki new_client cfg)
    × Sourced stamps stubs pki new_client
        (settings_of cfg.identity_endpoint cfg.pki_dir cfg.identity_deadline)
        (λ conn. Identity.client stamps identity_stub)
        (provide_identity stamps stubs pki new_client cfg)
    × Sourced stamps stubs pki new_client
        (settings_of cfg.order_endpoint cfg.pki_dir cfg.order_deadline)
        (λ conn. Order.client stamps order_stub)
        (provide_orders stamps stubs pki new_client cfg)
providers-Sourced_example = providers-Sourced stamps stubs pki new_client cfg

provide_grpc-IsClosed_example :
    IsClosed (Unit {0}) ℕ pki (lit "kinetix.local") cfg (provide_grpc pki (lit "kinetix.local") cfg)
provide_grpc-IsClosed_example = provide_grpc-IsClosed (Unit {0}) ℕ pki (lit "kinetix.local") cfg

abbrev answering : Engine ℕ ℤ
answering = engine none [] (ok tt)

abbrev ping : Call ℕ (Unit {0})
ping n = (ok tt, n + 1)

readiness-Found_example :
    Found floats ping answering encode_product 0
      (readiness floats ping (index answering products encode_product) 0)
readiness-Found_example = readiness-Found floats ping answering encode_product 0
