-- ===== src/Tests/Services.antt =====
-- Examples for the clients of the other services, and for the service's own two sides.
use kinetix_search_service.Common.{
  ℕ, ℤ, pos, true, false, ◌≡◌, refl, none, some, List, [], ◌∷◌, Text, lit, ok, Res, arith,
}
use kinetix_search_service.Search.Time.{Time}
use kinetix_search_service.Search.Document.{ProductDoc, Hit, Results, zero_cursor, products}
use kinetix_search_service.Querying.{Finder, never_synced}
use kinetix_search_service.Upstream.{
  Timestamps, carries_transaction, to_proto_cursor, from_proto_cursor,
}
use kinetix_search_service.Upstream.Laws.{IsFaithful, from_proto_cursor-to_proto_cursor}
use kinetix_search_service.Upstream.Catalog as Catalog
use kinetix_search_service.Upstream.Catalog.Laws.{IsProductAnswer, changed_since-IsProductAnswer}
use kinetix_search_service.Upstream.Order as Order
use kinetix_search_service.Upstream.Order.Laws.{IsOrderAnswer, changed_since-IsOrderAnswer}
use kinetix_search_service.Upstream.Identity as Identity
use kinetix_search_service.Upstream.Identity.Laws.{IsMerchantAnswer, changed_since-IsMerchantAnswer}
use kinetix_search_service.Mesh.{service_of, peer_service, service_among, service_in}
use kinetix_search_service.Mesh.Laws.{IsNamed, peer_service-IsNamed}
use kinetix_search_service.Grpc.{Status}
use kinetix_search_service.Grpc.Authorization.{authorize}
use kinetix_search_service.Grpc.Authorization.Laws.{Guarded, IsAdmitted, authorize-Guarded}
use kinetix_search_service.Mesh.{trust_domains}
use kinetix_search_service.Grpc.Server as Server
use kinetix_search_service.Grpc.Server.Laws.{Ends, search_products-Ends, read_hit, read_hit-to_hit}
use kinetix_search_service.Grpc.Server.{code_for}
use kinetix_search_service.Http as Http
use kinetix_search_service.Http.{status_for}
use kinetix_search_service.Http.Laws.{Replies, search_products-Replies}
use kinetix_search_service.Tests.Samples.{floats, noon, lamp, clock, cursor_one}

abbrev pub stamps : Timestamps Time
stamps = record { new = λ t. t; as_time = λ t. t }

stamps-IsFaithful : IsFaithful stamps
stamps-IsFaithful = record { as_time-new = λ t. refl }

from_proto_cursor-to_proto_cursor_example :
    (from_proto_cursor stamps (some (to_proto_cursor stamps cursor_one)) ≡ cursor_one)
    × (carries_transaction (some (to_proto_cursor stamps cursor_one)) ≡ true)
from_proto_cursor-to_proto_cursor_example =
    from_proto_cursor-to_proto_cursor stamps stamps-IsFaithful cursor_one

abbrev answer : Catalog.ChangedSinceResponse Time
answer = record {
  upserted =
      record {
        sku = lit "p-1";
        title = lit "Lamp";
        description = [];
        price = none;
        merchant_principal_id = lit "m-1";
        category_slug = lit "light";
        updated_at = some noon;
      }
      ∷ record {
        sku = lit " ";
        title = lit "Nameless";
        description = [];
        price = none;
        merchant_principal_id = [];
        category_slug = [];
        updated_at = none;
      }
      ∷ [];
  removed_skus = [];
  next = some (record { last_id = lit "p-1"; transaction_id = some 9; updated_through = none });
  has_more = false;
}

abbrev pub catalog : Catalog.Stub (Unit {0}) Time
catalog = record {
  changed_since = λ request w. (ok answer, w);
  count_products = λ w. (ok (pos 2), w);
  status_code = λ e. 14;
}

changed_since-IsProductAnswer_example :
    IsProductAnswer stamps catalog zero_cursor (pos 200) tt (Catalog.to_changes stamps answer) tt
unfolding Catalog.changed_since carries_transaction
changed_since-IsProductAnswer_example =
    changed_since-IsProductAnswer stamps catalog zero_cursor (pos 200) tt
      {changes = Catalog.to_changes stamps answer} {w' = tt} (omega arith, omega arith) refl

abbrev orders_answer : Order.ChangedSinceResponse Time
orders_answer = record {
  upserted =
      record {
        order_number = lit "o-1";
        buyer_principal_id = lit "ann";
        merchant_principal_id = lit "m-1";
        status = Order.in_transit;
        line_titles = lit "Lamp" ∷ [];
        placed_at = some noon;
        updated_at = some noon;
      }
      ∷ record {
        order_number = lit "o-2";
        buyer_principal_id = [];
        merchant_principal_id = lit "m-1";
        status = Order.paid;
        line_titles = [];
        placed_at = none;
        updated_at = none;
      }
      ∷ [];
  next = some (record { last_id = lit "o-2"; transaction_id = some 4; updated_through = none });
  has_more = false;
}

abbrev pub order_stub : Order.Stub (Unit {0}) Time
order_stub = record { changed_since = λ request w. (ok orders_answer, w); status_code = λ e. 14 }

changed_since-IsOrderAnswer_example :
    IsOrderAnswer stamps order_stub zero_cursor
      (pos 200)
      tt
      (Order.to_changes stamps orders_answer)
      tt
unfolding Order.changed_since carries_transaction
changed_since-IsOrderAnswer_example =
    changed_since-IsOrderAnswer stamps order_stub zero_cursor (pos 200) tt
      {changes = Order.to_changes stamps orders_answer} {w' = tt} (omega arith, omega arith) refl

abbrev merchants_answer : Identity.ChangedSinceResponse Time
merchants_answer = record {
  upserted =
      record {
        principal_id = lit "m-1";
        store_name = lit "Lights";
        status = Identity.verified;
        may_sell = true;
        updated_at = some noon;
      }
      ∷ [];
  removed_principal_ids = lit "m-0" ∷ [];
  next = some (record { last_id = lit "m-1"; transaction_id = some 4; updated_through = none });
  has_more = false;
}

abbrev pub identity_stub : Identity.Stub (Unit {0}) Time
identity_stub = record {
  changed_since = λ request w. (ok merchants_answer, w);
  status_code = λ e. 14;
}

changed_since-IsMerchantAnswer_example :
    IsMerchantAnswer stamps identity_stub zero_cursor
      (pos 200)
      tt
      (Identity.to_changes stamps merchants_answer)
      tt
unfolding Identity.changed_since carries_transaction
changed_since-IsMerchantAnswer_example =
    changed_since-IsMerchantAnswer stamps identity_stub zero_cursor (pos 200) tt
      {changes = Identity.to_changes stamps merchants_answer} {w' = tt} (omega arith, omega arith)
      refl

abbrev pub certificates : List (List Text)
certificates = (lit "spiffe://kinetix.local/service/gateway" ∷ []) ∷ []

abbrev domains : List Text
domains = lit "kinetix.local" ∷ []

peer_service-IsNamed_example : IsNamed certificates domains (peer_service certificates domains)
unfolding peer_service service_among service_in service_of
peer_service-IsNamed_example = peer_service-IsNamed certificates domains refl

abbrev pub handler : ℕ → Res Status (Unit {0}) × ℕ
handler n = (ok tt, 1)

authorize-Guarded_example :
    Guarded
      (IsAdmitted
        (lit "gateway" ∷ [])
        (trust_domains [])
        (some (some certificates))
        (lit "/search.v1.SearchService/SearchProducts"))
      (handler 0)
      0
      (authorize
        (lit "gateway" ∷ [])
        []
        (some (some certificates))
        (lit "/search.v1.SearchService/SearchProducts")
        handler
        0)
authorize-Guarded_example =
    authorize-Guarded (lit "gateway" ∷ []) [] (some (some certificates))
      (lit "/search.v1.SearchService/SearchProducts") handler 0

abbrev one_hit : Results ℤ ProductDoc
one_hit = record {
  hits = record { score = pos 7; doc = lamp } ∷ [];
  total = pos 1;
  facets = [];
  freshness = never_synced;
}

abbrev finder : Finder ℤ (Unit {0}) ProductDoc
finder = record {
  collection = products;
  searcher = record { search_docs = λ q w. (ok one_hit, w); suggest = λ q w. (ok [], w) };
  checkpoint = record {
    load = λ c w. (ok (record { cursor = cursor_one; saved_at = noon }), w);
    save = λ c cur w. (ok tt, w);
  };
  clock = clock;
  stale_after = pos 600;
}

abbrev request : Server.SearchProductsRequest
request = record {
  text = lit "lamp";
  categories = lit "light" ∷ [];
  merchant_principal_id = lit "m-1";
  page = none;
  ranking = Server.newest;
}

search_products-Ends_example :
    Ends floats stamps finder request tt
      (Server.search_products floats stamps finder request tt).0
      (Server.search_products floats stamps finder request tt).1
search_products-Ends_example = search_products-Ends floats stamps finder request tt

abbrev a_hit : Hit ℤ ProductDoc
a_hit = record { score = pos 7; doc = lamp }

read_hit-to_hit_example :
    read_hit floats stamps stamps-IsFaithful (Server.to_hit floats stamps a_hit) ≡ a_hit
read_hit-to_hit_example = read_hit-to_hit floats stamps stamps-IsFaithful a_hit

abbrev params : Http.Params
params name = lit "2" ∷ []

search_products-Replies_example :
    Replies floats finder params tt
      (Http.search_products floats finder params tt).0
      (Http.search_products floats finder params tt).1
search_products-Replies_example = search_products-Replies floats finder params tt
