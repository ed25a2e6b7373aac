-- ===== src/Wiring/Sources.antt =====
-- internal/wiring/sources.go: the clients of the three services, each also the source of a collection.
use kinetix_search_service.Common.{Text, ok, ◌>>=◌}
use kinetix_search_service.Search.Errors.{Result}
use kinetix_search_service.Search.Document.{ProductDoc, MerchantDoc, OrderDoc}
use kinetix_search_service.Search.Service.{Source}
use kinetix_search_service.Config.{Config}
use kinetix_search_service.Mesh.Credentials.{Pki, ClientTls, Settings}
use kinetix_search_service.Upstream.{Timestamps}
use kinetix_search_service.Upstream.Dial.{Client, dial_catalog, dial_identity, dial_order}
use kinetix_search_service.Upstream.Catalog as Catalog
use kinetix_search_service.Upstream.Order as Order
use kinetix_search_service.Upstream.Identity as Identity

abbrev pub catalog_settings : Config → Settings
catalog_settings cfg = record {
  endpoint = cfg.catalog_endpoint;
  pki_dir = cfg.pki_dir;
  deadline = cfg.catalog_deadline;
}

abbrev pub identity_settings : Config → Settings
identity_settings cfg = record {
  endpoint = cfg.identity_endpoint;
  pki_dir = cfg.pki_dir;
  deadline = cfg.identity_deadline;
}

abbrev pub order_settings : Config → Settings
order_settings cfg = record {
  endpoint = cfg.order_endpoint;
  pki_dir = cfg.pki_dir;
  deadline = cfg.order_deadline;
}

pub record Provided (W D Conn : Type 0) : Type 0 where
  pub client : Client Conn
  pub source : Source W D

-- The stubs are made of the connection.
pub record Stubs (W T Conn : Type 0) : Type 0 where
  pub catalog : Conn → Catalog.Stub W T
  pub identity : Conn → Identity.Stub W T
  pub order : Conn → Order.Stub W T

module _ {W T Pair Certs Conn : Type 0} (ts : Timestamps T) (stubs : Stubs W T Conn)
    (pki : Pki Pair Certs) (new_client : Text → ClientTls Pair Certs → Result Conn) where
  unfoldable pub provide_catalog : Config → Result (Provided W ProductDoc Conn)
  unfolding dial_catalog
  provide_catalog cfg = dial_catalog pki new_client (catalog_settings cfg) >>= λ c.
      ok (record { client = c; source = Catalog.client ts (stubs.catalog c.conn) })

  unfoldable pub provide_identity : Config → Result (Provided W MerchantDoc Conn)
  unfolding dial_identity
  provide_identity cfg = dial_identity pki new_client (identity_settings cfg) >>= λ c.
      ok (record { client = c; source = Identity.client ts (stubs.identity c.conn) })

  unfoldable pub provide_orders : Config → Result (Provided W OrderDoc Conn)
  unfolding dial_order
  provide_orders cfg = dial_order pki new_client (order_settings cfg) >>= λ c.
      ok (record { client = c; source = Order.client ts (stubs.order c.conn) })
