-- ===== src/Wiring/Laws.antt =====
-- What internal/wiring makes holds together: the sources are reached as configured, the gRPC server is
-- closed to strangers, and searchd is ready exactly when it can answer.
use kinetix_search_service.Common.{
  ◌≡◌, refl, inl, inr, true, false, Option, [], ◌∷◌, Text, lit, is_empty, Floats, Bool-cases, ok,
  err, Res, ◌>>=◌,
}
use kinetix_search_service.Search.Errors.{Result, GoError, errf, kind_of, kind_string}
use kinetix_search_service.Search.Time.{Duration}
use kinetix_search_service.Search.Call.{Call}
use kinetix_search_service.Search.Document.{ProductDoc, products, collection_name}
use kinetix_search_service.Search.Service.{Source}
use kinetix_search_service.Config.{Config}
use kinetix_search_service.Mesh.{trust_domains}
use kinetix_search_service.Mesh.Credentials.{Pki, ClientTls, Settings}
use kinetix_search_service.Mesh.Credentials.Laws.{IsUnavailable}
use kinetix_search_service.Upstream.{Timestamps}
use kinetix_search_service.Upstream.Catalog as Catalog
use kinetix_search_service.Upstream.Order as Order
use kinetix_search_service.Upstream.Identity as Identity
use kinetix_search_service.Upstream.Dial.{Client, dial_catalog, dial_identity, dial_order}
use kinetix_search_service.Upstream.Dial.Laws.{IsDialled, Dials, dial_as-Dials}
use kinetix_search_service.Grpc.{Status}
use kinetix_search_service.Grpc.Authorization.{Transport, allowed_peers, authorize}
use kinetix_search_service.Grpc.Authorization.Laws.{Guarded, IsAdmitted, authorize-Guarded}
use kinetix_search_service.Grpc.Credentials.{ServerTls, server_credentials}
use kinetix_search_service.Grpc.Credentials.Laws.{IsExclusive, Admits, server_credentials-Admits}
use kinetix_search_service.Http as Http
use kinetix_search_service.Typesense.Documents.{Document}
use kinetix_search_service.Typesense.Engine.{Engine, not_found, fail}
use kinetix_search_service.Typesense.Index.{index, live, live_of}
use kinetix_search_service.Wiring.Sources.{
  Provided, Stubs, provide_catalog, provide_identity, provide_orders,
}
use kinetix_search_service.Wiring.Serving.{
  GrpcServer, provide_grpc, pinged, promoted, ready, readiness,
}

abbrev pub settings_of : Text → Text → Duration → Settings
settings_of endpoint dir deadline = record {
  endpoint = endpoint;
  pki_dir = dir;
  deadline = deadline;
}

module _ {W T Pair Certs Conn : Type 0} (ts : Timestamps T) (stubs : Stubs W T Conn)
    (pki : Pki Pair Certs) (new_client : Text → ClientTls Pair Certs → Result Conn) where
  -- A client dialled by these settings, and as source the one over its connection.
  abbrev pub Sourced :
      {D : Type 0} → Settings → (Conn → Source W D) → Result (Provided W D Conn) → Type 0
  Sourced s source_over (ok p) =
      IsDialled pki new_client s p.client × (p.source ≡ source_over p.client.conn)
  Sourced s source_over (err e) = IsUnavailable e

  sourced :
      {D : Type 0} (s : Settings) (source_over : Conn → Source W D) (r : Result (Client Conn))
      → Dials pki new_client s r
      → Sourced s source_over (r >>= λ c. ok (record { client = c; source = source_over c.conn }))
  sourced s source_over (ok c) h = (h, refl)
  sourced s source_over (err e) h = h

  -- Each of the three services is dialled at its own endpoint, by mutual TLS with the configured
  -- directory, is given its own deadline (ten seconds, where that is not positive), and is the source
  -- of its collection over that connection; or the provider fails with the error of a dependency that
  -- is unavailable.
  pub providers-Sourced :
      (cfg : Config)
      → Sourced
          (settings_of cfg.catalog_endpoint cfg.pki_dir cfg.catalog_deadline)
          (λ conn. Catalog.client ts (stubs.catalog conn))
          (provide_catalog ts stubs pki new_client cfg)
        × Sourced
            (settings_of cfg.identity_endpoint cfg.pki_dir cfg.identity_deadline)
            (λ conn. Identity.client ts (stubs.identity conn))
            (provide_identity ts stubs pki new_client cfg)
        × Sourced
            (settings_of cfg.order_endpoint cfg.pki_dir cfg.order_deadline)
            (λ conn. Order.client ts (stubs.order conn))
            (provide_orders ts stubs pki new_client cfg)
  unfolding provide_catalog provide_identity provide_orders dial_catalog dial_identity dial_order
  providers-Sourced cfg =
      let own =
        λ (endpoint : Text) (deadline : Duration). settings_of endpoint cfg.pki_dir deadline in
      (
        sourced (own cfg.catalog_endpoint cfg.catalog_deadline) _ _
            (dial_as-Dials pki new_client _ (own cfg.catalog_endpoint cfg.catalog_deadline)),
        sourced (own cfg.identity_endpoint cfg.identity_deadline) _ _
            (dial_as-Dials pki new_client _ (own cfg.identity_endpoint cfg.identity_deadline)),
        sourced (own cfg.order_endpoint cfg.order_deadline) _ _
            (dial_as-Dials pki new_client _ (own cfg.order_endpoint cfg.order_deadline)),
      )

module _ {Pair Certs : Type 0} (W A : Type 0) (pki : Pki Pair Certs) (variable : Text) where
  -- A server behind mutual TLS, each of whose calls is guarded.
  abbrev pub IsClosed : Config → Result (GrpcServer W A Pair Certs) → Type 0
  IsClosed cfg (ok server) =
      IsExclusive pki cfg.pki_dir server.creds
      × ((caller : Transport) (method : Text) (handler : W → Res Status A × W) (w : W)
          → Guarded
              (IsAdmitted (allowed_peers cfg.allowed_peers) (trust_domains variable) caller method)
              (handler w) w (server.call caller method handler w))
  IsClosed cfg (err e) = IsUnavailable e

  over-IsClosed :
      (cfg : Config) (r : Result (ServerTls Pair Certs))
      → Admits pki cfg.pki_dir r
      → IsClosed cfg (
          r >>= λ creds.
          ok
            (record { creds = creds; call = authorize (allowed_peers cfg.allowed_peers) variable }))
  over-IsClosed cfg (err e) h = h
  over-IsClosed cfg (ok creds) (given, exclusive) =
      (exclusive, authorize-Guarded (allowed_peers cfg.allowed_peers) variable)

  -- The gRPC server presents the pair of the configured directory, requires of every client a
  -- certificate that its ca.pem vouches for, and speaks TLS 1.3 at least; and runs a handler only for
  -- an open method or for a service of the configured list, named under a trusted domain by the first
  -- certificate of the caller. Where such a server cannot be made, the error is that of a dependency
  -- which is unavailable.
  pub provide_grpc-IsClosed : (cfg : Config) → IsClosed cfg (provide_grpc pki variable cfg)
  unfolding provide_grpc
  provide_grpc-IsClosed cfg =
      over-IsClosed cfg (server_credentials pki cfg.pki_dir)
        (server_credentials-Admits pki cfg.pki_dir)

module _ {F W : Type 0} (fl : Floats F) (ping : Call W (Unit {0})) (engine : Engine W F)
    (encode : ProductDoc → Document F) where
  abbrev Answer : Type 0
  Answer = Http.Response F × W

  abbrev refusal : Text → Http.Response F
  refusal kind = record { status = 503; body = Http.error_body kind }

  -- What the readiness check found, and what it answered.
  pub data Found (w : W) (got : Answer) : Type 0 where
    no_database :
        {e : GoError} {w' : W}
        → ping w ≡ (err e, w')
        → got ≡ (refusal (lit "dependency_unavailable"), w')
        → Found w got
    no_alias :
        {e : GoError} {w₁ w' : W}
        → ping w ≡ (ok tt, w₁)
        → engine.alias_target (lit "products") w₁ ≡ (err e, w')
        → got ≡ (refusal (lit "index_unavailable"), w')
        → Found w got
    no_target :
        {target : Text} {w₁ w' : W}
        → ping w ≡ (ok tt, w₁)
        → engine.alias_target (lit "products") w₁ ≡ (ok target, w')
        → is_empty target ≡ true
        → got ≡ (refusal (lit "index_unavailable"), w')
        → Found w got
    is_ready :
        {target : Text} {w₁ w' : W}
        → ping w ≡ (ok tt, w₁)
        → engine.alias_target (lit "products") w₁ ≡ (ok target, w')
        → is_empty target ≡ false
        → got ≡ (record { status = 200; body = Http.status_body (lit "ready") }, w')
        → Found w got

  abbrev answer_of : Option GoError × W → Answer
  answer_of (e, w) = (Http.readiness fl e, w)

  alias-Found :
      (w w₁ : W) (r : Result Text) (w' : W)
      → ping w ≡ (ok tt, w₁)
      → engine.alias_target (lit "products") w₁ ≡ (r, w')
      → Found w (
        Http.readiness fl
            (promoted fl ping (index engine products encode) (live_of engine products encode r)),
        w',
      )
  unfolding Http.readiness errf kind_of kind_string fail
  alias-Found w w₁ (ok []) w' up aliased = no_target up aliased refl refl
  alias-Found w w₁ (ok (c ∷ target)) w' up aliased = is_ready up aliased refl refl
  alias-Found w w₁ (err e) w' up aliased = elim (Bool-cases (not_found e)) [
    | inl missing ↦ no_alias up aliased (rw missing refl)
    | inr other ↦ no_alias up aliased (rw other refl)
  ]

  pinged-Found :
      (w : W) (r : Result (Unit {0})) (w₁ : W)
      → ping w ≡ (r, w₁)
      → Found w (answer_of (pinged fl ping (index engine products encode) r w₁))
  unfolding Http.readiness errf kind_of kind_string live collection_name
  pinged-Found w (err e) w₁ up = no_database up refl
  pinged-Found w (ok _) w₁ up =
      alias-Found w w₁ (engine.alias_target (lit "products") w₁).0
        (engine.alias_target (lit "products") w₁).1 up refl

  -- The readiness check answers 200 exactly if the database answers and the alias of the products then
  -- names a generation; without the database it answers 503 and `dependency_unavailable`, and asks no
  -- more; without the alias, 503 and `index_unavailable`.
  pub readiness-Found : (w : W) → Found w (readiness fl ping (index engine products encode) w)
  unfolding readiness ready
  readiness-Found w = pinged-Found w (ping w).0 (ping w).1 refl
