-- ===== src/Wiring/Serving.antt =====
-- internal/wiring/grpc.go and http.go: the two servers of searchd.
use kinetix_search_service.Common.{
  ℕ, pos, ◌*◌, ◌^◌, Option, none, some, [], Text, lit, Floats, Res, is_empty, if◌then◌else◌, ok,
  err, ◌>>=◌,
}
use kinetix_search_service.Search.Errors.{
  Result, GoError, errf, dependency_unavailable, index_unavailable,
}
use kinetix_search_service.Search.Time.{Duration}
use kinetix_search_service.Search.Call.{Call}
use kinetix_search_service.Search.Document.{ProductDoc}
use kinetix_search_service.Search.Service.{Index}
use kinetix_search_service.Config.{Config}
use kinetix_search_service.Querying.{Finder}
use kinetix_search_service.Mesh.Credentials.{Pki}
use kinetix_search_service.Grpc.{Status}
use kinetix_search_service.Grpc.Authorization.{Transport, allowed_peers, authorize}
use kinetix_search_service.Grpc.Credentials.{ServerTls, server_credentials}
use kinetix_search_service.Http as Http

-- A server, of one type of answers: its credentials, and a call of a method by a caller, on the
-- handler of the method.
pub record GrpcServer (W A Pair Certs : Type 0) : Type 0 where
  pub creds : ServerTls Pair Certs
  pub call : Transport → Text → (W → Res Status A × W) → W → Res Status A × W

-- `provideGRPC`; the variable of the trust domains is read at each call.
unfoldable pub provide_grpc :
    {W A Pair Certs : Type 0} → Pki Pair Certs → Text → Config → Result (GrpcServer W A Pair Certs)
unfolding server_credentials
provide_grpc pki variable cfg = server_credentials pki cfg.pki_dir >>= λ creds.
    ok (record { creds = creds; call = authorize (allowed_peers cfg.allowed_peers) variable })

abbrev pub seconds : ℕ → Duration
seconds n = pos (n * 10 ^ 9)

pub record HttpServer (F W : Type 0) : Type 0 where
  pub addr : Text
  pub read_header_timeout : Duration
  pub read_timeout : Duration
  pub write_timeout : Duration
  pub idle_timeout : Duration
  pub search_products : Http.Params → W → Http.Response F × W
  pub suggest_products : Http.Params → W → Http.Response F × W
  pub live : Http.Response F
  pub ready : W → Http.Response F × W

abbrev pub no_database : GoError → GoError
no_database e = errf dependency_unavailable (lit "searchd.ready") (some e) (lit "database") []

abbrev pub not_promoted : GoError
not_promoted =
    errf index_unavailable (lit "searchd.ready") none
      (lit "no generation has been promoted yet; run cmd/reindex") []

module _ {F W : Type 0} (fl : Floats F) (ping : Call W (Unit {0})) (ix : Index W ProductDoc) where
  abbrev pub promoted : Result Text → Option GoError
  promoted (err e) = some e
  promoted (ok target) = if is_empty target then some not_promoted else none

  abbrev pub pinged : Result (Unit {0}) → W → Option GoError × W
  pinged (err e) w = (some (no_database e), w)
  pinged (ok _) w = let (r, w') = ix.live w in (promoted r, w')

  -- The function `ready`: its error, if it has one.
  unfoldable pub ready : W → Option GoError × W
  ready w = let (r, w') = ping w in pinged r w'

  -- `readiness` of internal/httpapi on it.
  unfoldable pub readiness : W → Http.Response F × W
  unfolding ready
  readiness w = let (e, w') = ready w in (Http.readiness fl e, w')

  unfoldable pub provide_http : Config → Finder F W ProductDoc → HttpServer F W
  unfolding readiness
  provide_http cfg products = record {
    addr = cfg.http_addr;
    read_header_timeout = seconds 5;
    read_timeout = seconds 15;
    write_timeout = seconds 30;
    idle_timeout = seconds 60;
    search_products = Http.search_products fl products;
    suggest_products = Http.suggest_products fl products;
    live = Http.live fl;
    ready = readiness;
  }
