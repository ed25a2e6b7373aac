-- ===== src/Upstream/Dial.antt =====
-- `Dial` of internal/catalogclient/client.go, internal/orderclient/client.go and
-- internal/identityclient/client.go. The connection that `grpc.NewClient` makes is a parameter, and
-- the stub is made of it.
pub mod Laws
use kinetix_search_service.Common.{
  ℤ, pos, ◌*◌, ◌^◌, none, some, List, [], ◌∷◌, Text, lit, ok, err, ◌>>=◌,
}
use kinetix_search_service.Search.Errors.{Result, GoError, errf, dependency_unavailable, str}
use kinetix_search_service.Search.Time.{Duration}
use kinetix_search_service.Mesh.Credentials.{Pki, ClientTls, Settings, deadline_or, mutual_tls}

-- `Client`: its connection and its deadline.
pub record Client (Conn : Type 0) : Type 0 where
  pub conn : Conn
  pub deadline : Duration

-- `10 * time.Second`
abbrev pub ten_seconds : Duration
ten_seconds = pos (10 * 10 ^ 9)

abbrev pub undialled : Text → Text → GoError → GoError
undialled op endpoint e =
    errf dependency_unavailable op (some e) (lit "dialing %s") (str endpoint ∷ [])

module _ {Pair Certs Conn : Type 0} (pki : Pki Pair Certs)
    (new_client : Text → ClientTls Pair Certs → Result Conn) where
  -- The return of `Dial`.
  abbrev pub connected : Text → Settings → Result Conn → Result (Client Conn)
  connected op s (err e) = err (undialled op s.endpoint e)
  connected op s (ok conn) = ok (record { conn = conn; deadline = deadline_or s ten_seconds })

  unfoldable pub dial_as : Text → Settings → Result (Client Conn)
  unfolding deadline_or
  dial_as op s = mutual_tls pki op s >>= λ creds. connected op s (new_client s.endpoint creds)

  unfoldable pub dial_catalog : Settings → Result (Client Conn)
  unfolding dial_as
  dial_catalog = dial_as (lit "catalogclient.Dial")

  unfoldable pub dial_order : Settings → Result (Client Conn)
  unfolding dial_as
  dial_order = dial_as (lit "orderclient.Dial")

  unfoldable pub dial_identity : Settings → Result (Client Conn)
  unfolding dial_as
  dial_identity = dial_as (lit "identityclient.Dial")
