-- ===== src/Grpc/Authorization.antt =====
-- internal/grpcapi/authorization.go: who may call. The transport of a caller is what `PeerName`
-- reads of the context: none, one without TLS, or the URIs of its certificates.
pub mod Laws
use kinetix_search_service.Common.{
  ℕ, Bool, true, false, not, Option, none, some, List, [], ◌∷◌, Text, lit, is_empty, text_eq, any,
  has_prefix, split, ok, err, Res, if◌then◌else◌,
}
use kinetix_search_service.Search.Errors.{Arg, str}
use kinetix_search_service.Mesh.{comma, filled, trust_domains, peer_service}
use kinetix_search_service.Grpc.{Status}

abbrev pub open_methods : List Text
open_methods = lit "/grpc.health.v1.Health/" ∷ lit "/grpc.reflection." ∷ []

-- The set is the list of its members, repeated as they are in the variable.
unfoldable pub allowed_peers : Text → List Text
allowed_peers configured = filled (split comma configured)

abbrev pub permission_denied : ℕ
permission_denied = 7

abbrev pub denied : Text → List Arg → Status
denied format args = record { code = permission_denied; format = format; args = args }

abbrev pub Transport : Type 0
Transport = Option (Option (List (List Text)))

abbrev pub named : Text → Res Status Text
named name =
    if is_empty name
    then err (
        denied
          (lit "the caller's certificate names no service in a trust domain this service accepts")
          [])
    else ok name

unfoldable pub peer_name : Transport → List Text → Res Status Text
peer_name none domains = err (denied (lit "the caller presented no transport") [])
peer_name (some none) domains = err (denied (lit "the caller presented no certificate") [])
peer_name (some (some certificates)) domains = named (peer_service certificates domains)

abbrev pub is_allowed : List Text → Text → Bool
is_allowed allowed name = any (text_eq name) allowed

abbrev pub is_open : Text → Bool
is_open method = any (has_prefix method) open_methods

module _ {W A : Type 0} (allowed : List Text) (variable : Text) where
  -- The interceptor past the open methods.
  abbrev pub admit : (W → Res Status A × W) → Res Status Text → W → Res Status A × W
  admit handler (err e) w = (err e, w)
  admit handler (ok name) w =
      if is_allowed allowed name
      then handler w
      else (err (denied (lit "'%s' is not on this service's caller list") (str name ∷ [])), w)

  -- `Authorize` on a caller and a method; the variable is that of the trust domains.
  unfoldable pub authorize : Transport → Text → (W → Res Status A × W) → W → Res Status A × W
  authorize caller method handler w =
      if is_open method
      then handler w
      else admit handler (peer_name caller (trust_domains variable)) w
