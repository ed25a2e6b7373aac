-- ===== src/Grpc/Credentials.antt =====
-- internal/grpcapi/credentials.go: the credentials with which the service is called.
pub mod Laws
use kinetix_search_service.Common.{
  ℕ, List, [], ◌∷◌, Text, lit, is_empty, if◌then◌else◌, ok, err, ◌>>=◌,
}
use kinetix_search_service.Search.Errors.{Result}
use kinetix_search_service.Mesh.Credentials.{Pki, version_tls13, no_directory, content, material}

-- `tls.ClientAuthType`
pub data ClientAuth : Type 0 where
  no_client_cert request_client_cert require_any_client_cert : ClientAuth
  verify_client_cert_if_given require_and_verify_client_cert : ClientAuth

pub record ServerTls (Pair Certs : Type 0) : Type 0 where
  pub certificates : List Pair
  pub client_cas : Certs
  pub client_auth : ClientAuth
  pub min_version : ℕ

abbrev pub op : Text
op = lit "grpcapi.ServerCredentials"

module _ {Pair Certs : Type 0} (pki : Pki Pair Certs) where
  abbrev pub server_tls : Pair × Certs → ServerTls Pair Certs
  server_tls (pair, pool) = record {
    certificates = pair ∷ [];
    client_cas = pool;
    client_auth = require_and_verify_client_cert;
    min_version = version_tls13;
  }

  unfoldable pub read : Text → Text → Result Text
  read dir name = content op (pki.join dir name) (pki.read_file (pki.join dir name))

  unfoldable pub server_credentials : Text → Result (ServerTls Pair Certs)
  unfolding read material
  server_credentials pki_dir =
      if is_empty pki_dir
      then err (no_directory op)
      else material pki op (read pki_dir) >>= λ m. ok (server_tls m)
