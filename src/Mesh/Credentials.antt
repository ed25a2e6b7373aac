-- ===== src/Mesh/Credentials.antt =====
-- internal/mesh/credentials.go: the credentials with which the service calls the others. Reading a
-- file, and what crypto/tls and crypto/x509 make of its bytes, are parameters; the credentials are the
-- configuration that `credentials.NewTLS` is given.
pub mod Laws
use kinetix_search_service.Common.{
  ℕ, ℤ, pos, ltb_ℤ, Bool, true, false, Option, none, some, List, [], ◌∷◌, Text, lit, is_empty,
  if◌then◌else◌, ok, err, ◌>>=◌,
}
use kinetix_search_service.Search.Errors.{Result, GoError, errf, dependency_unavailable, str}
use kinetix_search_service.Search.Time.{Duration}

pub record Settings : Type 0 where
  pub endpoint : Text
  pub pki_dir : Text
  pub deadline : Duration

unfoldable pub deadline_or : Settings → Duration → Duration
deadline_or s fallback = if ltb_ℤ (pos 0) s.deadline then s.deadline else fallback

pub record Pki (Pair Certs : Type 0) : Type 0 where
  -- `os.ReadFile`, `filepath.Join`
  pub read_file : Text → Result Text
  pub join : Text → Text → Text
  -- `tls.X509KeyPair`
  pub key_pair : Text → Text → Result Pair
  -- `AppendCertsFromPEM` of an empty pool: the pool, if a certificate could be added to it.
  pub pool_of : Text → Option Certs

-- `tls.VersionTLS13`
abbrev pub version_tls13 : ℕ
version_tls13 = 0x304

pub record ClientTls (Pair Certs : Type 0) : Type 0 where
  pub certificates : List Pair
  pub root_cas : Certs
  pub min_version : ℕ

abbrev pub unread : Text → Text → GoError → GoError
unread op path e = errf dependency_unavailable op (some e) (lit "reading %s") (str path ∷ [])

abbrev pub no_content : Text → Text → GoError
no_content op path = errf dependency_unavailable op none (lit "%s is empty") (str path ∷ [])

abbrev pub no_directory : Text → GoError
no_directory op = errf dependency_unavailable op none (lit "no PKI directory configured") []

abbrev pub no_pair : Text → GoError → GoError
no_pair op e = errf dependency_unavailable op (some e) (lit "tls.crt and tls.key are not a pair") []

abbrev pub no_roots : Text → GoError
no_roots op = errf dependency_unavailable op none (lit "ca.pem holds no usable certificate") []

-- The end of `read`.
abbrev pub content : Text → Text → Result Text → Result Text
content op path (err e) = err (unread op path e)
content op path (ok bytes) = if is_empty bytes then err (no_content op path) else ok bytes

abbrev pub paired : {Pair : Type 0} → Text → Result Pair → Result Pair
paired op (err e) = err (no_pair op e)
paired op (ok p) = ok p

abbrev pub trusting : {Certs : Type 0} → Text → Option Certs → Result Certs
trusting op none = err (no_roots op)
trusting op (some certs) = ok certs

module _ {Pair Certs : Type 0} (pki : Pki Pair Certs) where
  unfoldable pub read : Text → Text → Text → Result Text
  read op dir name = content op (pki.join dir name) (pki.read_file (pki.join dir name))

  -- The part of `MutualTLS` between its first guard and its return, on its `read`;
  -- `ServerCredentials` of internal/grpcapi/credentials.go has the same.
  unfoldable pub material : Text → (Text → Result Text) → Result (Pair × Certs)
  material op read_named = do
    cert_pem ← read_named (lit "tls.crt")
    key_pem ← read_named (lit "tls.key")
    ca_pem ← read_named (lit "ca.pem")
    pair ← paired op (pki.key_pair cert_pem key_pem)
    certs ← trusting op (pki.pool_of ca_pem)
    ok (pair, certs)

  abbrev pub client_tls : Pair × Certs → ClientTls Pair Certs
  client_tls (pair, roots) = record {
    certificates = pair ∷ [];
    root_cas = roots;
    min_version = version_tls13;
  }

  unfoldable pub mutual_tls : Text → Settings → Result (ClientTls Pair Certs)
  unfolding read material
  mutual_tls op s =
      if is_empty s.pki_dir
      then err (no_directory op)
      else material op (read op s.pki_dir) >>= λ m. ok (client_tls m)
