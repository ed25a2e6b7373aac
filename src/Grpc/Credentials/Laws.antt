-- ===== src/Grpc/Credentials/Laws.antt =====
-- Who can open a connection to the service: ServerCredentials of internal/grpcapi/credentials.go.
use kinetix_search_service.Common.{
  ◌≡◌, refl, ◌∙◌, false, [], ◌∷◌, Text, is_empty, Bool-cases, inl, inr, ok, err, ◌>>=◌,
}
use kinetix_search_service.Search.Errors.{Result, errf, kind_of}
use kinetix_search_service.Mesh.Credentials as Mesh
use kinetix_search_service.Mesh.Credentials.{Pki, version_tls13, material}
use kinetix_search_service.Mesh.Credentials.Laws.{
  IsUnavailable, IsMaterial, material-IsMaterial, material-IsUnavailable,
}
use kinetix_search_service.Grpc.Credentials.{
  ServerTls, require_and_verify_client_cert, op, server_tls, read, server_credentials,
}

module _ {Pair Certs : Type 0} (pki : Pki Pair Certs) where
  -- Credentials that present one pair, admit only clients with a certificate that ca.pem vouches for,
  -- and speak TLS 1.3 at least.
  pub record IsExclusive (dir : Text) (tls : ServerTls Pair Certs) : Type 0 where
    pub pair : Pair
    pub presents : tls.certificates ≡ pair ∷ []
    pub material : IsMaterial pki dir pair tls.client_cas
    pub verifies : tls.client_auth ≡ require_and_verify_client_cert
    pub modern : tls.min_version ≡ version_tls13

  -- What `ServerCredentials` returns: such credentials, or the error of a dependency that is
  -- unavailable.
  abbrev pub Admits : Text → Result (ServerTls Pair Certs) → Type 0
  Admits dir (ok tls) = (is_empty dir ≡ false) × IsExclusive dir tls
  Admits dir (err e) = IsUnavailable e

  -- The two packages read a file alike.
  same_read : (dir : Text) → material pki op (Mesh.read pki op dir) ≡ material pki op (read pki dir)
  unfolding read Mesh.read
  same_read dir = refl

  admitted :
      (dir : Text) (r : Result (Pair × Certs))
      → is_empty dir ≡ false
      → material pki op (read pki dir) ≡ r
      → Admits dir (r >>= λ m. ok (server_tls pki m))
  admitted dir (ok (pair, certs)) given h = (
    given,
    record {
      pair = pair;
      presents = refl;
      material = material-IsMaterial pki op dir (same_read dir ∙ h);
      verifies = refl;
      modern = refl;
    },
  )
  admitted dir (err e) given h = material-IsUnavailable pki op dir (same_read dir ∙ h)

  pub server_credentials-Admits : (dir : Text) → Admits dir (server_credentials pki dir)
  unfolding server_credentials errf kind_of
  server_credentials-Admits dir = elim (Bool-cases (is_empty dir)) [
    | inl blank ↦ rw blank refl
    | inr given ↦ rw given (admitted dir (material pki op (read pki dir)) given refl)
  ]
