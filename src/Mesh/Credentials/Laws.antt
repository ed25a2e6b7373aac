-- ===== src/Mesh/Credentials/Laws.antt =====
-- What the credentials of internal/mesh/credentials.go hold.
use kinetix_search_service.Common.{
  ◌≡◌, refl, false, Option, none, some, [], ◌∷◌, Text, lit, is_empty, Bool-cases, inl, inr, ok, err,
  >>=-eq_ok, >>=-eq_err, ◌>>=◌, ok-injective, arith, Fails, Fails-err, subst,
}
use kinetix_search_service.Search.Errors.{Result, GoError, errf, kind_of, dependency_unavailable}
use kinetix_search_service.Mesh.Credentials.{
  Settings, Pki, ClientTls, version_tls13, content, paired, trusting, read, material, client_tls,
  mutual_tls,
}

abbrev pub IsUnavailable : GoError → Type 0
IsUnavailable e = kind_of e ≡ dependency_unavailable

pub content-inv :
    (op path : Text) (r : Result Text) {bytes : Text}
    → content op path r ≡ ok bytes
    → (r ≡ ok bytes) × (is_empty bytes ≡ false)
content-inv op path (err e) h = absurd (cc h)
content-inv op path (ok bytes) h = ground (arith, h)

pub Fails-content : (op path : Text) (r : Result Text) → Fails IsUnavailable (content op path r)
unfolding errf kind_of
Fails-content op path (err e) = refl
Fails-content op path (ok []) = refl
Fails-content op path (ok (c ∷ bytes)) = tt

pub paired-inv :
    {Pair : Type 0} (op : Text) (r : Result Pair) {p : Pair} → paired op r ≡ ok p → r ≡ ok p
paired-inv op (err e) h = absurd (cc h)
paired-inv op (ok p) h = h

pub Fails-paired : {Pair : Type 0} (op : Text) (r : Result Pair) → Fails IsUnavailable (paired op r)
unfolding errf kind_of
Fails-paired op (err e) = refl
Fails-paired op (ok p) = tt

pub trusting-inv :
    {Certs : Type 0} (op : Text) (o : Option Certs) {c : Certs} → trusting op o ≡ ok c → o ≡ some c
trusting-inv op none h = absurd (cc h)
trusting-inv op (some c) h = cc h

pub Fails-trusting :
    {Certs : Type 0} (op : Text) (o : Option Certs) → Fails IsUnavailable (trusting op o)
unfolding errf kind_of
Fails-trusting op none = refl
Fails-trusting op (some c) = tt

module _ {Pair Certs : Type 0} (pki : Pki Pair Certs) where
  -- A file of the directory, which is not empty.
  abbrev pub Holds : Text → Text → Text → Type 0
  Holds dir name bytes = (pki.read_file (pki.join dir name) ≡ ok bytes) × (is_empty bytes ≡ false)

  -- The three files of a directory, and what they hold: a pair and the certificates to trust.
  pub record IsMaterial (dir : Text) (pair : Pair) (certs : Certs) : Type 0 where
    pub cert_pem : Text
    pub key_pem : Text
    pub ca_pem : Text
    pub has_cert : Holds dir (lit "tls.crt") cert_pem
    pub has_key : Holds dir (lit "tls.key") key_pem
    pub has_ca : Holds dir (lit "ca.pem") ca_pem
    pub pairs : pki.key_pair cert_pem key_pem ≡ ok pair
    pub trusts : pki.pool_of ca_pem ≡ some certs

  pub material-IsMaterial :
      (op dir : Text) {pair : Pair} {certs : Certs}
      → material pki op (read pki op dir) ≡ ok (pair, certs)
      → IsMaterial dir pair certs
  unfolding material read
  material-IsMaterial op dir h =
      let (cert_pem, cert, h₁) = >>=-eq_ok (read pki op dir (lit "tls.crt")) _ h in
      let (key_pem, key, h₂) = >>=-eq_ok (read pki op dir (lit "tls.key")) _ h₁ in
      let (ca_pem, ca, h₃) = >>=-eq_ok (read pki op dir (lit "ca.pem")) _ h₂ in
      let (pair, pairs, h₄) = >>=-eq_ok (paired op (pki.key_pair cert_pem key_pem)) _ h₃ in
      let (certs, trusts, h₅) = >>=-eq_ok (trusting op (pki.pool_of ca_pem)) _ h₄ in
      subst (λ (p : Pair × Certs). IsMaterial dir p.0 p.1) (ok-injective h₅)
        (record {
          cert_pem = cert_pem;
          key_pem = key_pem;
          ca_pem = ca_pem;
          has_cert = content-inv op _ _ cert;
          has_key = content-inv op _ _ key;
          has_ca = content-inv op _ _ ca;
          pairs = paired-inv op _ pairs;
          trusts = trusting-inv op _ trusts;
        })

  read-IsUnavailable :
      (op dir name : Text) {e : GoError} → read pki op dir name ≡ err e → IsUnavailable e
  unfolding read
  read-IsUnavailable op dir name h =
      Fails-err IsUnavailable _ (Fails-content op _ (pki.read_file (pki.join dir name))) h

  pub material-IsUnavailable :
      (op dir : Text) {e : GoError} → material pki op (read pki op dir) ≡ err e → IsUnavailable e
  unfolding material
  material-IsUnavailable op dir h = elim (>>=-eq_err (read pki op dir (lit "tls.crt")) _ h) [
    | inl f ↦ read-IsUnavailable op dir (lit "tls.crt") f
    | inr (cert, _, h₁) ↦ elim (>>=-eq_err (read pki op dir (lit "tls.key")) _ h₁) [
      | inl f ↦ read-IsUnavailable op dir (lit "tls.key") f
      | inr (key, _, h₂) ↦ elim (>>=-eq_err (read pki op dir (lit "ca.pem")) _ h₂) [
        | inl f ↦ read-IsUnavailable op dir (lit "ca.pem") f
        | inr (ca, _, h₃) ↦ elim (>>=-eq_err (paired op (pki.key_pair cert key)) _ h₃) [
          | inl f ↦ Fails-err IsUnavailable _ (Fails-paired op _) f
          | inr (pair, _, h₄) ↦ elim (>>=-eq_err (trusting op (pki.pool_of ca)) _ h₄) [
            | inl f ↦ Fails-err IsUnavailable _ (Fails-trusting op (pki.pool_of ca)) f
            | inr (certs, _, h₅) ↦ absurd (cc h₅)
          ]
        ]
      ]
    ]
  ]

  -- Credentials that present one pair, trust the certificates of ca.pem and no others, and speak
  -- TLS 1.3 at least.
  pub record IsMutual (dir : Text) (tls : ClientTls Pair Certs) : Type 0 where
    pub pair : Pair
    pub presents : tls.certificates ≡ pair ∷ []
    pub material : IsMaterial dir pair tls.root_cas
    pub modern : tls.min_version ≡ version_tls13

  -- What `MutualTLS` returns: such credentials, or the error of a dependency that is unavailable.
  abbrev pub Secures : Text → Result (ClientTls Pair Certs) → Type 0
  Secures dir (ok tls) = (is_empty dir ≡ false) × IsMutual dir tls
  Secures dir (err e) = IsUnavailable e

  secured :
      (op dir : Text) (r : Result (Pair × Certs))
      → is_empty dir ≡ false
      → material pki op (read pki op dir) ≡ r
      → Secures dir (r >>= λ m. ok (client_tls pki m))
  secured op dir (ok (pair, certs)) given h = (
    given,
    record { pair = pair; presents = refl; material = material-IsMaterial op dir h; modern = refl },
  )
  secured op dir (err e) given h = material-IsUnavailable op dir h

  pub mutual_tls-Secures : (op : Text) (s : Settings) → Secures s.pki_dir (mutual_tls pki op s)
  unfolding mutual_tls errf kind_of
  mutual_tls-Secures op s = elim (Bool-cases (is_empty s.pki_dir)) [
    | inl blank ↦ rw blank refl
    | inr given ↦
        rw given (secured op s.pki_dir (material pki op (read pki op s.pki_dir)) given refl)
  ]
