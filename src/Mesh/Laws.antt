-- ===== src/Mesh/Laws.antt =====
-- What a service name that internal/mesh/spiffe.go reads says of the certificate.
use kinetix_search_service.Common.{
  Memᴰ, false, ◌≡◌, refl, sym, ap, ◌∙◌, inl, inr, List, [], ◌∷◌, ◌++◌, Text, subst, is_empty,
  has_prefix, without, contains, arith, if◌then◌else◌, Bool-cases, has_prefix-append,
  without-append, append-without,
}
use mathlib.Core.List.Memᴰ.{head, tail}
use kinetix_search_service.Mesh.{
  slash, prefix_of, whole_name, name_after, service_of, service_in, service_among, peer_service,
}

-- A service name: not empty, without a slash.
abbrev pub IsServiceName : Text → Type 0
IsServiceName name = (is_empty name ≡ false) × (contains slash name ≡ false)

whole_name-inv :
    (name : Text)
    → is_empty (whole_name name) ≡ false
    → (whole_name name ≡ name) × IsServiceName name
whole_name-inv [] h = absurd (ground arith)
whole_name-inv (c ∷ name) h = elim (Bool-cases (contains slash (c ∷ name))) [
  | inl bad ↦ absurd (ground arith)
  | inr good ↦ (ground arith, (refl, good))
]

whole_name-IsServiceName : (name : Text) → IsServiceName name → whole_name name ≡ name
whole_name-IsServiceName name (filled, whole) = ground (arith, filled, whole)

name_after-inv :
    (p id : Text)
    → is_empty (name_after p id) ≡ false
    → (id ≡ p ++ name_after p id) × IsServiceName (name_after p id)
name_after-inv p id h = elim (Bool-cases (has_prefix id p)) [
  | inl has ↦
      let same : name_after p id ≡ whole_name (without id p) = ground (arith, has) in
      let (whole, good) = whole_name-inv (without id p) (ap is_empty (sym same) ∙ h) in
      let name : name_after p id ≡ without id p = same ∙ whole in
      (
        sym (append-without id p has) ∙ ap (λ n. p ++ n) (sym name),
        subst IsServiceName (sym name) good,
      )
  | inr other ↦ absurd (ground (arith, other, h))
]

name_after-append : (p name : Text) → IsServiceName name → name_after p (p ++ name) ≡ name
name_after-append p name good =
    let has = has_prefix-append p name in
    let same : name_after p (p ++ name) ≡ whole_name (without (p ++ name) p) =
      ground (arith, has) in
    same ∙ ap whole_name (without-append p name) ∙ whole_name-IsServiceName name good

-- A certificate's URI and the trust domain and name that are read from it.
pub record Names (uri : Text) (domains : List Text) (name : Text) : Type 0 where
  pub domain : Text
  pub trusted : Memᴰ domain domains
  pub spelled : uri ≡ prefix_of domain ++ name
  pub good : IsServiceName name

pick_lem :
    (P : Text → Type 0) (name rest : Text)
    → (is_empty name ≡ false → P name)
    → (is_empty rest ≡ false → P rest)
    → is_empty (if is_empty name then rest else name) ≡ false
    → P (if is_empty name then rest else name)
pick_lem P [] rest h k e = k e
pick_lem P (c ∷ name) rest h k e = h refl

Names-later :
    {uri domain name : Text} {domains : List Text}
    → Names uri domains name
    → Names uri (domain ∷ domains) name
Names-later n = record {
  domain = n.domain;
  trusted = tail n.trusted;
  spelled = n.spelled;
  good = n.good;
}

service_in-Names :
    (uri : Text) (domains : List Text)
    → is_empty (service_in uri domains) ≡ false
    → Names uri domains (service_in uri domains)
unfolding service_in service_of
service_in-Names uri [] h = absurd (ground arith)
service_in-Names uri (domain ∷ domains) h =
    pick_lem (Names uri (domain ∷ domains)) (service_of uri domain) (service_in uri domains)
      (λ e.
        let (spelled, good) = name_after-inv (prefix_of domain) uri e in
        record { domain = domain; trusted = head refl; spelled = spelled; good = good })
      (λ e. Names-later (service_in-Names uri domains e)) h

-- A URI of the peer's own certificate that names it.
pub record IsNamed (certificates : List (List Text)) (domains : List Text) (name : Text)
    : Type 0 where
  pub uris : List Text
  pub others : List (List Text)
  pub uri : Text
  pub chain : certificates ≡ uris ∷ others
  pub presented : Memᴰ uri uris
  pub names : Names uri domains name

abbrev OneOf : List Text → List Text → Text → Type 0
OneOf uris domains name = (uri : Text) × Memᴰ uri uris × Names uri domains name

service_among-OneOf :
    (uris domains : List Text)
    → is_empty (service_among uris domains) ≡ false
    → OneOf uris domains (service_among uris domains)
unfolding service_among
service_among-OneOf [] domains h = absurd (ground arith)
service_among-OneOf (uri ∷ uris) domains h =
    pick_lem (OneOf (uri ∷ uris) domains) (service_in uri domains) (service_among uris domains)
      (λ e. (uri, head refl, service_in-Names uri domains e))
      (λ e. let (u, at, n) = service_among-OneOf uris domains e in (u, tail at, n)) h

-- A service name that is read from a peer's certificates is spelled out, after a trust domain of
-- the list, by a URI of the first of them, and has no slash.
pub peer_service-IsNamed :
    (certificates : List (List Text)) (domains : List Text)
    → is_empty (peer_service certificates domains) ≡ false
    → IsNamed certificates domains (peer_service certificates domains)
unfolding peer_service
peer_service-IsNamed [] domains h = absurd (ground arith)
peer_service-IsNamed (uris ∷ others) domains h =
    let (uri, at, n) = service_among-OneOf uris domains h in
    record { uris = uris; others = others; uri = uri; chain = refl; presented = at; names = n }

-- The URI of a service in a trust domain is read as that service, if its name is not empty and has
-- no slash.
pub service_of-prefix_of :
    (domain name : Text) → IsServiceName name → service_of (prefix_of domain ++ name) domain ≡ name
unfolding service_of
service_of-prefix_of domain name good = name_after-append (prefix_of domain) name good
