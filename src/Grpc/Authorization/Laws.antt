-- ===== src/Grpc/Authorization/Laws.antt =====
-- Who the interceptor of internal/grpcapi/authorization.go lets through.
use kinetix_search_service.Common.{
  true, false, ◌≡◌, refl, sym, subst, ◌⊎◌, inl, inr, Memᴰ, none, some, List, [], ◌∷◌, Text, lit,
  is_empty, text_eq, any, eq_of_text_eq, ok, err, Res, Bool-cases, arith,
}
use mathlib.Core.List.Memᴰ.{head, tail}
use kinetix_search_service.Mesh.{trust_domains, peer_service}
use kinetix_search_service.Mesh.Laws.{IsNamed, peer_service-IsNamed}
use kinetix_search_service.Search.Errors.{str}
use kinetix_search_service.Grpc.{Status}
use kinetix_search_service.Grpc.Authorization.{
  Transport, denied, permission_denied, named, peer_name, is_allowed, is_open, admit, authorize,
}

any-Memᴰ : (x : Text) (xs : List Text) → any (text_eq x) xs ≡ true → Memᴰ x xs
any-Memᴰ x [] h = absurd (ground arith)
any-Memᴰ x (y ∷ xs) h = elim (Bool-cases (text_eq x y)) [
  | inl same ↦ head (eq_of_text_eq x y same)
  | inr other ↦ tail (any-Memᴰ x xs (ground (arith, other, h)))
]

-- A caller who shows certificates that name a service of the list.
pub record IsListed (allowed domains : List Text) (caller : Transport) : Type 0 where
  pub certificates : List (List Text)
  pub name : Text
  pub presented : caller ≡ some (some certificates)
  pub is_named : IsNamed certificates domains name
  pub listed : Memᴰ name allowed

named-inv :
    (read : Text) {name : Text} → named read ≡ ok name → (is_empty read ≡ false) × (read ≡ name)
named-inv read h = ground arith

peer_name-IsNamed :
    (caller : Transport) (domains : List Text) {name : Text}
    → peer_name caller domains ≡ ok name
    → (certificates : List (List Text)) × (caller ≡ some (some certificates))
      × IsNamed certificates domains name
unfolding peer_name
peer_name-IsNamed none domains h = absurd (ground arith)
peer_name-IsNamed (some none) domains h = absurd (ground arith)
peer_name-IsNamed (some (some certificates)) domains h =
    let (read, same) = named-inv (peer_service certificates domains) h in
    (
      certificates,
      refl,
      subst (IsNamed certificates domains) same (peer_service-IsNamed certificates domains read),
    )

peer_name_denied :
    (caller : Transport) (domains : List Text) {s : Status}
    → peer_name caller domains ≡ err s
    → s.code ≡ permission_denied
unfolding peer_name
peer_name_denied none domains h = ground arith
peer_name_denied (some none) domains h = ground arith
peer_name_denied (some (some certificates)) domains h = ground arith

-- A call that may be made: of an open method, or by a listed caller.
abbrev pub IsAdmitted : List Text → List Text → Transport → Text → Type 0
IsAdmitted allowed domains caller method = (is_open method ≡ true) ⊎ IsListed allowed domains caller

-- How a call ends: with the handler's own answer, if it may be made, or refused with nothing
-- changed.
abbrev pub Guarded : {W A : Type 0} → Type 0 → Res Status A × W → W → Res Status A × W → Type 0
Guarded admitted answer w got =
    (admitted × (got ≡ answer)) ⊎ ((s : Status) × (s.code ≡ permission_denied) × (got ≡ (err s, w)))

unlisted : Text → Status
unlisted name = denied (lit "'%s' is not on this service's caller list") (str name ∷ [])

module _ {W A : Type 0} (allowed : List Text) (variable : Text) where
  admit-Guarded :
      (caller : Transport) (method : Text) (handler : W → Res Status A × W) (w : W)
      (r : Res Status Text)
      → peer_name caller (trust_domains variable) ≡ r
      → Guarded
          (IsAdmitted allowed (trust_domains variable) caller method)
          (handler w)
          w
          (admit allowed variable handler r w)
  unfolding unlisted
  admit-Guarded caller method handler w (err s) h =
      inr (s, peer_name_denied caller (trust_domains variable) h, refl)
  admit-Guarded caller method handler w (ok name) h = elim (Bool-cases (is_allowed allowed name)) [
    | inl listed ↦
        let (certificates, presented, is_named) =
          peer_name-IsNamed caller (trust_domains variable) h in
        inl (
          inr (record {
            certificates = certificates;
            name = name;
            presented = presented;
            is_named = is_named;
            listed = any-Memᴰ name allowed listed;
          }),
          rw (listed) (refl),
        )
    | inr other ↦ inr (unlisted name, refl, rw (other) (refl))
  ]

  -- A handler runs, on the state as it is and with its own answer, only for an open method or for
  -- a caller whose first certificate names, under a trusted domain, a service of the list; every
  -- other call is answered with code 7, and changes nothing.
  pub authorize-Guarded :
      (caller : Transport) (method : Text) (handler : W → Res Status A × W) (w : W)
      → Guarded
          (IsAdmitted allowed (trust_domains variable) caller method)
          (handler w)
          w
          (authorize allowed variable caller method handler w)
  unfolding authorize
  authorize-Guarded caller method handler w = elim (Bool-cases (is_open method)) [
    | inl opened ↦ inl (inl opened, rw (opened) (refl))
    | inr closed ↦
        let past : authorize allowed variable caller method handler w
            ≡ admit allowed variable handler (peer_name caller (trust_domains variable)) w =
          rw (closed) (refl) in
        subst (Guarded (IsAdmitted allowed (trust_domains variable) caller method) (handler w) w)
          (sym past)
          (admit-Guarded caller method handler w (peer_name caller (trust_domains variable)) refl)
  ]
