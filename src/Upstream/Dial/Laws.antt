-- ===== src/Upstream/Dial/Laws.antt =====
-- The connections to the other services: whom they trust, and that their calls are limited in time.
use kinetix_search_service.Common.{
  pos, ltb_ℤ, ◌≡◌, refl, true, false, Text, is_empty, ok, err, ◌>>=◌,
}
use kinetix_search_service.Search.Errors.{Result, errf, kind_of}
use kinetix_search_service.Mesh.Credentials.{Pki, ClientTls, Settings, deadline_or, mutual_tls}
use kinetix_search_service.Mesh.Credentials.Laws.{
  IsUnavailable, IsMutual, Secures, mutual_tls-Secures,
}
use kinetix_search_service.Upstream.Dial.{Client, ten_seconds, connected, dial_as}

deadline_own :
    (s : Settings) → ltb_ℤ (pos 0) s.deadline ≡ true → deadline_or s ten_seconds ≡ s.deadline
unfolding deadline_or
deadline_own s set = rw (set) (refl)

deadline_fallback :
    (s : Settings)
    → ltb_ℤ (pos 0) s.deadline ≡ false
    → deadline_or s ten_seconds ≡ pos 10_000_000_000
unfolding deadline_or
deadline_fallback s unset = rw (unset) (refl)

module _ {Pair Certs Conn : Type 0} (pki : Pki Pair Certs)
    (new_client : Text → ClientTls Pair Certs → Result Conn) where
  -- A client that was dialled: its connection is one to the endpoint, by mutual TLS with the files of
  -- the directory, and its deadline is that of the settings, or ten seconds where that is not positive.
  pub record IsDialled (s : Settings) (c : Client Conn) : Type 0 where
    pub creds : ClientTls Pair Certs
    pub given : is_empty s.pki_dir ≡ false
    pub by_tls : IsMutual pki s.pki_dir creds
    pub connects : new_client s.endpoint creds ≡ ok c.conn
    pub own : ltb_ℤ (pos 0) s.deadline ≡ true → c.deadline ≡ s.deadline
    pub fallback : ltb_ℤ (pos 0) s.deadline ≡ false → c.deadline ≡ pos 10_000_000_000

  abbrev pub Dials : Settings → Result (Client Conn) → Type 0
  Dials s (ok c) = IsDialled s c
  Dials s (err e) = IsUnavailable e

  connected-Dials :
      (op : Text) (s : Settings) (creds : ClientTls Pair Certs) (r : Result Conn)
      → (is_empty s.pki_dir ≡ false) × IsMutual pki s.pki_dir creds
      → new_client s.endpoint creds ≡ r
      → Dials s (connected pki new_client op s r)
  unfolding errf kind_of
  connected-Dials op s creds (err e) h same = refl
  connected-Dials op s creds (ok conn) (given, by_tls) same = record {
    creds = creds;
    given = given;
    by_tls = by_tls;
    connects = same;
    own = deadline_own s;
    fallback = deadline_fallback s;
  }

  over-Dials :
      (op : Text) (s : Settings) (r : Result (ClientTls Pair Certs))
      → Secures pki s.pki_dir r
      → Dials s (r >>= λ creds. connected pki new_client op s (new_client s.endpoint creds))
  over-Dials op s (err e) h = h
  over-Dials op s (ok creds) h = connected-Dials op s creds (new_client s.endpoint creds) h refl

  -- A client of another service is connected to the endpoint of its settings, by credentials that
  -- present the pair of tls.crt and tls.key, trust the certificates of ca.pem and no others, and speak
  -- TLS 1.3 at least, where the three files are not empty; and its deadline is that of its settings, or
  -- ten seconds where that is not positive. Otherwise the
  -- error is that of a dependency which is unavailable.
  pub dial_as-Dials : (op : Text) (s : Settings) → Dials s (dial_as pki new_client op s)
  unfolding dial_as
  dial_as-Dials op s = over-Dials op s (mutual_tls pki op s) (mutual_tls-Secures pki op s)
