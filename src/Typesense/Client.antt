-- ===== src/Typesense/Client.antt =====
-- internal/typesense/client.go: the engine's client is a parameter, made of the three settings.
use kinetix_search_service.Common.{pos, ltb_ℤ, none, [], ◌∷◌, Text, lit, if◌then◌else◌, ok, err}
use kinetix_search_service.Search.Errors.{Result, GoError, errf, index_unavailable, num}
use kinetix_search_service.Search.Time.{Duration}

pub record Settings : Type 0 where
  pub url : Text
  pub api_key : Text
  pub timeout : Duration

abbrev pub untimed : Settings → GoError
untimed s =
    errf index_unavailable (lit "typesense.Connect") none
      (lit "a request timeout is required, got %s") (num s.timeout ∷ [])

unfoldable pub connect : {C : Type 0} → (Text → Text → Duration → C) → Settings → Result C
connect new_client s =
    if ltb_ℤ (pos 0) s.timeout then ok (new_client s.url s.api_key s.timeout) else err (untimed s)
