-- ===== src/Config.antt =====
-- internal/config/config.go: the settings of the environment, which is the value under each name.
-- The secret key and the addresses are texts like any other.
pub mod Laws
use kinetix_search_service.Common.{
  ℕ, ℤ, pos, negsuc, ◌*◌, ◌^◌, ltb_ℤ, wrap64, Bool, true, false, Option, none, some, List, [], ◌∷◌,
  ◌++◌, Text, lit, is_empty, trim_space, if◌then◌else◌, ok, err, Res, ◌/◌,
}
use kinetix_search_service.Common.Strings.Numbers.{atoi}
use kinetix_search_service.Search.Time.{Duration, scale}

abbrev pub Environment : Type 0
Environment = Text → Text

pub record Config : Type 0 where
  pub database_url : Text
  pub typesense_url : Text
  pub typesense_api_key : Text
  pub typesense_timeout : Duration
  pub catalog_endpoint : Text
  pub catalog_deadline : Duration
  pub identity_endpoint : Text
  pub identity_deadline : Duration
  pub order_endpoint : Text
  pub order_deadline : Duration
  pub pki_dir : Text
  pub allowed_peers : Text
  pub http_addr : Text
  pub grpc_addr : Text
  pub sync_interval : Duration
  pub sync_page_size : ℤ
  pub stale_after : Duration

-- What `required` appends to the names that are missing.
unfoldable pub missing_of : Environment → List Text → List Text
missing_of env [] = []
missing_of env (name ∷ names) =
    let rest = missing_of env names in
    if is_empty (trim_space (env name)) then name ∷ rest else rest

abbrev pub required : Environment → Text → Text
required env name = trim_space (env name)

abbrev pub optional : Environment → Text → Text → Text
optional env name fallback =
    let value = trim_space (env name) in if is_empty value then fallback else value

abbrev pub positive_or : ℤ → Option ℤ → ℤ
positive_or fallback none = fallback
positive_or fallback (some value) = if ltb_ℤ (pos 0) value then value else fallback

unfoldable pub number : Environment → Text → ℤ → ℤ
number env name fallback =
    let raw = trim_space (env name) in
    if is_empty raw then fallback else positive_or fallback (atoi raw)

-- A product of 64 bits, which wraps.
abbrev pub in_milliseconds : ℤ → Duration
in_milliseconds n = wrap64 (scale (10 ^ 6) n)

-- `duration`, on a fallback of so many milliseconds.
unfoldable pub duration : Environment → Text → ℕ → Duration
unfolding number
duration env name fallback = in_milliseconds (number env name (pos fallback))

abbrev pub required_names : List Text
required_names =
    lit "SEARCH_DATABASE_URL"
    ∷ lit "SEARCH_TYPESENSE_URL"
    ∷ lit "SEARCH_TYPESENSE_API_KEY"
    ∷ lit "SEARCH_CATALOG_ENDPOINT"
    ∷ lit "SEARCH_IDENTITY_ENDPOINT"
    ∷ lit "SEARCH_ORDER_ENDPOINT"
    ∷ lit "KINETIX_PKI_DIR"
    ∷ []

unfoldable pub settings : Environment → Config
unfolding number duration
settings env = record {
  database_url = required env (lit "SEARCH_DATABASE_URL");
  typesense_url = required env (lit "SEARCH_TYPESENSE_URL");
  typesense_api_key = required env (lit "SEARCH_TYPESENSE_API_KEY");
  catalog_endpoint = required env (lit "SEARCH_CATALOG_ENDPOINT");
  identity_endpoint = required env (lit "SEARCH_IDENTITY_ENDPOINT");
  order_endpoint = required env (lit "SEARCH_ORDER_ENDPOINT");
  pki_dir = required env (lit "KINETIX_PKI_DIR");
  allowed_peers = optional env (lit "KINETIX_GRPC_ALLOWED_PEERS") [];
  http_addr = optional env (lit "SEARCH_HTTP_ADDR") (lit ":8088");
  grpc_addr = optional env (lit "SEARCH_GRPC_ADDR") (lit ":50058");
  typesense_timeout = duration env (lit "SEARCH_TYPESENSE_TIMEOUT_MS") 5_000;
  catalog_deadline = duration env (lit "SEARCH_CATALOG_DEADLINE_MS") 10_000;
  identity_deadline = duration env (lit "SEARCH_IDENTITY_DEADLINE_MS") 10_000;
  order_deadline = duration env (lit "SEARCH_ORDER_DEADLINE_MS") 10_000;
  sync_interval = duration env (lit "SEARCH_SYNC_INTERVAL_MS") 30_000;
  stale_after = duration env (lit "SEARCH_STALE_AFTER_MS") 600_000;
  sync_page_size = number env (lit "SEARCH_SYNC_PAGE_SIZE") (pos 200);
}

abbrev pub unless_missing : Config → List Text → Res (List Text) Config
unless_missing cfg [] = ok cfg
unless_missing cfg (name ∷ names) = err (name ∷ names)

-- The error is the list of names that the message prints.
unfoldable pub from_environment : Environment → Res (List Text) Config
unfolding missing_of settings
from_environment env = unless_missing (settings env) (missing_of env required_names)
