-- ===== src/Search/Errors.antt =====
-- internal/search/errors.go: kinds, the package's error, and the walk down a chain of errors.
-- An error is the chain that `errors.As` and `errors.Is` walk. `foreign` is an error value of the
-- language, the library or a package outside the repository, by its name; `http_error` is the
-- engine client's, with its status, and `rpc_error` a gRPC status, with its code.
-- The arguments of a format are kept beside it, unrendered.
pub mod Laws
use kinetix_search_service.Common.{
  ℕ, ℤ, ◌==◌, ◌||◌, Bool, true, false, List, [], ◌∷◌, ◌++◌, Option, none, some, Text, lit, is_empty,
  text_eq, if◌then◌else◌, Res,
}

-- The names of a `Kind`; a value past the last one, which the program never makes, is `unknown` to
-- every switch over it.
pub data Kind : Type 0 where
  unknown malformed_query not_found stale index_unavailable dependency_unavailable : Kind
  corrupt_record : Kind

unfoldable pub kind_string : Kind → Text
kind_string malformed_query = lit "malformed_query"
kind_string not_found = lit "not_found"
kind_string stale = lit "stale"
kind_string index_unavailable = lit "index_unavailable"
kind_string dependency_unavailable = lit "dependency_unavailable"
kind_string corrupt_record = lit "corrupt_record"
kind_string unknown = lit "unknown"

-- An argument of a format.
pub data Arg : Type 0 where
  str : Text → Arg
  num : ℤ → Arg

-- `bare` and `tagged` are the `*Error` of the package, without and with an inner error.
pub data GoError : Type 0 where
  foreign : Text → GoError
  http_error : ℕ → GoError
  rpc_error : ℕ → GoError
  formatted : Text → List Arg → GoError
  wrapping : Text → List Arg → GoError → GoError
  bare : Kind → Text → GoError
  tagged : Kind → Text → GoError → GoError

abbrev pub Result {ℓ} : Type ℓ → Type ℓ
Result A = Res GoError A

abbrev errf_format : Kind → Text → Option GoError → Text → List Arg → GoError
errf_format kind op none format args = tagged kind op (formatted format args)
errf_format kind op (some cause) format args =
    tagged kind op (wrapping (format ++ lit ": %w") args cause)

abbrev errf_plain : Kind → Text → Option GoError → GoError
errf_plain kind op none = bare kind op
errf_plain kind op (some cause) = tagged kind op cause

unfoldable pub errf : Kind → Text → Option GoError → Text → List Arg → GoError
errf kind op cause format args =
    if is_empty format then errf_plain kind op cause else errf_format kind op cause format args

-- `Unwrap`, and the one of an error that `fmt.Errorf` made with `%w`.
unfoldable pub unwrap : GoError → Option GoError
unwrap (wrapping f a e) = some e
unwrap (tagged k op e) = some e
unwrap _ = none

unfoldable pub kind_of : GoError → Kind
kind_of (bare k op) = k
kind_of (tagged k op e) = k
kind_of (wrapping f a e) = kind_of e
kind_of (foreign n) = unknown
kind_of (http_error n) = unknown
kind_of (rpc_error n) = unknown
kind_of (formatted f a) = unknown

-- `errors.As(err, &httpErr)`: the status of the first HTTP error of the chain.
unfoldable pub http_status : GoError → Option ℕ
http_status (http_error n) = some n
http_status (tagged k op e) = http_status e
http_status (wrapping f a e) = http_status e
http_status (bare k op) = none
http_status (foreign n) = none
http_status (rpc_error n) = none
http_status (formatted f a) = none

-- `errors.Is(err, target)` for a target of this name.
unfoldable pub error_is : Text → GoError → Bool
error_is t (foreign n) = text_eq n t
error_is t (tagged k op e) = error_is t e
error_is t (wrapping f a e) = error_is t e
error_is t (bare k op) = false
error_is t (http_error n) = false
error_is t (rpc_error n) = false
error_is t (formatted f a) = false
