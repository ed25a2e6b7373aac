-- ===== src/Commands/Migrate.antt =====
-- cmd/migrate/main.go: `run`. The database, and the calls of goose on it, are parameters, with their
-- effects on the state behind them; the log and the exit status are not modelled.
pub mod Laws
use kinetix_search_service.Common.{
  ℤ, none, some, [], Text, lit, is_empty, Option, if◌then◌else◌, ok, err,
}
use kinetix_search_service.Search.Errors.{Result, GoError, errf, dependency_unavailable}
use kinetix_search_service.Search.Call.{Call, pure, raise, continue, ◌>>=◌, ◌>>◌, handling}

pub record Goose (W Db : Type 0) : Type 0 where
  pub open_database : Text → Call W Db
  pub set_dialect : Call W (Unit {0})
  pub version : Db → Call W ℤ
  pub up : Db → Call W (Unit {0})
  pub close : Db → W → W

abbrev pub unavailable : Text → Text → GoError → GoError
unavailable op what e = errf dependency_unavailable op (some e) what []

abbrev pub no_url : GoError
no_url =
    errf dependency_unavailable (lit "migrate.config") none (lit "SEARCH_DATABASE_URL must be set")
      []

module _ {W Db : Type 0} (goose : Goose W Db) where
  -- What runs on an open database: the versions before and after, which the log names.
  unfoldable pub migrated : Db → Call W (ℤ × ℤ)
  migrated db = do
    handling (unavailable (lit "migrate.dialect") (lit "postgres")) goose.set_dialect
    before ← handling (unavailable (lit "migrate.version") (lit "reading")) (goose.version db)
    handling (unavailable (lit "migrate.up") (lit "applying")) (goose.up db)
    after ← handling (unavailable (lit "migrate.version") (lit "reading")) (goose.version db)
    pure (before, after)

  -- The deferred close.
  abbrev pub closing : {A : Type 0} → Db → Result A × W → Result A × W
  closing db (r, w) = (r, goose.close db w)

  -- `run`, on the value of SEARCH_DATABASE_URL.
  unfoldable pub run : Text → Call W (ℤ × ℤ)
  unfolding migrated
  run url w =
      if is_empty url
      then (err no_url, w)
      else (handling (unavailable (lit "migrate.open") (lit "opening")) (goose.open_database url)
            >>= λ db w. closing db (migrated db w))
          w
