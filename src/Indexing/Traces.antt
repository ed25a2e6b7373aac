-- ===== src/Indexing/Traces.antt =====
-- Protocols: which phases the calls of a trace lead through, for any steps and any silent moves.
use kinetix_search_service.Common.{List, [], ◌∷◌, ok, err}
use kinetix_search_service.Search.Errors.{Result, GoError}
use kinetix_search_service.Search.Call.{Call}
use kinetix_search_service.Search.Call.Rules.{Holds, After}
use kinetix_search_service.Indexing.Recorded.{Event, Noted, note}

-- The trace, latest call first, leads from `idle` to the phase.
pub data Leads {D P : Type 0} (Step : P → Event D → P → Type 0) (Skip : P → P → Type 0) (idle : P)
    : List (Event D) → P → Type 0 where
  start : Leads Step Skip idle [] idle
  step :
      {t : List (Event D)} {e : Event D} {p q : P}
      → Leads Step Skip idle t p
      → Step p e q
      → Leads Step Skip idle (e ∷ t) q
  skip :
      {t : List (Event D)} {p q : P}
      → Leads Step Skip idle t p
      → Skip p q
      → Leads Step Skip idle t q

module _ {W D P : Type 0} (Step : P → Event D → P → Type 0) (Skip : P → P → Type 0) (idle : P) where
  abbrev pub Stands : P → Noted W D → Type 0
  Stands p n = Leads Step Skip idle n.trace p

  Holds-note :
      {A : Type 0} (p : P) (event : Result A → Event D) (q : A → P) (failed : P) (r : Result A)
      (w : W) (t : List (Event D))
      → ((a : A) → Step p (event (ok a)) (q a))
      → ((e : GoError) → Step p (event (err e)) failed)
      → Leads Step Skip idle t p
      → Holds {W = Noted W D}
          (λ a. Stands (q a))
          (Stands failed)
          r
          (record { world = w; trace = event r ∷ t })
  Holds-note p event q failed (ok a) w t good bad h = step h (good a)
  Holds-note p event q failed (err e) w t good bad h = step h (bad e)

  -- One noted call is one step, by its answer.
  pub After-note :
      {A : Type 0} (p : P) (event : Result A → Event D) (call : Call W A) (q : A → P) (failed : P)
      → ((a : A) → Step p (event (ok a)) (q a))
      → ((e : GoError) → Step p (event (err e)) failed)
      → After (Stands p) (note event call) (λ a. Stands (q a)) (Stands failed)
  After-note p event call q failed good bad = record {
    at = λ n h. Holds-note p event q failed (call n.world).0 (call n.world).1 n.trace good bad h;
  }
