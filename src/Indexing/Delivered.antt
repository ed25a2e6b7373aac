-- ===== src/Indexing/Delivered.antt =====
-- The calls that a run of internal/indexing makes, through internal/typesense/index.go, of an
-- engine, a source, a checkpoint and a lock. Each of the four is a parameter here: the records below
-- say what is relied on, over a view of the world.
pub mod Indexed
pub mod Runs
pub mod Rebuilds
pub mod Tables
use kinetix_search_service.Common.{
  ℤ, ◌≡◌, ◌≤◌, Option, none, some, List, [], ◌∷◌, ◌++◌, Text, lit, All, ok, Bool, true, false,
  text_eq, if◌then◌else◌,
}
use kinetix_search_service.Search.Errors.{Result}
use kinetix_search_service.Search.Call.{Call}
use kinetix_search_service.Search.Call.Yields.{Yields}
use kinetix_search_service.Search.Document.{
  Collection, Generation, Cursor, Changes, Progress, zero_cursor, collection_name,
}
use kinetix_search_service.Search.Service.{Source, Checkpoint, Lock}
use kinetix_search_service.Indexing.Memory.{Docs, Write, replay, drops, page_writes}
use kinetix_search_service.Postgres.{max_int64}
use kinetix_search_service.Typesense.Documents as Documents
use kinetix_search_service.Typesense.Documents.{Document, Value}
use kinetix_search_service.Typesense.Schema.{CollectionSchema}
use kinetix_search_service.Typesense.Engine.{Engine, ImportResult}
use kinetix_search_service.Typesense.Index.Laws.{IsAccepted, IsGone}

-- Which generations the engine has, what it holds by generation and id, where the alias points, the
-- saved cursor, if any, and whether the lock is held.
pub record Seen (F : Type 0) : Type 0 where
  pub made : Generation → Bool
  pub docs : Docs (Document F)
  pub alias : Generation
  pub saved : Option Cursor
  pub held : Bool

-- Without a saved cursor a run starts from the zero cursor.
abbrev pub cursor_of : Option Cursor → Cursor
cursor_of none = zero_cursor
cursor_of (some cur) = cur

module _ {F : Type 0} where
  abbrev pub text_of : Option (Value F) → Text
  text_of (some (Documents.str s)) = s
  text_of _ = []

  -- The id that a document carries; every encoding of internal/typesense/documents.go has one.
  abbrev pub id_of : Document F → Text
  id_of d = text_of (Documents.get d (lit "id"))

  abbrev pub IsNamed : Document F → Type 0
  IsNamed d = Documents.get d (lit "id") ≡ some (Documents.str (id_of d))

  abbrev pub stored : List (Document F) → List (Write (Document F))
  stored [] = []
  stored (d ∷ ds) = (id_of d, some d) ∷ stored ds

  abbrev pub written : Generation → List (Write (Document F)) → Seen F → Seen F
  written g ws s = record s { docs = replay g ws s.docs }

  -- With a new generation that holds nothing.
  abbrev pub with_generation : Generation → Seen F → Seen F
  with_generation g s = record s {
    made = λ h. if text_eq h g then true else s.made h;
    docs = λ h id. if text_eq h g then none else s.docs h id;
  }

  -- An engine that does what it is asked with a generation that it has: it takes documents, told to
  -- "upsert" them, each under the id it carries and over the one that was there, deletes by id, counts, and lets the
  -- alias point there. It makes a generation that it has not. A deletion may be answered with the
  -- report that there was no such document.
  pub record Stores {W : Type 0} (view : W → Seen F) (engine : Engine W F) (c : Collection)
      (size : (Text → Option (Document F)) → ℤ) : Type 0 where
    pub results : Seen F → List (Document F) → List (Option ImportResult)
    pub accepted :
        (s : Seen F) (ds : List (Document F)) → All IsNamed ds → All IsAccepted (results s ds)
    pub imports :
        (s : Seen F) (g : Generation) (ds : List (Document F))
        → s.made g ≡ true
        → All IsNamed ds
        → Yields view s
            (engine.import_into g (lit "upsert") ds)
            (results s ds)
            (written g (stored ds) s)
    pub deletes :
        (s : Seen F) (g : Generation) (id : Text) (w : W)
        → s.made g ≡ true
        → view w ≡ s
        → (r : Result (Unit {0})) × (w' : W) × (engine.delete g id w ≡ (r, w'))
          × IsGone r
          × (view w' ≡ written g ((id, none) ∷ []) s)
    pub points : (s : Seen F) → Yields view s (engine.alias_target (collection_name c)) s.alias s
    pub creates :
        (s : Seen F) (schema : CollectionSchema)
        → s.made schema.name ≡ false
        → Yields view s (engine.create schema) tt (with_generation schema.name s)
    pub counts :
        (s : Seen F) (g : Generation)
        → s.made g ≡ true
        → Yields view s (engine.count_documents g) (some (size (s.docs g))) s
    pub moves :
        (s : Seen F) (g : Generation)
        → s.made g ≡ true
        → Yields view s (engine.upsert_alias (collection_name c) g) tt (record s { alias = g })

  -- A source that answers by the cursor alone.
  pub record Answers {W D : Type 0} (view : W → Seen F) (source : Source W D) (limit : ℤ)
      (feed : Cursor → Changes D) : Type 0 where
    pub answers :
        (s : Seen F) (cur : Cursor) → Yields view s (source.changed_since cur limit) (feed cur) s

  -- A checkpoint that keeps a cursor which fits its table, as `storable` says; what it keeps of it may depend on the
  -- cursor it has, as the instant of the table does.
  pub record Saves {W : Type 0} (view : W → Seen F) (checkpoint : Checkpoint W) (c : Collection)
      (keep : Option Cursor → Cursor → Cursor) (storable : Cursor → Type 0) : Type 0 where
    pub loads :
        (s : Seen F) (w : W)
        → view w ≡ s
        → (p : Progress) × (w' : W) × (checkpoint.load c w ≡ (ok p, w'))
          × (p.cursor ≡ cursor_of s.saved)
          × (view w' ≡ s)
    pub saves :
        (s : Seen F) (cur : Cursor)
        → storable cur
        → Yields view s (checkpoint.save c cur) tt (record s { saved = some (keep s.saved cur) })

  -- A lock that is free.
  pub record Excludes {W : Type 0} (view : W → Seen F) (lock : Lock W) (c : Collection)
      : Type 0 where
    pub holds : (s : Seen F) → Yields view s (lock.hold c) tt (record s { held = true })
    pub releases :
        (s : Seen F) (w : W) → view w ≡ s → view (lock.release c w) ≡ record s { held = false }
