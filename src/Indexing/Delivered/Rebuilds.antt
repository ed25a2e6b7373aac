-- ===== src/Indexing/Delivered/Rebuilds.antt =====
-- A rebuild by `Run` of internal/indexing/reindexer.go on the index of internal/typesense/index.go:
-- what is supposed of the counter, and how a rebuild ends.
pub mod Walks
pub mod Ends
use kinetix_search_service.Common.{
  Option, ℕ, ℤ, zero, suc, ◌≤◌, Bool, true, false, ◌≡◌, refl, sym, ap, ◌∙◌, none, some, List, [],
  ◌∷◌, ◌++◌, map, ok, err, Text, text_eq, if◌then◌else◌, length, nonempty, arith, append-nil, ltb_ℤ,
  Bool-cases, inl, inr, All, text_eq_refl, subst, pos,
}
use kinetix_search_service.Search.Errors.{Result, GoError, errf, kind_of, index_unavailable}
use kinetix_search_service.Search.Time.{unix_seconds}
use kinetix_search_service.Search.Call.{Call, when, ◌>>◌}
use kinetix_search_service.Search.Call.Yields.{Yields, Yields-pure, Yields->>=}
use kinetix_search_service.Search.Document.{Collection, Generation, Cursor, Changes, zero_cursor}
use kinetix_search_service.Search.Service.{Source, Checkpoint, Lock, Counter, Clock}
use kinetix_search_service.Indexing.Reindexer.{
  Reindexer, Walk, start_walk, advanced, generation_name, expected_of, too_few, count_by,
  under_lock, walk_page, walk_loop, verify, finish, switch, prepare, count_source, rebuild, run,
}
use kinetix_search_service.Indexing.Reindexer.Counts.{demanded}
use kinetix_search_service.Indexing.Memory.{
  Docs, Write, replay, last_write, Chain, last_page, and_then, last_next,
}
use kinetix_search_service.Indexing.Memory.Replay.{replay-append, replay_at}
use kinetix_search_service.Indexing.Reindexer.Counts.{walked_over, walked_over-cur}
use kinetix_search_service.Postgres.{max_int64}
use kinetix_search_service.Typesense.Documents.{Document}
use kinetix_search_service.Typesense.Engine.{Engine}
use kinetix_search_service.Typesense.Index.{index, promote}
use kinetix_search_service.Indexing.Delivered.{
  Seen, IsNamed, stored, written, with_generation, Stores, Answers, Saves, Excludes,
}
use kinetix_search_service.Indexing.Delivered.Indexed.{
  IsKnown, create-Yields, when_bulk-Yields, count_in-Yields, promote-Yields,
}
use kinetix_search_service.Indexing.Delivered.Runs.{all-IsNamed}

-- A source that counts, and what it counts, or one that does not.
abbrev pub IsCounting : {W F : Type 0} → (W → Seen F) → Option (Counter W) → Option ℤ → Type 0
IsCounting view none none = Unit
IsCounting {F = F} view (some counter) (some total) =
    (s : Seen F) → Yields view s counter.count total s
IsCounting view _ _ = ⊥

module _ {W F D : Type 0} (engine : Engine W F) (c : Collection) (encode : D → Document F)
    (source : Source W D) (counter : Option (Counter W)) (limit : ℤ) (checkpoint : Checkpoint W)
    (lock : Lock W) (clock : Clock W) where
  abbrev pub index_reindexer : Reindexer W D
  index_reindexer = record {
    collection = c;
    source = source;
    counter = counter;
    index = index engine c encode;
    checkpoint = checkpoint;
    lock = lock;
    clock = clock;
    page_size = limit;
  }

-- The documents of the pages as they are encoded, each under the id it carries.
abbrev pub all_put :
    {F D : Type 0} → (D → Document F) → List (Changes D) → List (Write (Document F))
all_put encode [] = []
all_put encode (ch ∷ chs) = stored (map encode ch.upserted) ++ all_put encode chs

-- The new generation holds what the pages say and no more, and no other generation changed.
pub record IsBuilt {F D : Type 0} (encode : D → Document F) (g : Generation)
    (pages : List (Changes D)) (s t : Seen F) : Type 0 where
  pub made : (h : Generation) → t.made h ≡ (if text_eq h g then true else s.made h)
  pub docs :
      (h : Generation) (id : Text)
      → t.docs h id
        ≡ (if text_eq h g then last_write (all_put encode pages) id none else s.docs h id)

module _ {F D : Type 0} (encode : D → Document F) (size : (Text → Option (Document F)) → ℤ)
    (keep : Option Cursor → Cursor → Cursor) (feed : Cursor → Changes D) (g : Generation)
    (total : Option ℤ) (pages : List (Changes D)) where
  -- The new generation holds fewer documents than expected.
  abbrev pub is_short : Seen F → Bool
  is_short t = ltb_ℤ (size (t.docs g)) (demanded total pages)

  -- How a rebuild ends.
  pub data Replaced (s : Seen F) : Result (Unit {0}) → Seen F → Type 0 where
    stayed :
        {e : GoError} {t : Seen F}
        → is_short t ≡ true
        → kind_of e ≡ index_unavailable
        → t.alias ≡ s.alias
        → t.saved ≡ s.saved
        → t.held ≡ s.held
        → IsBuilt encode g pages s t
        → Replaced s (err e) t
    moved :
        {t : Seen F}
        → is_short t ≡ false
        → t.alias ≡ g
        → t.saved ≡ some (keep s.saved (last_next feed zero_cursor pages))
        → t.held ≡ false
        → IsBuilt encode g pages s t
        → Replaced s (ok tt) t
