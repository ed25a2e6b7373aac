-- ===== src/Indexing/Memory.antt =====
-- A world behind the interfaces of internal/search in which no call fails, for the examples: the
-- engine holds its documents by generation and id, and the source answers by the cursor alone. With
-- it, what writes to an index come to, and the pages of such a source.
pub mod Replay
use kinetix_search_service.Common.{
  ℕ, ℤ, suc, Bool, true, false, ◌&&◌, ◌≡◌, Option, none, some, List, [], ◌∷◌, ◌++◌, map, ok, Text,
  text_eq, if◌then◌else◌,
}
use kinetix_search_service.Search.Time.{Time}
use kinetix_search_service.Search.Document.{
  Collection, Generation, Cursor, Changes, Progress, zero_cursor,
}
use kinetix_search_service.Indexing.Syncer.{Syncer}
use kinetix_search_service.Search.Service.{Source, Index, Checkpoint, Lock}

abbrev pub Docs : Type 0 → Type 0
Docs D = Generation → Text → Option D

-- One saved progress stands for the row of the collection that runs.
pub record Memory (D : Type 0) : Type 0 where
  pub docs : Docs D
  pub alias : Generation
  pub progress : Progress
  pub time : Time
  pub held : Bool

-- A write to the index: a document under its id, or that the id holds none.
abbrev pub Write : Type 0 → Type 0
Write D = Text × Option D

module _ {D : Type 0} where
  abbrev pub write : Generation → Write D → Docs D → Docs D
  write g (k, v) docs h id = if text_eq h g && text_eq id k then v else docs h id

  abbrev pub replay : Generation → List (Write D) → Docs D → Docs D
  replay g [] docs = docs
  replay g (w ∷ ws) docs = replay g ws (write g w docs)

  -- What the last write to the id wrote, over what was there.
  abbrev pub last_write : List (Write D) → Text → Option D → Option D
  last_write [] id old = old
  last_write ((k, v) ∷ ws) id old = last_write ws id (if text_eq id k then v else old)

  abbrev pub drops : List Text → List (Write D)
  drops [] = []
  drops (i ∷ is) = (i, none) ∷ drops is

module _ {D : Type 0} (key : D → Text) where
  abbrev pub puts : List D → List (Write D)
  puts [] = []
  puts (d ∷ ds) = (key d, some d) ∷ puts ds

  abbrev pub page_writes : Changes D → List (Write D)
  page_writes ch = puts ch.upserted ++ drops ch.removed

  abbrev pub all_writes : List (Changes D) → List (Write D)
  all_writes [] = []
  all_writes (ch ∷ chs) = page_writes ch ++ all_writes chs

module _ {D : Type 0} (key : D → Text) (size : (Text → Option D) → ℤ) where
  abbrev pub memory_index : Index (Memory D) D
  memory_index = record {
    create_generation = λ g m. (ok tt, m);
    bulk = λ g ds m. (ok tt, record m { docs = replay g (puts key ds) m.docs });
    remove = λ g is m. (ok tt, record m { docs = replay g (drops is) m.docs });
    count_in = λ g m. (ok (size (m.docs g)), m);
    promote = λ g m. (ok tt, record m { alias = g });
    live = λ m. (ok m.alias, m);
  }

module _ {D : Type 0} where
  abbrev pub memory_source : (Cursor → Changes D) → Source (Memory D) D
  memory_source feed = record { changed_since = λ cur limit m. (ok (feed cur), m) }

  abbrev pub memory_checkpoint : Checkpoint (Memory D)
  memory_checkpoint = record {
    load = λ c m. (ok m.progress, m);
    save = λ c cur m. (ok tt, record m { progress = record { cursor = cur; saved_at = m.time } });
  }

  abbrev pub memory_lock : Lock (Memory D)
  memory_lock = record {
    hold = λ c m. (ok tt, record m { held = true });
    release = λ c m. record m { held = false };
  }

module _ {D : Type 0} (feed : Cursor → Changes D) where
  -- The pages from a cursor to the first with no more to come.
  pub data Chain : Cursor → List (Changes D) → Type 0 where
    last_page : (cur : Cursor) → (feed cur).has_more ≡ false → Chain cur (feed cur ∷ [])
    and_then :
        (cur : Cursor) (pages : List (Changes D))
        → (feed cur).has_more ≡ true
        → Chain (feed cur).next pages
        → Chain cur (feed cur ∷ pages)

  abbrev pub last_next : Cursor → List (Changes D) → Cursor
  last_next cur [] = cur
  last_next cur (ch ∷ chs) = last_next ch.next chs

module _ {D : Type 0} (key : D → Text) (size : (Text → Option D) → ℤ) (feed : Cursor → Changes D)
    (c : Collection) (limit : ℤ) where
  abbrev pub memory_syncer : Syncer (Memory D) D
  memory_syncer = record {
    collection = c;
    source = memory_source feed;
    index = memory_index key size;
    checkpoint = memory_checkpoint;
    lock = memory_lock;
    page_size = limit;
  }
