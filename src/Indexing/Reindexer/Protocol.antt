-- ===== src/Indexing/Reindexer/Protocol.antt =====
-- The order in which `Run` of internal/indexing/reindexer.go may call what it is given, as a
-- relation on traces.
use kinetix_search_service.Common.{
  ℤ, ◌≤ℤ◌, Bool, true, false, ◌≡◌, Option, none, some, List, [], ◌∷◌, nonempty, ok, err,
}
use kinetix_search_service.Search.Errors.{GoError}
use kinetix_search_service.Search.Document.{Collection, Generation, Cursor, Changes, zero_cursor}
use kinetix_search_service.Indexing.Recorded.{
  Event, Noted, held, released, saved, fetched, counted, created, bulked, counted_in, promoted,
  noted_source, noted_index, noted_checkpoint, noted_lock, noted_counter, noted_clock,
}
use kinetix_search_service.Indexing.Traces.{Leads}
use kinetix_search_service.Search.Service.{Counter}
use kinetix_search_service.Indexing.Reindexer.{Reindexer}
use kinetix_search_service.Indexing.Reindexer.Counts.{demanded}

-- Where a run stands: what the source counted, if it counts, the cursor to go on from, and the
-- pages so far, the last one first.
pub data Phase (D : Type 0) : Type 0 where
  idle failed : Phase D
  made : Generation → Phase D
  ready walked : Generation → Option ℤ → Cursor → List (Changes D) → Phase D
  page put_page : Generation → Option ℤ → Cursor → List (Changes D) → Changes D → Phase D
  verified locked : Generation → Cursor → Phase D
  switched : Cursor → Phase D
  saved_switch : Phase D
  closed : Bool → Phase D

module _ {D : Type 0} (c : Collection) (g : Generation) where
  -- What one call, with its answer, does to the phase.
  pub data Step : Phase D → Event D → Phase D → Type 0 where
    create : Step idle (created g (ok tt)) (made g)
    no_create : (e : GoError) → Step idle (created g (err e)) (closed false)
    count : (total : ℤ) → Step (made g) (counted (ok total)) (ready g (some total) zero_cursor [])
    no_count : (e : GoError) → Step (made g) (counted (err e)) (closed false)
    fetch :
        (t : Option ℤ) (cur : Cursor) (chs : List (Changes D)) (ch : Changes D)
        → Step (ready g t cur chs) (fetched cur (ok ch)) (page g t cur chs ch)
    no_fetch :
        (t : Option ℤ) (cur : Cursor) (chs : List (Changes D)) (e : GoError)
        → Step (ready g t cur chs) (fetched cur (err e)) (closed false)
    bulk :
        (t : Option ℤ) (cur : Cursor) (chs : List (Changes D)) (ch : Changes D)
        → nonempty ch.upserted ≡ true
        → Step (page g t cur chs ch) (bulked g ch.upserted (ok tt)) (put_page g t cur chs ch)
    no_bulk :
        (t : Option ℤ) (cur : Cursor) (chs : List (Changes D)) (ch : Changes D) (e : GoError)
        → Step (page g t cur chs ch) (bulked g ch.upserted (err e)) (closed false)
    enough :
        (t : Option ℤ) (cur : Cursor) (chs : List (Changes D)) (indexed : ℤ)
        → demanded t chs ≤ℤ indexed
        → Step (walked g t cur chs) (counted_in g (ok indexed)) (verified g cur)
    too_few :
        (t : Option ℤ) (cur : Cursor) (chs : List (Changes D)) (indexed : ℤ)
        → ¬ (demanded t chs ≤ℤ indexed)
        → Step (walked g t cur chs) (counted_in g (ok indexed)) (closed false)
    no_count_in :
        (t : Option ℤ) (cur : Cursor) (chs : List (Changes D)) (e : GoError)
        → Step (walked g t cur chs) (counted_in g (err e)) (closed false)
    lock : (cur : Cursor) → Step (verified g cur) (held c (ok tt)) (locked g cur)
    no_lock : (cur : Cursor) (e : GoError) → Step (verified g cur) (held c (err e)) (closed false)
    promote : (cur : Cursor) → Step (locked g cur) (promoted g (ok tt)) (switched cur)
    no_promote : (cur : Cursor) (e : GoError) → Step (locked g cur) (promoted g (err e)) failed
    save : (cur : Cursor) → Step (switched cur) (saved c cur (ok tt)) saved_switch
    no_save : (cur : Cursor) (e : GoError) → Step (switched cur) (saved c cur (err e)) failed
    give_up : Step failed (released c) (closed false)
    close : Step saved_switch (released c) (closed true)

  -- What passes without a call: no count to take, nothing to write, and the next page or the end.
  pub data Skip : Phase D → Phase D → Type 0 where
    uncounted : Skip (made g) (ready g none zero_cursor [])
    nothing_to_put :
        (t : Option ℤ) (cur : Cursor) (chs : List (Changes D)) (ch : Changes D)
        → nonempty ch.upserted ≡ false
        → Skip (page g t cur chs ch) (put_page g t cur chs ch)
    more :
        (t : Option ℤ) (cur : Cursor) (chs : List (Changes D)) (ch : Changes D)
        → ch.has_more ≡ true
        → Skip (put_page g t cur chs ch) (ready g t ch.next (ch ∷ chs))
    last :
        (t : Option ℤ) (cur : Cursor) (chs : List (Changes D)) (ch : Changes D)
        → ch.has_more ≡ false
        → Skip (put_page g t cur chs ch) (walked g t ch.next (ch ∷ chs))

  abbrev pub Follows : List (Event D) → Phase D → Type 0
  Follows = Leads Step Skip idle

abbrev pub noted_count : {W D : Type 0} → Option (Counter W) → Option (Counter (Noted W D))
noted_count none = none
noted_count (some c) = some (noted_counter c)

abbrev pub noted : {W D : Type 0} → Reindexer W D → Reindexer (Noted W D) D
noted r = record {
  collection = r.collection;
  source = noted_source r.source;
  counter = noted_count r.counter;
  index = noted_index r.index;
  checkpoint = noted_checkpoint r.checkpoint;
  lock = noted_lock r.lock;
  clock = noted_clock r.clock;
  page_size = r.page_size;
}
