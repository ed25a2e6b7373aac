-- ===== src/Indexing/Syncer/Protocol.antt =====
-- The order in which `Once` of internal/indexing/syncer.go may call what it is given, as a relation
-- on traces.
use kinetix_search_service.Common.{Bool, true, false, ◌≡◌, List, nonempty, ok, err}
use kinetix_search_service.Search.Errors.{Result, GoError}
use kinetix_search_service.Search.Document.{Collection, Generation, Cursor, Changes, Progress}
use kinetix_search_service.Indexing.Recorded.{
  Event, Noted, held, released, loaded, saved, fetched, bulked, removed, found_live, noted_source,
  noted_index, noted_checkpoint, noted_lock,
}
use kinetix_search_service.Indexing.Traces.{Leads}
use kinetix_search_service.Indexing.Syncer.{Syncer}

-- Where a run stands.
pub data Phase (D : Type 0) : Type 0 where
  idle locked failed : Phase D
  loaded_at : Cursor → Phase D
  ready : Generation → Cursor → Phase D
  page put_page done_page saved_page : Generation → Changes D → Phase D
  closed : Bool → Phase D

module _ {D : Type 0} (c : Collection) where
  -- What one call, with its answer, does to the phase.
  pub data Step : Phase D → Event D → Phase D → Type 0 where
    lock : Step idle (held c (ok tt)) locked
    no_lock : (e : GoError) → Step idle (held c (err e)) (closed false)
    load : (p : Progress) → Step locked (loaded c (ok p)) (loaded_at p.cursor)
    no_load : (e : GoError) → Step locked (loaded c (err e)) failed
    live : (cur : Cursor) (g : Generation) → Step (loaded_at cur) (found_live (ok g)) (ready g cur)
    no_live : (cur : Cursor) (e : GoError) → Step (loaded_at cur) (found_live (err e)) failed
    fetch :
        (g : Generation) (cur : Cursor) (ch : Changes D)
        → Step (ready g cur) (fetched cur (ok ch)) (page g ch)
    no_fetch :
        (g : Generation) (cur : Cursor) (e : GoError)
        → Step (ready g cur) (fetched cur (err e)) failed
    bulk :
        (g : Generation) (ch : Changes D)
        → nonempty ch.upserted ≡ true
        → Step (page g ch) (bulked g ch.upserted (ok tt)) (put_page g ch)
    no_bulk :
        (g : Generation) (ch : Changes D) (e : GoError)
        → Step (page g ch) (bulked g ch.upserted (err e)) failed
    remove :
        (g : Generation) (ch : Changes D)
        → nonempty ch.removed ≡ true
        → Step (put_page g ch) (removed g ch.removed (ok tt)) (done_page g ch)
    no_remove :
        (g : Generation) (ch : Changes D) (e : GoError)
        → Step (put_page g ch) (removed g ch.removed (err e)) failed
    save :
        (g : Generation) (ch : Changes D)
        → Step (done_page g ch) (saved c ch.next (ok tt)) (saved_page g ch)
    no_save :
        (g : Generation) (ch : Changes D) (e : GoError)
        → Step (done_page g ch) (saved c ch.next (err e)) failed
    give_up : Step failed (released c) (closed false)
    close :
        (g : Generation) (ch : Changes D)
        → ch.has_more ≡ false
        → Step (saved_page g ch) (released c) (closed true)

  -- What passes without a call: a page with nothing to write or to delete, and the next page.
  pub data Skip : Phase D → Phase D → Type 0 where
    nothing_to_put :
        (g : Generation) (ch : Changes D)
        → nonempty ch.upserted ≡ false
        → Skip (page g ch) (put_page g ch)
    nothing_to_remove :
        (g : Generation) (ch : Changes D)
        → nonempty ch.removed ≡ false
        → Skip (put_page g ch) (done_page g ch)
    more :
        (g : Generation) (ch : Changes D)
        → ch.has_more ≡ true
        → Skip (saved_page g ch) (ready g ch.next)

  abbrev pub Follows : List (Event D) → Phase D → Type 0
  Follows = Leads Step Skip idle

abbrev pub noted : {W D : Type 0} → Syncer W D → Syncer (Noted W D) D
noted s = record {
  collection = s.collection;
  source = noted_source s.source;
  index = noted_index s.index;
  checkpoint = noted_checkpoint s.checkpoint;
  lock = noted_lock s.lock;
  page_size = s.page_size;
}

abbrev pub succeeded : Result (Unit {0}) → Bool
succeeded (ok _) = true
succeeded (err e) = false
