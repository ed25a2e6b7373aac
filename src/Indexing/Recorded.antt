-- ===== src/Indexing/Recorded.antt =====
-- The interfaces of internal/search again, each call noted with its answer in a trace, latest
-- first.
use kinetix_search_service.Common.{ℤ, List, ◌∷◌, Text}
use kinetix_search_service.Search.Errors.{Result}
use kinetix_search_service.Search.Call.{Call}
use kinetix_search_service.Search.Document.{Collection, Generation, Cursor, Changes, Progress}
use kinetix_search_service.Search.Service.{Source, Index, Checkpoint, Lock, Counter, Clock}

pub data Event (D : Type 0) : Type 0 where
  held : Collection → Result (Unit {0}) → Event D
  released : Collection → Event D
  loaded : Collection → Result Progress → Event D
  saved : Collection → Cursor → Result (Unit {0}) → Event D
  fetched : Cursor → Result (Changes D) → Event D
  counted : Result ℤ → Event D
  created : Generation → Result (Unit {0}) → Event D
  bulked : Generation → List D → Result (Unit {0}) → Event D
  removed : Generation → List Text → Result (Unit {0}) → Event D
  counted_in : Generation → Result ℤ → Event D
  promoted : Generation → Result (Unit {0}) → Event D
  found_live : Result Generation → Event D

pub record Noted (W D : Type 0) : Type 0 where
  pub world : W
  pub trace : List (Event D)

module _ {W D : Type 0} where
  abbrev pub note : {A : Type 0} → (Result A → Event D) → Call W A → Call (Noted W D) A
  note event call n =
      let (r, w) = call n.world in (r, record { world = w; trace = event r ∷ n.trace })

  abbrev pub noted_source : Source W D → Source (Noted W D) D
  noted_source s = record {
    changed_since = λ cur limit. note (fetched cur) (s.changed_since cur limit);
  }

  abbrev pub noted_index : Index W D → Index (Noted W D) D
  noted_index i = record {
    create_generation = λ gen. note (created gen) (i.create_generation gen);
    bulk = λ gen docs. note (bulked gen docs) (i.bulk gen docs);
    remove = λ gen ids. note (removed gen ids) (i.remove gen ids);
    count_in = λ gen. note (counted_in gen) (i.count_in gen);
    promote = λ gen. note (promoted gen) (i.promote gen);
    live = note found_live i.live;
  }

  abbrev pub noted_checkpoint : Checkpoint W → Checkpoint (Noted W D)
  noted_checkpoint c = record {
    load = λ col. note (loaded col) (c.load col);
    save = λ col cur. note (saved col cur) (c.save col cur);
  }

  abbrev pub noted_lock : Lock W → Lock (Noted W D)
  noted_lock l = record {
    hold = λ col. note (held col) (l.hold col);
    release = λ col n. record { world = l.release col n.world; trace = released col ∷ n.trace };
  }

  abbrev pub noted_counter : Counter W → Counter (Noted W D)
  noted_counter c = record { count = note counted c.count }

  abbrev pub noted_clock : Clock W → Clock (Noted W D)
  noted_clock c = record { now = λ n. let (t, w) = c.now n.world in (t, record n { world = w }) }
