-- ===== src/Indexing/Reindexer/Walks.antt =====
-- The first part of `Run` of internal/indexing/reindexer.go, to the end of the walk, in the order
-- of Reindexer/Protocol.antt.
use kinetix_search_service.Common.{
  ℕ, ℤ, zero, suc, false, Option, none, some, List, [], ◌∷◌, nonempty, ok, err, inl, inr,
  Bool-cases,
}
use kinetix_search_service.Search.Errors.{Result, GoError}
use kinetix_search_service.Search.Call.{Call}
use kinetix_search_service.Search.Call.Rules.{Holds, After, After-pure, After->>=, After-when}
use kinetix_search_service.Search.Document.{Generation, Changes, zero_cursor}
use kinetix_search_service.Search.Service.{Counter}
use kinetix_search_service.Indexing.Recorded.{note, Event, Noted, fetched, counted, created, bulked}
use kinetix_search_service.Indexing.Traces.{skip, Stands, After-note}
use kinetix_search_service.Indexing.Reindexer.{
  Reindexer, Walk, advanced, count_by, count_source, walk_page, turn, walk_loop, prepare,
}
use kinetix_search_service.Indexing.Reindexer.Counts.{
  Counts, documents_in, refusals_in, Counts-advanced,
}
use kinetix_search_service.Indexing.Reindexer.Protocol.{
  Phase, idle, made, ready, walked, page, put_page, closed, Step, Skip, noted, noted_count,
}

module _ {W D : Type 0} (r : Reindexer W D) (g : Generation) where
  abbrev pub At : Phase D → Noted W D → Type 0
  At = Stands (Step r.collection g) (Skip r.collection g) idle

  pub After-call :
      {A : Type 0} (p : Phase D) (event : Result A → Event D) (call : Call W A) (q : A → Phase D)
      (bad : Phase D)
      → ((a : A) → Step r.collection g p (event (ok a)) (q a))
      → ((e : GoError) → Step r.collection g p (event (err e)) bad)
      → After (At p) (note event call) (λ a. At (q a)) (At bad)
  After-call p event call q bad =
      After-note (Step r.collection g) (Skip r.collection g) idle p event call q bad

  count_by_keeps :
      (c : Option (Counter W))
      → After
          (At (made g))
          (count_by (noted r) (noted_count c))
          (λ t. At (ready g t zero_cursor []))
          (At (closed false))
  count_by_keeps none =
      After-pure _ none (λ t. At (ready g t zero_cursor [])) _ (λ n h. skip h Skip.uncounted)
  count_by_keeps (some c) =
      After->>= _ _ (λ total. At (ready g (some total) zero_cursor [])) _
        (After-call (made g) counted c.count (λ total. ready g (some total) zero_cursor [])
          (closed false) Step.count Step.no_count)
        λ total. After-pure _ (some total) (λ t. At (ready g t zero_cursor [])) _ (λ n h. h)

  pub prepare_keeps :
      After (At idle) (prepare (noted r) g) (λ t. At (ready g t zero_cursor [])) (At (closed false))
  unfolding prepare count_source
  prepare_keeps =
      After->>= _ _ (λ _. At (made g)) _
        (After-call idle (created g) (r.index.create_generation g) (λ _. made g) (closed false)
          (λ _. Step.create) Step.no_create)
        λ _. count_by_keeps r.counter

  walk_page_keeps :
      (t : Option ℤ) (w : Walk) (chs : List (Changes D))
      → After
          (At (ready g t w.cur chs))
          (walk_page (noted r) g w)
          (λ ch. At (put_page g t w.cur chs ch))
          (At (closed false))
  unfolding walk_page
  walk_page_keeps t w chs =
      After->>= _ _ (λ ch. At (page g t w.cur chs ch)) _
        (After-call (ready g t w.cur chs) (fetched w.cur) (r.source.changed_since w.cur r.page_size)
          (λ ch. page g t w.cur chs ch) (closed false) (Step.fetch t w.cur chs)
          (Step.no_fetch t w.cur chs))
        λ ch.
          After->>= _ _ (λ _. At (put_page g t w.cur chs ch)) _
            (After-when (nonempty ch.upserted) _ (At (put_page g t w.cur chs ch))
              (λ some_docs.
                After-call (page g t w.cur chs ch) (bulked g ch.upserted)
                  (r.index.bulk g ch.upserted) (λ _. put_page g t w.cur chs ch) (closed false)
                  (λ _. Step.bulk t w.cur chs ch some_docs) (Step.no_bulk t w.cur chs ch))
              (λ none_there n h. skip h (Skip.nothing_to_put t w.cur chs ch none_there)))
            λ _. After-pure _ ch (λ ch'. At (put_page g t w.cur chs ch')) _ (λ n h. h)

  abbrev pub Counted : List (Changes D) → Walk → Type 0
  Counted chs = Counts (documents_in chs) (refusals_in chs)

  -- What the walk leaves behind.
  abbrev pub Ends : Option ℤ → Option (Result Walk × Noted W D) → Type 0
  Ends t none = Unit
  Ends t (some (ok w, n)) = (chs : List (Changes D)) × Counted chs w × At (walked g t w.cur chs) n
  Ends t (some (err e, n)) = At (closed false) n

  turn_ends :
      (t : Option ℤ) (w : Walk) (chs : List (Changes D))
      (rest : Walk → Noted W D → Option (Result Walk × Noted W D)) (a : Result (Changes D))
      (n : Noted W D)
      → Counted chs w
      → ((v : Walk) (seen : List (Changes D)) (m : Noted W D)
          → Counted seen v
          → At (ready g t v.cur seen) m
          → Ends t (rest v m))
      → Holds (λ ch. At (put_page g t w.cur chs ch)) (At (closed false)) a n
      → Ends t (turn (noted r) rest w a n)
  turn_ends t w chs rest (err e) n counts k h = h
  turn_ends t w chs rest (ok ch) n counts k h =
      let more : Counted (ch ∷ chs) (advanced w ch) = Counts-advanced w ch counts in
      elim (Bool-cases ch.has_more) [
        | inl again ↦
            rw again (k (advanced w ch) (ch ∷ chs) n more (skip h (Skip.more t w.cur chs ch again)))
        | inr done ↦ rw done (ch ∷ chs, more, skip h (Skip.last t w.cur chs ch done))
      ]

  pub walk_loop_ends :
      (t : Option ℤ) (fuel : ℕ) (w : Walk) (chs : List (Changes D)) (n : Noted W D)
      → Counted chs w
      → At (ready g t w.cur chs) n
      → Ends t (walk_loop (noted r) fuel g w n)
  unfolding walk_loop
  walk_loop_ends t zero w chs n counts h = tt
  walk_loop_ends t (suc fuel) w chs n counts h =
      turn_ends t w chs (walk_loop (noted r) fuel g) (walk_page (noted r) g w n).0
        (walk_page (noted r) g w n).1 counts (walk_loop_ends t fuel)
        ((walk_page_keeps t w chs).at n h)
