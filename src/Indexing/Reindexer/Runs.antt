-- ===== src/Indexing/Reindexer/Runs.antt =====
-- Every run of `Run` of internal/indexing/reindexer.go keeps to the order of
-- Reindexer/Protocol.antt.
use kinetix_search_service.Common.{
  ℕ, ℤ, Bool, true, false, ◌≡◌, subst, Option, none, some, List, [], ◌∷◌, ok, err, inl, inr,
  Bool-cases, ltb_ℤ, arith, if◌then◌else◌,
}
use kinetix_search_service.Search.Errors.{Result}
use kinetix_search_service.Search.Time.{unix_seconds}
use kinetix_search_service.Search.Call.Rules.{Holds, After, After-raise, After->>=}
use kinetix_search_service.Search.Document.{Generation, Cursor, Changes, zero_cursor}
use kinetix_search_service.Indexing.Recorded.{Noted, held, released, saved, counted_in, promoted}
use kinetix_search_service.Indexing.Traces.{start, step}
use kinetix_search_service.Indexing.Reindexer.{
  Reindexer, Walk, start_walk, expected_of, generation_name, walk_loop, switch, under_lock, verify,
  finish, prepare, finished, from_total, rebuild, run,
}
use kinetix_search_service.Indexing.Reindexer.Counts.{
  demanded, expected_of-demanded, Counts-start_walk,
}
use kinetix_search_service.Indexing.Reindexer.Protocol.{
  Phase, idle, failed, ready, walked, verified, locked, switched, saved_switch, closed, Step,
  Follows, noted,
}
use kinetix_search_service.Indexing.Reindexer.Walks.{
  Counted, At, After-call, Ends, prepare_keeps, walk_loop_ends,
}

module _ {W D : Type 0} (r : Reindexer W D) (g : Generation) where
  abbrev Switched : Result (Unit {0}) → Noted W D → Type 0
  Switched = Holds (λ _. At r g saved_switch) (At r g failed)

  abbrev Closed : Result (Unit {0}) → Noted W D → Type 0
  Closed = Holds (λ _. At r g (closed true)) (At r g (closed false))

  switch_keeps :
      (cur : Cursor)
      → After
          (At r g (locked g cur))
          (switch (noted r) g cur)
          (λ _. At r g saved_switch)
          (At r g failed)
  unfolding switch
  switch_keeps cur =
      After->>= _ _ (λ _. At r g (switched cur)) _
        (After-call r g (locked g cur) (promoted g) (r.index.promote g) (λ _. switched cur) failed
          (λ _. Step.promote cur) (Step.no_promote cur))
        λ _.
          After-call r g (switched cur) (saved r.collection cur)
            (r.checkpoint.save r.collection cur) (λ _. saved_switch) failed (λ _. Step.save cur)
            (Step.no_save cur)

  release_closes :
      (a : Result (Unit {0})) (n : Noted W D)
      → Switched a n
      → Closed a (record {
        world = r.lock.release r.collection n.world;
        trace = released r.collection ∷ n.trace;
      })
  release_closes (ok _) n h = step h Step.close
  release_closes (err e) n h = step h Step.give_up

  under_lock_keeps :
      (cur : Cursor)
      → After
          (At r g (locked g cur))
          (under_lock (noted r) (switch (noted r) g cur))
          (λ _. At r g (closed true))
          (At r g (closed false))
  under_lock_keeps cur = record {
    at = λ n h.
        release_closes (switch (noted r) g cur n).0 (switch (noted r) g cur n).1
          ((switch_keeps cur).at n h);
  }

  -- The phase that the engine's count leads to.
  abbrev seen : Option ℤ → Walk → ℤ → Phase D
  seen t w indexed = if ltb_ℤ indexed (expected_of t w) then closed false else verified g w.cur

  seen_step :
      (t : Option ℤ) (w : Walk) (chs : List (Changes D)) (indexed : ℤ)
      → Counted r g chs w
      → Step r.collection g (walked g t w.cur chs) (counted_in g (ok indexed)) (seen t w indexed)
  seen_step t w chs indexed counts =
      let same = expected_of-demanded t chs w counts in
      elim (Bool-cases (ltb_ℤ indexed (demanded t chs))) [
        | inl short ↦ rw (same, short) (Step.too_few t w.cur chs indexed (ground arith))
        | inr full ↦ rw (same, full) (Step.enough t w.cur chs indexed (ground arith))
      ]

  verify_keeps :
      (t : Option ℤ) (w : Walk) (indexed : ℤ)
      → After
          (At r g (seen t w indexed))
          (verify (noted r) g t w indexed)
          (λ _. At r g (closed true))
          (At r g (closed false))
  unfolding verify
  verify_keeps t w indexed = elim (Bool-cases (ltb_ℤ indexed (expected_of t w))) [
    | inl short ↦ rw short (After-raise _ _ _ _ (λ n h. h))
    | inr full ↦ rw full (
        After->>= _ _ (λ _. At r g (locked g w.cur)) _
          (After-call r g (verified g w.cur) (held r.collection) (r.lock.hold r.collection)
            (λ _. locked g w.cur) (closed false) (λ _. Step.lock w.cur) (Step.no_lock w.cur))
          λ _. under_lock_keeps w.cur)
  ]

  finish_keeps :
      (t : Option ℤ) (w : Walk) (chs : List (Changes D))
      → Counted r g chs w
      → After
          (At r g (walked g t w.cur chs))
          (finish (noted r) g t w)
          (λ _. At r g (closed true))
          (At r g (closed false))
  unfolding finish
  finish_keeps t w chs counts =
      After->>= _ _ (λ indexed. At r g (seen t w indexed)) _
        (After-call r g (walked g t w.cur chs) (counted_in g) (r.index.count_in g) (seen t w)
          (closed false) (λ indexed. seen_step t w chs indexed counts)
          (Step.no_count_in t w.cur chs))
        λ indexed. verify_keeps t w indexed

  -- What a return of `Run` leaves behind.
  abbrev Closes : Option (Result (Unit {0}) × Noted W D) → Type 0
  Closes none = Unit
  Closes (some (a, n)) = Closed a n

  finished-Closes :
      (t : Option ℤ) (o : Option (Result Walk × Noted W D))
      → Ends r g t o
      → Closes (finished (noted r) g t o)
  finished-Closes t none h = tt
  finished-Closes t (some (err e, n)) h = h
  finished-Closes t (some (ok w, n)) (chs, counts, h) = (finish_keeps t w chs counts).at n h

  from_total-Closes :
      (fuel : ℕ) (a : Result (Option ℤ)) (n : Noted W D)
      → Holds (λ t. At r g (ready g t zero_cursor [])) (At r g (closed false)) a n
      → Closes (from_total (noted r) fuel g a n)
  from_total-Closes fuel (err e) n h = h
  from_total-Closes fuel (ok t) n h =
      finished-Closes t (walk_loop (noted r) fuel g start_walk n)
        (walk_loop_ends r g t fuel start_walk [] n Counts-start_walk h)

  rebuild-Closes : (fuel : ℕ) (n : Noted W D) → At r g idle n → Closes (rebuild (noted r) fuel g n)
  unfolding rebuild
  rebuild-Closes fuel n h =
      from_total-Closes fuel (prepare (noted r) g n).0 (prepare (noted r) g n).1
        ((prepare_keeps r g).at n h)

abbrev pub succeeded : Result (Unit {0}) → Bool
succeeded (ok _) = true
succeeded (err e) = false

Closed-succeeded :
    {W D : Type 0} (r : Reindexer W D) (g : Generation) (a : Result (Unit {0})) (n : Noted W D)
    → Closed r g a n
    → Follows r.collection g n.trace (closed (succeeded a))
Closed-succeeded r g (ok _) n h = h
Closed-succeeded r g (err e) n h = h

-- Whatever the source, the engine and the store answer, a rebuild that returns has made its calls
-- in this order: the new generation, named for the collection and the second of the clock; the
-- source's count, if it counts; then page after page from the zero cursor, written to the new
-- generation where they hold documents; then the engine's count. Only if that is no less than
-- expected (the source's count less the refusals on the pages, or else the documents of the pages,
-- in 64 bits) it takes the lock, points the alias at the new generation, saves the cursor that the
-- last page named, and releases. A count that is short, and an error before the lock, is followed
-- by no call at all, and an error under the lock by the release alone. It reports success exactly
-- when it released after alias and cursor were written.
pub run-Follows :
    {W D : Type 0} (r : Reindexer W D) (fuel : ℕ) (w : W) {a : Result (Unit {0})} {n : Noted W D}
    → run (noted r) fuel (record { world = w; trace = [] }) ≡ some (a, n)
    → Follows r.collection
        (generation_name r.collection (unix_seconds (r.clock.now w).0))
        n.trace
        (closed (succeeded a))
unfolding run
run-Follows r fuel w {a} {n} e =
    let g = generation_name r.collection (unix_seconds (r.clock.now w).0) in
    Closed-succeeded r g a n (
      subst (Closes r g) e
        (rebuild-Closes r g fuel (record { world = (r.clock.now w).1; trace = [] }) start))
