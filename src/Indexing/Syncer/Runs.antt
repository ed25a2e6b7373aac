-- ===== src/Indexing/Syncer/Runs.antt =====
-- Every run of `Once` of internal/indexing/syncer.go keeps to the order of Syncer/Protocol.antt.
use kinetix_search_service.Common.{
  ℕ, zero, suc, false, ◌≡◌, subst, Option, none, some, [], ◌∷◌, nonempty, ok, err, inl, inr,
  Bool-cases,
}
use kinetix_search_service.Search.Errors.{Result, GoError}
use kinetix_search_service.Search.Call.Rules.{Holds, After, After-pure, After->>=, After-when}
use kinetix_search_service.Search.Document.{Generation, Cursor, Changes}
use kinetix_search_service.Search.Call.{Call}
use kinetix_search_service.Indexing.Recorded.{
  note, Event, Noted, held, loaded, saved, fetched, bulked, removed, found_live,
}
use kinetix_search_service.Indexing.Syncer.{
  Syncer, Start, turn, from_start, let_go, under_lock, sync_page, sync_loop, position, sync_held,
  once,
}
use kinetix_search_service.Indexing.Traces.{start, step, skip, Stands, After-note}
use kinetix_search_service.Indexing.Syncer.Protocol.{
  idle, Phase, Step, Skip, locked, failed, loaded_at, ready, page, put_page, done_page, saved_page,
  closed, Follows, lock, no_lock, load, no_load, live, no_live, fetch, no_fetch, bulk, no_bulk,
  remove, no_remove, save, no_save, give_up, close, nothing_to_put, nothing_to_remove, more, noted,
  succeeded,
}

module _ {W D : Type 0} (s : Syncer W D) where
  abbrev At : Phase D → Noted W D → Type 0
  At = Stands (Step s.collection) (Skip s.collection) idle

  After-call :
      {A : Type 0} (p : Phase D) (event : Result A → Event D) (call : Call W A) (q : A → Phase D)
      → ((a : A) → Step s.collection p (event (ok a)) (q a))
      → ((e : GoError) → Step s.collection p (event (err e)) failed)
      → After (At p) (note event call) (λ a. At (q a)) (At failed)
  After-call p event call q =
      After-note (Step s.collection) (Skip s.collection) idle p event call q failed

  sync_page_keeps :
      (g : Generation) (cur : Cursor)
      → After
          (At (ready g cur))
          (sync_page (noted s) g cur)
          (λ ch. At (saved_page g ch))
          (At failed)
  unfolding sync_page
  sync_page_keeps g cur =
      After->>= _ _ (λ ch. At (page g ch)) _
        (After-call (ready g cur) (fetched cur) (s.source.changed_since cur s.page_size)
          (λ ch. page g ch) (fetch g cur) (no_fetch g cur))
        λ ch.
          After->>= _ _ (λ _. At (put_page g ch)) _
            (After-when (nonempty ch.upserted) _ (At (put_page g ch))
              (λ some_docs.
                After-call (page g ch) (bulked g ch.upserted) (s.index.bulk g ch.upserted)
                  (λ _. put_page g ch) (λ _. bulk g ch some_docs) (no_bulk g ch))
              (λ none_there n h. skip h (nothing_to_put g ch none_there)))
            λ _.
              After->>= _ _ (λ _. At (done_page g ch)) _
                (After-when (nonempty ch.removed) _ (At (done_page g ch))
                  (λ some_ids.
                    After-call (put_page g ch) (removed g ch.removed) (s.index.remove g ch.removed)
                      (λ _. done_page g ch) (λ _. remove g ch some_ids) (no_remove g ch))
                  (λ none_there n h. skip h (nothing_to_remove g ch none_there)))
                λ _.
                  After->>= _ _ (λ _. At (saved_page g ch)) _
                    (After-call (done_page g ch) (saved s.collection ch.next)
                      (s.checkpoint.save s.collection ch.next) (λ _. saved_page g ch)
                      (λ _. save g ch) (no_save g ch))
                    λ _. After-pure _ ch (λ ch'. At (saved_page g ch')) _ (λ n h. h)

  -- What a return leaves behind, before the release.
  abbrev Ends : Option (Result (Unit {0}) × Noted W D) → Type 0
  Ends none = Unit
  Ends (some (ok _, n)) =
      (g : Generation) × (ch : Changes D) × (ch.has_more ≡ false) × At (saved_page g ch) n
  Ends (some (err e, n)) = At failed n

  turn_ends :
      (g : Generation) (rest : Cursor → Noted W D → Option (Result (Unit {0}) × Noted W D))
      (r : Result (Changes D)) (n : Noted W D)
      → ((cur : Cursor) (m : Noted W D) → At (ready g cur) m → Ends (rest cur m))
      → Holds (λ ch. At (saved_page g ch)) (At failed) r n
      → Ends (turn (noted s) rest r n)
  turn_ends g rest (err e) n k h = h
  turn_ends g rest (ok ch) n k h = elim (Bool-cases ch.has_more) [
    | inl again ↦ rw again (k ch.next n (skip h (more g ch again)))
    | inr last ↦ rw last (g, ch, last, h)
  ]

  sync_loop_ends :
      (fuel : ℕ) (g : Generation) (cur : Cursor) (n : Noted W D)
      → At (ready g cur) n
      → Ends (sync_loop (noted s) fuel g cur n)
  unfolding sync_loop
  sync_loop_ends zero g cur n h = tt
  sync_loop_ends (suc fuel) g cur n h =
      turn_ends g (sync_loop (noted s) fuel g) (sync_page (noted s) g cur n).0
        (sync_page (noted s) g cur n).1 (sync_loop_ends fuel g) ((sync_page_keeps g cur).at n h)

  position_keeps :
      After (At locked) (position (noted s)) (λ st. At (ready st.gen st.cur)) (At failed)
  unfolding position
  position_keeps =
      After->>= _ _ (λ p. At (loaded_at p.cursor)) _
        (After-call locked (loaded s.collection) (s.checkpoint.load s.collection)
          (λ p. loaded_at p.cursor) load no_load)
        λ p.
          After->>= _ _ (λ g. At (ready g p.cursor)) _
            (After-call (loaded_at p.cursor) found_live s.index.live (λ g. ready g p.cursor)
              (live p.cursor) (no_live p.cursor))
            λ g. After-pure _ _ (λ st. At (ready st.gen st.cur)) _ (λ n h. h)

  from_start_ends :
      (fuel : ℕ) (r : Result Start) (n : Noted W D)
      → Holds (λ st. At (ready st.gen st.cur)) (At failed) r n
      → Ends (from_start (noted s) fuel r n)
  from_start_ends fuel (err e) n h = h
  from_start_ends fuel (ok st) n h = sync_loop_ends fuel st.gen st.cur n h

  sync_held_ends : (fuel : ℕ) (n : Noted W D) → At locked n → Ends (sync_held (noted s) fuel n)
  unfolding sync_held
  sync_held_ends fuel n h =
      from_start_ends fuel (position (noted s) n).0 (position (noted s) n).1 (position_keeps.at n h)

  -- What a return of `Once` leaves behind.
  abbrev Closes : Option (Result (Unit {0}) × Noted W D) → Type 0
  Closes none = Unit
  Closes (some (r, n)) = At (closed (succeeded r)) n

  let_go-Closes :
      (o : Option (Result (Unit {0}) × Noted W D)) → Ends o → Closes (let_go (noted s) o)
  let_go-Closes none h = tt
  let_go-Closes (some (ok _, n)) (g, ch, last, h) = step h (close g ch last)
  let_go-Closes (some (err e, n)) h = step h give_up

  under_lock-Closes :
      (fuel : ℕ) (r : Result (Unit {0})) (w : W)
      → Closes
          (under_lock (noted s) fuel r (record { world = w; trace = held s.collection r ∷ [] }))
  under_lock-Closes fuel (err e) w = step start (no_lock e)
  under_lock-Closes fuel (ok _) w =
      let_go-Closes (sync_held (noted s) fuel _) (sync_held_ends fuel _ (step start lock))

  once-Closes : (fuel : ℕ) (w : W) → Closes (once (noted s) fuel (record { world = w; trace = [] }))
  unfolding once
  once-Closes fuel w =
      under_lock-Closes fuel (s.lock.hold s.collection w).0 (s.lock.hold s.collection w).1

  Closes-some :
      (o : Option (Result (Unit {0}) × Noted W D)) {r : Result (Unit {0})} {n : Noted W D}
      → Closes o
      → o ≡ some (r, n)
      → At (closed (succeeded r)) n
  Closes-some o h e = subst Closes e h

-- Whatever the source, the engine and the store answer, a run that returns has made its calls in
-- this order: the lock, the checkpoint, the live generation, then page after page from the
-- checkpoint's cursor, each fetched from the cursor that the page before it named, written to the
-- live generation if it holds documents, its removals made if it has any, and saved; after the
-- first error, and after the last page, only the release. It reports success exactly when it
-- released after a saved page with no more to come.
pub once-Follows :
    {W D : Type 0} (s : Syncer W D) (fuel : ℕ) (w : W) {r : Result (Unit {0})} {n : Noted W D}
    → once (noted s) fuel (record { world = w; trace = [] }) ≡ some (r, n)
    → Follows s.collection n.trace (closed (succeeded r))
once-Follows s fuel w e = Closes-some s _ (once-Closes s fuel w) e
