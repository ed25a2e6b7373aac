-- ===== src/Indexing/Delivered/Rebuilds/Walks.antt =====
-- The start and the walk of a rebuild on the engine's index.
use kinetix_search_service.Common.{
  Option, ℕ, ℤ, zero, suc, ◌≤◌, true, false, ◌≡◌, refl, sym, ap, ◌∙◌, none, some, List, map, ok,
  Text, length, arith, append-nil,
}
use kinetix_search_service.Search.Call.Yields.{Yields, Yields-pure, Yields->>=}
use kinetix_search_service.Search.Document.{Collection, Generation, Cursor, Changes}
use kinetix_search_service.Search.Service.{Source, Checkpoint, Lock, Counter, Clock}
use kinetix_search_service.Indexing.Reindexer.{
  Reindexer, Walk, advanced, count_by, walk_page, walk_loop, prepare, count_source,
}
use kinetix_search_service.Indexing.Memory.{Docs, Chain, last_page, and_then}
use kinetix_search_service.Indexing.Memory.Replay.{replay-append}
use kinetix_search_service.Indexing.Reindexer.Counts.{walked_over}
use kinetix_search_service.Typesense.Documents.{Document}
use kinetix_search_service.Typesense.Engine.{Engine}
use kinetix_search_service.Indexing.Delivered.{
  Seen, IsNamed, stored, written, with_generation, Stores, Answers,
}
use kinetix_search_service.Indexing.Delivered.Indexed.{IsKnown, create-Yields, when_bulk-Yields}
use kinetix_search_service.Indexing.Delivered.Runs.{all-IsNamed}
use kinetix_search_service.Indexing.Delivered.Rebuilds.{IsCounting, index_reindexer, all_put}

module _ {W F D : Type 0} (view : W → Seen F) {engine : Engine W F} {c : Collection}
    (encode : D → Document F) (named : (d : D) → IsNamed (encode d)) {source : Source W D}
    (counter : Option (Counter W)) (total : Option ℤ) {limit : ℤ} {feed : Cursor → Changes D}
    (checkpoint : Checkpoint W) (lock : Lock W) (clock : Clock W)
    {size : (Text → Option (Document F)) → ℤ} (stores : Stores view engine c size)
    (answers : Answers view source limit feed) (counting : IsCounting view counter total) where
  abbrev reindexer : Reindexer W D
  reindexer = index_reindexer engine c encode source counter limit checkpoint lock clock

  page-Yields :
      (s : Seen F) (g : Generation) (walk : Walk)
      → s.made g ≡ true
      → Yields view s
          (walk_page reindexer g walk)
          (feed walk.cur)
          (written g (stored (map encode (feed walk.cur).upserted)) s)
  unfolding walk_page
  page-Yields s g walk made =
      let ch = feed walk.cur in
      Yields->>= view _ _ (answers.answers s walk.cur) (
        Yields->>= view _ _
          (when_bulk-Yields view engine c encode stores s g ch.upserted made
            (all-IsNamed encode named ch.upserted))
          (Yields-pure view _ ch))

  pub walk_lem :
      (fuel : ℕ) (s : Seen F) (g : Generation) (sent refused : ℤ) (cur : Cursor)
      (pages : List (Changes D)) (w : W)
      → s.made g ≡ true
      → Chain feed cur pages
      → length pages ≤ fuel
      → view w ≡ s
      → (w' : W) × (walk_loop reindexer fuel g
            (record { sent = sent; refused = refused; cur = cur })
            w
          ≡ some
              (ok (walked_over pages (record { sent = sent; refused = refused; cur = cur })), w'))
        × (view w' ≡ written g (all_put encode pages) s)
  unfolding walk_loop
  walk_lem zero s g sent refused cur pages w made (last_page _ last) enough seen =
      absurd (omega arith)
  walk_lem zero s g sent refused cur pages w made (and_then _ ps again rest) enough seen =
      absurd (omega arith)
  walk_lem (suc fuel) s g sent refused cur pages w made (last_page _ last) enough seen =
      let walk : Walk = record { sent = sent; refused = refused; cur = cur } in
      let (w₁, answer, seen₁) = (page-Yields s g walk made).at w seen in
      (
        w₁,
        rw (answer, last) (refl),
        seen₁
            ∙ ap (λ ws. written g ws s)
                (sym (append-nil (stored (map encode (feed cur).upserted)))),
      )
  walk_lem (suc fuel) s g sent refused cur pages w made (and_then _ ps again rest) enough seen =
      let walk : Walk = record { sent = sent; refused = refused; cur = cur } in
      let v = advanced walk (feed cur) in
      let ws = stored (map encode (feed cur).upserted) in
      let (w₁, answer, seen₁) = (page-Yields s g walk made).at w seen in
      let (w₂, walked, seen₂) =
        walk_lem fuel (written g ws s) g v.sent v.refused (feed cur).next ps w₁ made rest
          (omega arith) seen₁ in
      (
        w₂,
        rw (answer, again) walked,
        seen₂
            ∙ ap (λ (docs : Docs (Document F)). record s { docs = docs })
                (sym (replay-append g ws (all_put encode ps) s.docs)),
      )

  count-Yields :
      (s : Seen F) (k : Option (Counter W)) (n : Option ℤ)
      → IsCounting view k n
      → Yields view s (count_by reindexer k) n s
  count-Yields s none none h = Yields-pure view s none
  count-Yields s none (some n) h = absurd h
  count-Yields s (some k) none h = absurd h
  count-Yields s (some k) (some n) h = Yields->>= view _ _ (h s) (Yields-pure view s (some n))

  pub prepare-Yields :
      (s : Seen F) (g : Generation)
      → IsKnown c
      → s.made g ≡ false
      → Yields view s (prepare reindexer g) total (with_generation g s)
  unfolding prepare count_source
  prepare-Yields s g known fresh =
      Yields->>= view _ _ (create-Yields view engine c encode stores s g known fresh)
        (count-Yields (with_generation g s) counter total counting)
