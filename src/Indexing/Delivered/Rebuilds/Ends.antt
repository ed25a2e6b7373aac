-- ===== src/Indexing/Delivered/Rebuilds/Ends.antt =====
-- The end of a rebuild on the engine's index, and the whole of it.
use kinetix_search_service.Common.{
  arith, ◌∷◌, [], ◌+◌, length, wrap64, pos, Option, ℕ, ℤ, ◌≤◌, Bool, true, false, ◌≡◌, refl, sym,
  ap, ◌∙◌, none, some, List, ok, err, Text, text_eq, if◌then◌else◌, length, ltb_ℤ, text_eq_refl,
  subst, pos,
}
use kinetix_search_service.Search.Errors.{Result, errf, kind_of}
use kinetix_search_service.Search.Time.{unix_seconds}
use kinetix_search_service.Search.Call.{◌>>◌}
use kinetix_search_service.Search.Call.Yields.{Yields, Yields->>=}
use kinetix_search_service.Search.Document.{Collection, Generation, Cursor, Changes, zero_cursor}
use kinetix_search_service.Search.Service.{Source, Checkpoint, Lock, Counter, Clock}
use kinetix_search_service.Indexing.Reindexer.{
  advanced, Reindexer, Walk, start_walk, generation_name, expected_of, too_few, under_lock, verify,
  finish, switch, rebuild, run,
}
use kinetix_search_service.Indexing.Reindexer.Counts.{
  Counts, documents_in, refusals_in, demanded, Counts-advanced, expected_of-demanded,
  Counts-start_walk,
}
use kinetix_search_service.Indexing.Memory.{last_write, Chain, last_next}
use kinetix_search_service.Indexing.Memory.Replay.{replay_at}
use kinetix_search_service.Indexing.Reindexer.Counts.{walked_over, walked_over-cur}
use kinetix_search_service.Typesense.Documents.{Document}
use kinetix_search_service.Typesense.Engine.{Engine}
use kinetix_search_service.Typesense.Index.{promote}
use kinetix_search_service.Indexing.Delivered.{
  Seen, IsNamed, written, with_generation, Stores, Answers, Saves, Excludes,
}
use kinetix_search_service.Indexing.Delivered.Indexed.{IsKnown, count_in-Yields, promote-Yields}
use kinetix_search_service.Indexing.Delivered.Rebuilds.{
  IsCounting, index_reindexer, all_put, IsBuilt, is_short, Replaced, stayed, moved,
}
use kinetix_search_service.Indexing.Delivered.Rebuilds.Walks.{walk_lem, prepare-Yields}

-- What a walk over pages has counted.
walked_over-Counts :
    {D : Type 0} (chs : List (Changes D)) (n k m l : ℕ) (walk : Walk)
    → n + documents_in chs ≡ m
    → k + refusals_in chs ≡ l
    → Counts n k walk
    → Counts m l (walked_over chs walk)
walked_over-Counts [] n k m l walk e f h = record {
  sent = h.sent ∙ ap (λ x. wrap64 (pos x)) (omega (arith, e));
  refused = h.refused ∙ ap (λ x. wrap64 (pos x)) (omega (arith, f));
}
walked_over-Counts (ch ∷ chs) n k m l walk e f h =
    walked_over-Counts chs (n + length ch.upserted) (k + length ch.refused) m l (advanced walk ch)
      (omega (arith, e)) (omega (arith, f)) (Counts-advanced walk ch h)

expected_pages :
    {D : Type 0} (total : Option ℤ) (chs : List (Changes D))
    → expected_of total (walked_over chs start_walk) ≡ demanded total chs
expected_pages total chs = expected_of-demanded total chs (walked_over chs start_walk) (
    walked_over-Counts chs 0 0 (documents_in chs) (refusals_in chs) start_walk (omega arith)
      (omega arith) Counts-start_walk)

emptied :
    {A : Type 0} (b : Bool) (f : Option A → Option A) (old : Option A)
    → (if b then f (if b then none else old) else (if b then none else old))
      ≡ (if b then f none else old)
emptied true f old = refl
emptied false f old = refl

module _ {W F D : Type 0} (view : W → Seen F) {engine : Engine W F} {c : Collection}
    (encode : D → Document F) (named : (d : D) → IsNamed (encode d)) {source : Source W D}
    (counter : Option (Counter W)) (total : Option ℤ) {limit : ℤ} {feed : Cursor → Changes D}
    {checkpoint : Checkpoint W} {keep : Option Cursor → Cursor → Cursor}
    {storable : Cursor → Type 0} {lock : Lock W} (clock : Clock W)
    {size : (Text → Option (Document F)) → ℤ} (stores : Stores view engine c size)
    (answers : Answers view source limit feed) (counting : IsCounting view counter total)
    (saves : Saves view checkpoint c keep storable) (excludes : Excludes view lock c)
    (quiet : (w : W) → view (clock.now w).1 ≡ view w) where
  abbrev reindexer : Reindexer W D
  reindexer = index_reindexer engine c encode source counter limit checkpoint lock clock

  switch-Yields :
      (s : Seen F) (g : Generation) (cur : Cursor)
      → s.made g ≡ true
      → storable cur
      → Yields view s
          (lock.hold c >> under_lock reindexer (switch reindexer g cur))
          tt
          (record s { alias = g; saved = some (keep s.saved cur); held = false })
  unfolding switch
  switch-Yields s g cur made fits =
      let locked : Seen F = record s { held = true } in
      Yields->>= view _ _ (excludes.holds s) (record {
        at = λ w seen.
            let (w₁, answer, seen₁) =
              (Yields->>= view (promote engine c encode g) (λ _. checkpoint.save c cur)
                  (promote-Yields view engine c encode stores locked g made)
                  (saves.saves (record locked { alias = g }) cur fits)).at
                w seen in
            (
              lock.release c w₁,
              ap (λ p. (p.0, lock.release c p.1)) answer,
              excludes.releases _ w₁ seen₁,
            );
      })

  finish_full :
      (s : Seen F) (g : Generation) (walk : Walk)
      → s.made g ≡ true
      → storable walk.cur
      → ltb_ℤ (size (s.docs g)) (expected_of total walk) ≡ false
      → Yields view s
          (finish reindexer g total walk)
          tt
          (record s { alias = g; saved = some (keep s.saved walk.cur); held = false })
  unfolding finish verify
  finish_full s g walk made fits full =
      Yields->>= view _ _ (count_in-Yields view engine c encode stores s g made)
        (rw (full) (switch-Yields s g walk.cur made fits))

  finish_short :
      (s : Seen F) (g : Generation) (walk : Walk) (w : W)
      → s.made g ≡ true
      → ltb_ℤ (size (s.docs g)) (expected_of total walk) ≡ true
      → view w ≡ s
      → (w' : W) × (finish reindexer g total walk w
          ≡ (err (too_few reindexer g (size (s.docs g)) total (expected_of total walk)), w'))
        × (view w' ≡ s)
  unfolding finish verify
  finish_short s g walk w made short seen =
      let (w₁, answer, seen₁) = (count_in-Yields view engine c encode stores s g made).at w seen in
      (w₁, rw (answer, short) (refl), seen₁)

  abbrev built : Generation → List (Changes D) → Seen F → Seen F
  built g pages s = written g (all_put encode pages) (with_generation g s)

  built-IsBuilt :
      (g : Generation) (pages : List (Changes D)) (s t : Seen F)
      → ((h : Generation) → t.made h ≡ (built g pages s).made h)
      → ((h : Generation) (id : Text) → t.docs h id ≡ (built g pages s).docs h id)
      → IsBuilt encode g pages s t
  built-IsBuilt g pages s t made docs = record {
    made = made;
    docs = λ h id.
        docs h id
        ∙ replay_at g (all_put encode pages) (with_generation g s).docs h id
        ∙ emptied (text_eq h g) (last_write (all_put encode pages) id) (s.docs h id);
  }

  -- How the end of a run, from the check of the count, leaves things.
  finish-Replaced :
      (s : Seen F) (g : Generation) (pages : List (Changes D)) (w : W) (b : Bool)
      → storable (last_next feed zero_cursor pages)
      → ltb_ℤ (size ((built g pages s).docs g)) (demanded total pages) ≡ b
      → view w ≡ built g pages s
      → (r : Result (Unit {0})) × (n : W) × (finish reindexer g total
            (walked_over pages start_walk)
            w
          ≡ (r, n))
        × Replaced encode size keep feed g total pages s r (view n)
  unfolding errf kind_of
  finish-Replaced s g pages w true fits short seen =
      let t = built g pages s in
      let made : t.made g ≡ true = ap (λ b. if b then true else s.made g) (text_eq_refl g) in
      let same = ap (ltb_ℤ (size (t.docs g))) (expected_pages total pages) in
      let (n, ended, seen₁) =
        finish_short t g (walked_over pages start_walk) w made (same ∙ short) seen in
      (
        _,
        n,
        ended,
        stayed (ap (is_short encode size keep feed g total pages) seen₁ ∙ short) refl
            (ap Seen.alias seen₁) (ap Seen.saved seen₁) (ap Seen.held seen₁)
            (built-IsBuilt g pages s (view n) (λ h. ap (λ (x : Seen F). x.made h) seen₁)
              (λ h id. ap (λ (x : Seen F). x.docs h id) seen₁)),
      )
  finish-Replaced s g pages w false fits full seen =
      let t = built g pages s in
      let walk = walked_over pages start_walk in
      let last : walk.cur ≡ last_next feed zero_cursor pages =
        walked_over-cur feed zero_cursor pages start_walk refl in
      let made : t.made g ≡ true = ap (λ b. if b then true else s.made g) (text_eq_refl g) in
      let small : storable walk.cur = subst (λ (cur : Cursor). storable cur) (sym last) fits in
      let same = ap (ltb_ℤ (size (t.docs g))) (expected_pages total pages) in
      let (n, ended, seen₁) = (finish_full t g walk made small (same ∙ full)).at w seen in
      (
        ok tt,
        n,
        ended,
        moved (ap (is_short encode size keep feed g total pages) seen₁ ∙ full) (ap Seen.alias seen₁)
            (ap Seen.saved seen₁ ∙ ap (λ cur. some (keep s.saved cur)) last) (ap Seen.held seen₁)
            (built-IsBuilt g pages s (view n) (λ h. ap (λ (x : Seen F). x.made h) seen₁)
              (λ h id. ap (λ (x : Seen F). x.docs h id) seen₁)),
      )

  -- The generation that a rebuild makes.
  abbrev pub next_generation : W → Generation
  next_generation w = generation_name c (unix_seconds (clock.now w).0)

  -- The reindexer on the engine's index, where the engine does what it is asked with a generation
  -- that it has and makes one that it has not, the source answers by the cursor alone and counts,
  -- if it counts, what is supposed, the checkpoint keeps cursors that fit its table, the lock is
  -- free, the clock changes nothing, every encoded document carries its id, the collection has a
  -- schema, the engine has no generation of the new name, the source's pages from the zero cursor
  -- end with a cursor that fits, and the fuel covers them: a rebuild returns. The new generation is
  -- there and holds under each id the encoding that was last written there, and nothing else, and
  -- no other generation changed. If it holds fewer documents than the source counted, less the
  -- refusals on the pages (or than the pages hold, if the source does not count), in 64 bits, the
  -- answer is that the index is unavailable, and alias, checkpoint and lock stay; otherwise it is
  -- success, the alias is at the new generation, the checkpoint has kept the last page's cursor,
  -- and the lock is free.
  pub run-Replaced :
      (fuel : ℕ) (pages : List (Changes D)) (w : W)
      → IsKnown c
      → (view w).made (next_generation w) ≡ false
      → Chain feed zero_cursor pages
      → storable (last_next feed zero_cursor pages)
      → length pages ≤ fuel
      → (r : Result (Unit {0})) × (n : W) × (run
            (index_reindexer engine c encode source counter limit checkpoint lock clock)
            fuel
            w
          ≡ some (r, n))
        × Replaced encode size keep feed (next_generation w) total pages (view w) r (view n)
  unfolding run rebuild
  run-Replaced fuel pages w known fresh chain fits enough =
      let s = view w in
      let g = next_generation w in
      let made : (with_generation g s).made g ≡ true =
        ap (λ b. if b then true else s.made g) (text_eq_refl g) in
      let (w₁, prepared, seen₁) =
        (prepare-Yields view encode named counter total checkpoint lock clock stores answers
            counting s g known fresh).at
          (clock.now w).1 (quiet w) in
      let (w₂, walked, seen₂) =
        walk_lem view encode named counter total checkpoint lock clock stores answers counting fuel
          (with_generation g s) g (pos 0) (pos 0) zero_cursor pages w₁ made chain enough seen₁ in
      let (r, n, ended, replaced) = finish-Replaced s g pages w₂ _ fits refl seen₂ in
      (r, n, rw (prepared, walked, ended) (refl), replaced)
