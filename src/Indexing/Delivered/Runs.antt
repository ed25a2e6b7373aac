-- ===== src/Indexing/Delivered/Runs.antt =====
-- A run of `Once` of internal/indexing/syncer.go on the index of internal/typesense/index.go.
use kinetix_search_service.Common.{
  Option, ℕ, ℤ, zero, suc, ◌≤◌, true, false, ◌≡◌, refl, sym, ap, ◌∙◌, some, List, [], ◌∷◌, ◌++◌,
  map, ok, Text, text_eq, if◌then◌else◌, length, All, arith, subst,
}
use kinetix_search_service.Search.Call.Yields.{Yields, Yields-pure, Yields->>=}
use kinetix_search_service.Search.Document.{Collection, Generation, Cursor, Changes}
use kinetix_search_service.Search.Service.{Source, Checkpoint, Lock}
use kinetix_search_service.Indexing.Syncer.{Syncer, sync_page, sync_loop, position, sync_held, once}
use kinetix_search_service.Indexing.Memory.{
  Docs, Write, replay, last_write, drops, Chain, last_page, and_then,
}
use kinetix_search_service.Indexing.Memory.Replay.{replay-append, replay_at}
use kinetix_search_service.Typesense.Documents.{Document}
use kinetix_search_service.Typesense.Engine.{Engine}
use kinetix_search_service.Typesense.Index.{index}
use kinetix_search_service.Indexing.Delivered.{
  cursor_of, Seen, IsNamed, stored, written, Stores, Answers, Saves, Excludes,
}
use kinetix_search_service.Indexing.Delivered.Indexed.{
  live-Yields, when_bulk-Yields, when_remove-Yields,
}

-- The writes that pages stand for, each document as it is encoded and under the id it carries.
module _ {F D : Type 0} (encode : D → Document F) where
  abbrev pub page_stored : Changes D → List (Write (Document F))
  page_stored ch = stored (map encode ch.upserted) ++ drops ch.removed

  abbrev pub all_stored : List (Changes D) → List (Write (Document F))
  all_stored [] = []
  all_stored (ch ∷ chs) = page_stored ch ++ all_stored chs

  pub all-IsNamed : ((d : D) → IsNamed (encode d)) → (ds : List D) → All IsNamed (map encode ds)
  all-IsNamed named [] = tt
  all-IsNamed named (d ∷ ds) = (named d, all-IsNamed named ds)

-- A page whose cursor the table of checkpoints can hold.
abbrev pub Fits : {D : Type 0} → (Cursor → Type 0) → Changes D → Type 0
Fits storable ch = storable ch.next

abbrev pub kept_cursor :
    {D : Type 0}
    → (Option Cursor → Cursor → Cursor)
    → Option Cursor
    → List (Changes D)
    → Option Cursor
kept_cursor keep cur [] = cur
kept_cursor keep cur (ch ∷ chs) = kept_cursor keep (some (keep cur ch.next)) chs

module _ {W F D : Type 0} (engine : Engine W F) (c : Collection) (encode : D → Document F)
    (source : Source W D) (limit : ℤ) (checkpoint : Checkpoint W) (lock : Lock W) where
  abbrev pub index_syncer : Syncer W D
  index_syncer = record {
    collection = c;
    source = source;
    index = index engine c encode;
    checkpoint = checkpoint;
    lock = lock;
    page_size = limit;
  }

-- What a run has done to what is seen.
pub record IsDelivered {F D : Type 0} (encode : D → Document F)
    (keep : Option Cursor → Cursor → Cursor) (pages : List (Changes D)) (s t : Seen F)
    : Type 0 where
  pub freed : t.held ≡ false
  pub alias : t.alias ≡ s.alias
  pub saved : t.saved ≡ kept_cursor keep s.saved pages
  pub docs :
      (h : Generation) (id : Text)
      → t.docs h id ≡ (
          if text_eq h s.alias
          then last_write (all_stored encode pages) id (s.docs h id)
          else s.docs h id)

module _ {W F D : Type 0} (view : W → Seen F) {engine : Engine W F} {c : Collection}
    (encode : D → Document F) (named : (d : D) → IsNamed (encode d)) {source : Source W D}
    {limit : ℤ} {feed : Cursor → Changes D} {checkpoint : Checkpoint W}
    {keep : Option Cursor → Cursor → Cursor} {storable : Cursor → Type 0} {lock : Lock W}
    {size : (Text → Option (Document F)) → ℤ} (stores : Stores view engine c size)
    (answers : Answers view source limit feed) (saves : Saves view checkpoint c keep storable)
    (excludes : Excludes view lock c) where
  abbrev syncer : Syncer W D
  syncer = index_syncer engine c encode source limit checkpoint lock

  abbrev paged : Changes D → Seen F → Seen F
  paged ch s = record s {
    docs =
        replay s.alias (drops ch.removed) (replay s.alias (stored (map encode ch.upserted)) s.docs);
    saved = some (keep s.saved ch.next);
  }

  abbrev after : List (Changes D) → Seen F → Seen F
  after [] s = s
  after (ch ∷ chs) s = after chs (paged ch s)

  page-Yields :
      (s : Seen F) (cur : Cursor)
      → s.made s.alias ≡ true
      → Fits storable (feed cur)
      → Yields view s (sync_page syncer s.alias cur) (feed cur) (paged (feed cur) s)
  unfolding sync_page
  page-Yields s cur made fits =
      let ch = feed cur in
      Yields->>= view _ _ (answers.answers s cur) (
        Yields->>= view _ _
          (when_bulk-Yields view engine c encode stores s s.alias ch.upserted made
            (all-IsNamed encode named ch.upserted))
          (Yields->>= view _ _
            (when_remove-Yields view engine c encode stores
              (written s.alias (stored (map encode ch.upserted)) s) s.alias ch.removed made)
            (Yields->>= view _ _ (saves.saves _ ch.next fits) (Yields-pure view _ ch))))

  loop_lem :
      (fuel : ℕ) (s : Seen F) (cur : Cursor) (pages : List (Changes D)) (w : W)
      → s.made s.alias ≡ true
      → Chain feed cur pages
      → All (Fits storable) pages
      → length pages ≤ fuel
      → view w ≡ s
      → (w' : W) × (sync_loop syncer fuel s.alias cur w ≡ some (ok tt, w'))
        × (view w' ≡ after pages s)
  unfolding sync_loop
  loop_lem zero s cur pages w made (last_page _ last) fits enough seen = absurd (omega arith)
  loop_lem zero s cur pages w made (and_then _ ps again rest) fits enough seen =
      absurd (omega arith)
  loop_lem (suc fuel) s cur pages w made (last_page _ last) fits enough seen =
      let (w₁, answer, seen₁) = (page-Yields s cur made fits.0).at w seen in
      (w₁, rw (answer, last) (refl), seen₁)
  loop_lem (suc fuel) s cur pages w made (and_then _ ps again rest) fits enough seen =
      let (w₁, answer, seen₁) = (page-Yields s cur made fits.0).at w seen in
      let (w₂, looped, seen₂) =
        loop_lem fuel (paged (feed cur) s) (feed cur).next ps w₁ made rest fits.1 (omega arith)
          seen₁ in
      (w₂, rw (answer, again) looped, seen₂)

  after-docs :
      (pages : List (Changes D)) (s : Seen F)
      → (after pages s).docs ≡ replay s.alias (all_stored encode pages) s.docs
  after-docs [] s = refl
  after-docs (ch ∷ chs) s =
      after-docs chs (paged ch s)
      ∙ ap (replay s.alias (all_stored encode chs))
          (sym (replay-append s.alias (stored (map encode ch.upserted)) (drops ch.removed) s.docs))
      ∙ sym (replay-append s.alias (page_stored encode ch) (all_stored encode chs) s.docs)

  after-alias : (pages : List (Changes D)) (s : Seen F) → (after pages s).alias ≡ s.alias
  after-alias [] s = refl
  after-alias (ch ∷ chs) s = after-alias chs (paged ch s)

  after-saved :
      (pages : List (Changes D)) (s : Seen F)
      → (after pages s).saved ≡ kept_cursor keep s.saved pages
  after-saved [] s = refl
  after-saved (ch ∷ chs) s = after-saved chs (paged ch s)

  once_lem :
      (fuel : ℕ) (pages : List (Changes D)) (w : W)
      → (view w).made (view w).alias ≡ true
      → Chain feed (cursor_of (view w).saved) pages
      → All (Fits storable) pages
      → length pages ≤ fuel
      → (w' : W) × (once syncer fuel w ≡ some (ok tt, w'))
        × (view w' ≡ record (after pages (record (view w) { held = true })) { held = false })
  unfolding once sync_held position
  once_lem fuel pages w made chain fits enough =
      let s : Seen F = record (view w) { held = true } in
      let (w₁, locked, seen₁) = (excludes.holds (view w)).at w refl in
      let (p, w₂, loaded, current, seen₂) = saves.loads s w₁ seen₁ in
      let (w₃, pointed, seen₃) = (live-Yields view engine c encode stores s).at w₂ seen₂ in
      let (w₄, looped, seen₄) =
        loop_lem fuel s p.cursor pages w₃ made
          (subst (λ cur. Chain feed cur pages) (sym current) chain) fits enough seen₃ in
      (
        lock.release c w₄,
        rw (locked, loaded, pointed, looped) (refl),
        excludes.releases (after pages s) w₄ seen₄,
      )

  -- The syncer on the engine's index, where the engine stores and deletes what it is asked to in a
  -- generation that it has, the alias points at one, the source answers by the cursor alone, the
  -- checkpoint keeps cursors that fit its table, the lock is free, every encoded document carries
  -- its id, the source's pages from the saved cursor (the zero cursor, if there is none) end with
  -- cursors that fit, and the fuel covers them: a run succeeds, has released the lock, has left
  -- the alias where it pointed, and has saved the cursors of all pages, one after the other; the
  -- engine then holds under each id of the live generation the encoding that was last written
  -- there, or none where the last word was a removal, or else what it held before, and no other
  -- generation changed.
  pub once-IsDelivered :
      (fuel : ℕ) (pages : List (Changes D)) (w : W)
      → (view w).made (view w).alias ≡ true
      → Chain feed (cursor_of (view w).saved) pages
      → All (Fits storable) pages
      → length pages ≤ fuel
      → (n : W) × (once (index_syncer engine c encode source limit checkpoint lock) fuel w
          ≡ some (ok tt, n))
        × IsDelivered encode keep pages (view w) (view n)
  once-IsDelivered fuel pages w made chain fits enough =
      let (n, ran, seen) = once_lem fuel pages w made chain fits enough in
      let s : Seen F = record (view w) { held = true } in
      (
        n,
        ran,
        record {
          freed = ap Seen.held seen;
          alias = ap Seen.alias seen ∙ after-alias pages s;
          saved = ap Seen.saved seen ∙ after-saved pages s;
          docs = λ h id.
              ap (λ (t : Seen F). t.docs h id) seen
              ∙ ap (λ (f : Docs (Document F)). f h id) (after-docs pages s)
              ∙ replay_at s.alias (all_stored encode pages) s.docs h id;
        },
      )
