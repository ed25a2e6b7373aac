-- ===== src/Indexing/Reindexer/Counts.antt =====
-- What a rebuild has to hold in the end, told by its pages, and that the variables of the walk of
-- internal/indexing/reindexer.go come to it.
use kinetix_search_service.Common.{
  ℕ, ℤ, pos, ◌+◌, ◌≡◌, refl, ap, ◌∙◌, Option, none, some, List, [], ◌∷◌, length, nonempty, ◌-ℤ◌,
  ◌+ℤ◌, wrap64, wrap64-+ℤ_wrap64, wrap64--ℤ_wrap64, arith, if◌then◌else◌,
}
use kinetix_search_service.Search.Document.{Cursor, Changes}
use kinetix_search_service.Indexing.Memory.{last_next}
use kinetix_search_service.Indexing.Reindexer.{Walk, start_walk, advanced, expected_of}

-- A walk that has counted so many.
pub record Counts (documents refusals : ℕ) (walk : Walk) : Type 0 where
  pub sent : walk.sent ≡ wrap64 (pos documents)
  pub refused : walk.refused ≡ wrap64 (pos refusals)

module _ {D : Type 0} where
  -- The documents of the pages, and the refusals.
  abbrev pub documents_in : List (Changes D) → ℕ
  documents_in [] = 0
  documents_in (ch ∷ chs) = documents_in chs + length ch.upserted

  abbrev pub refusals_in : List (Changes D) → ℕ
  refusals_in [] = 0
  refusals_in (ch ∷ chs) = refusals_in chs + length ch.refused

  -- What the source counted, less the refusals, or else all documents of the pages; in 64 bits.
  abbrev pub demanded : Option ℤ → List (Changes D) → ℤ
  demanded none chs = wrap64 (pos (documents_in chs))
  demanded (some total) chs = wrap64 (total -ℤ pos (refusals_in chs))

  sent_more :
      (n : ℕ) (sent : ℤ) (ds : List D)
      → sent ≡ wrap64 (pos n)
      → (if nonempty ds then wrap64 (sent +ℤ pos (length ds)) else sent)
        ≡ wrap64 (pos (n + length ds))
  sent_more n sent [] h = h ∙ ap (λ k. wrap64 (pos k)) (omega arith)
  sent_more n sent (d ∷ ds) h =
      ap (λ z. wrap64 (z +ℤ pos (length (d ∷ ds)))) h ∙ wrap64-+ℤ_wrap64 n (length (d ∷ ds))

  pub Counts-advanced :
      {n k : ℕ} (walk : Walk) (ch : Changes D)
      → Counts n k walk
      → Counts (n + length ch.upserted) (k + length ch.refused) (advanced walk ch)
  Counts-advanced {n} {k} walk ch h = record {
    sent = sent_more n walk.sent ch.upserted h.sent;
    refused =
        ap (λ z. wrap64 (z +ℤ pos (length ch.refused))) h.refused
        ∙ wrap64-+ℤ_wrap64 k (length ch.refused);
  }

  pub expected_of-demanded :
      (total : Option ℤ) (chs : List (Changes D)) (walk : Walk)
      → Counts (documents_in chs) (refusals_in chs) walk
      → expected_of total walk ≡ demanded total chs
  unfolding expected_of
  expected_of-demanded none chs walk h = h.sent
  expected_of-demanded (some total) chs walk h =
      ap (λ z. wrap64 (total -ℤ z)) h.refused ∙ wrap64--ℤ_wrap64 total (refusals_in chs)

pub Counts-start_walk : Counts 0 0 start_walk
unfolding wrap64
Counts-start_walk = record { sent = refl; refused = refl }

-- A walk over pages, in their order.
module _ {D : Type 0} where
  abbrev pub walked_over : List (Changes D) → Walk → Walk
  walked_over [] w = w
  walked_over (ch ∷ chs) w = walked_over chs (advanced w ch)

  pub walked_over-cur :
      (feed : Cursor → Changes D) (cur : Cursor) (pages : List (Changes D)) (w : Walk)
      → w.cur ≡ cur
      → (walked_over pages w).cur ≡ last_next feed cur pages
  walked_over-cur feed cur [] w h = h
  walked_over-cur feed cur (ch ∷ chs) w h = walked_over-cur feed ch.next chs (advanced w ch) refl
