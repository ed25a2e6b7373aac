-- ===== src/Indexing/Memory/Replay.antt =====
-- Writes to an index, one after the other.
use kinetix_search_service.Common.{
  ◌≡◌, refl, List, [], ◌∷◌, ◌++◌, Text, text_eq, if◌then◌else◌, arith,
}
use kinetix_search_service.Search.Document.{Generation}
use kinetix_search_service.Indexing.Memory.{Docs, Write, write, replay, last_write}

pub replay-append :
    {D : Type 0} (g : Generation) (xs ys : List (Write D)) (docs : Docs D)
    → replay g (xs ++ ys) docs ≡ replay g ys (replay g xs docs)
replay-append g [] ys docs = refl
replay-append g (x ∷ xs) ys docs = replay-append g xs ys (write g x docs)

-- The index after some writes: the last one to each id of the generation, and all else as it was.
pub replay_at :
    {D : Type 0} (g : Generation) (ws : List (Write D)) (docs : Docs D) (h : Generation) (id : Text)
    → replay g ws docs h id ≡ (if text_eq h g then last_write ws id (docs h id) else docs h id)
replay_at g [] docs h id = ground arith
replay_at g ((k, v) ∷ ws) docs h id = ground (arith, replay_at g ws (write g (k, v) docs) h id)
