-- ===== src/Search/Service.antt =====
-- internal/search/service.go and lock.go: the interfaces between the packages.
-- The context of a call is not modelled.
use kinetix_search_service.Common.{ℤ, List, Text}
use kinetix_search_service.Search.Call.{Call}
use kinetix_search_service.Search.Time.{Time}
use kinetix_search_service.Search.Document.{
  Collection, Generation, Cursor, Changes, Progress, Results,
}
use kinetix_search_service.Search.Query.{Query, SuggestQuery}

pub record Searcher (F W D : Type 0) : Type 0 where
  pub search_docs : Query → Call W (Results F D)
  pub suggest : SuggestQuery → Call W (List Text)

pub record Index (W D : Type 0) : Type 0 where
  pub create_generation : Generation → Call W (Unit {0})
  pub bulk : Generation → List D → Call W (Unit {0})
  pub remove : Generation → List Text → Call W (Unit {0})
  pub count_in : Generation → Call W ℤ
  pub promote : Generation → Call W (Unit {0})
  pub live : Call W Generation

-- `ChangedSince`; the limit is an `int`.
pub record Source (W D : Type 0) : Type 0 where
  pub changed_since : Cursor → ℤ → Call W (Changes D)

pub record Counter (W : Type 0) : Type 0 where
  pub count : Call W ℤ

pub record Checkpoint (W : Type 0) : Type 0 where
  pub load : Collection → Call W Progress
  pub save : Collection → Cursor → Call W (Unit {0})

-- `Hold` returns the function that releases, here the second field.
pub record Lock (W : Type 0) : Type 0 where
  pub hold : Collection → Call W (Unit {0})
  pub release : Collection → W → W

pub record Clock (W : Type 0) : Type 0 where
  pub now : W → Time × W
