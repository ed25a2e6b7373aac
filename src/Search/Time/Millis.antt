-- ===== src/Search/Time/Millis.antt =====
-- An instant that is a whole number of milliseconds survives the way through its milliseconds.
use kinetix_search_service.Common.{ℤ, ◌≡◌, arith}
use kinetix_search_service.Search.Time.{Time, unix_milli, time_of_millis}

pub unix_milli-time_of_millis : (n : ℤ) → unix_milli (time_of_millis n) ≡ n
unfolding unix_milli time_of_millis
unix_milli-time_of_millis n = ground arith

-- The times that milliseconds can tell.
pub record IsMillis (t : Time) : Type 0 where
  pub millis : ℤ
  pub is_time : t ≡ time_of_millis millis

pub time_of_millis-unix_milli : (t : Time) → IsMillis t → time_of_millis (unix_milli t) ≡ t
time_of_millis-unix_milli t m = cc (m.is_time, unix_milli-time_of_millis m.millis)
