-- ===== src/Search/Time.antt =====
-- The parts of package time that the program uses.
-- A `time.Time` is an instant, so many nanoseconds after the zero time of Go (year 1); `UTC` keeps
-- the instant. A duration is a number of nanoseconds in 64 bits.
pub mod Millis
use kinetix_search_service.Common.{
  ℕ, ℤ, pos, negsuc, pos_part, neg_part, suc, ◌+◌, ◌-◌, ◌*◌, ◌/◌, ◌^◌, ◌-ℤ◌, ◌+ℤ◌, ltb_ℤ, eq_ℤ,
  Bool, if◌then◌else◌,
}

abbrev pub Time : Type 0
Time = ℤ

abbrev pub Duration : Type 0
Duration = ℤ

abbrev pub zero_time : Time
zero_time = pos 0

abbrev pub is_zero_time : Time → Bool
is_zero_time t = eq_ℤ t zero_time

abbrev pub max_duration : Duration
max_duration = pos (2 ^ 63 - 1)

abbrev pub min_duration : Duration
min_duration = negsuc (2 ^ 63 - 1)

-- `t.Sub(u)` saturates.
unfoldable pub time_sub : Time → Time → Duration
unfolding ◌-ℤ◌
time_sub t u =
    let d = t -ℤ u in
    if ltb_ℤ max_duration d then max_duration else if ltb_ℤ d min_duration then min_duration else d

-- The zero time lies this many nanoseconds before 1970.
abbrev pub unix_epoch : Time
unix_epoch = pos (62_135_596_800 * 10 ^ 9)

-- Division by a positive number, rounding down.
abbrev pub floor_div : ℤ → ℕ → ℤ
floor_div (pos n) k = pos (n / k)
floor_div (negsuc n) k = negsuc (n / k)

abbrev pub scale : ℕ → ℤ → ℤ
scale k (pos n) = pos (n * k)
scale k (negsuc n) = negsuc (n * k + (k - 1))

-- `t.UnixMilli()` and `time.UnixMilli(n).UTC()`.
unfoldable pub unix_milli : Time → ℤ
unfolding ◌-ℤ◌
unix_milli t = floor_div (t -ℤ unix_epoch) (10 ^ 6)

unfoldable pub time_of_millis : ℤ → Time
unfolding ◌+ℤ◌
time_of_millis n = scale (10 ^ 6) n +ℤ unix_epoch

-- `t.Unix()`.
unfoldable pub unix_seconds : Time → ℤ
unfolding ◌-ℤ◌
unix_seconds t = floor_div (t -ℤ unix_epoch) (10 ^ 9)
