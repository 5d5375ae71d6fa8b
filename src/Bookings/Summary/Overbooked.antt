-- ===== src/Bookings/Summary/Overbooked.antt =====
-- `overbooked_capacity_rows`: the slots of a range of dates that have too many travelers.
pub mod Listed
use ticketmirror.Base.{
  ℕ, zero, suc, ◌+◌, ◌-◌, Bool, true, false, Option, none, some, List, [], ◌∷◌, ◌++◌, filter,
}
use ticketmirror.Base.Int.{ℤ, is_negative}
use ticketmirror.Data.{Db}
use ticketmirror.Bookings.Summary.{CapacityRow}
use ticketmirror.Bookings.Summary.Day.{get_daily_capacity_summary}

-- `count` dates from `current` on
unfoldable pub dates_from : ℕ → ℕ → List ℕ
dates_from zero current = []
dates_from (suc n) current = current ∷ dates_from n (suc current)

-- `_date_range`: the loop runs while `current <= end`, that is for `end + 1 - start` rounds. A range
-- with one end is that date.
unfoldable pub date_range : Option ℕ → Option ℕ → List ℕ
unfolding dates_from
date_range none none = []
date_range (some from) none = dates_from (suc from - from) from
date_range none (some to) = dates_from (suc to - to) to
date_range (some from) (some to) = dates_from (suc to - from) from

-- `row["remaining"] is not None and row["remaining"] < 0`
abbrev pub below_zero : Option ℤ → Bool
below_zero none = false
below_zero (some n) = is_negative n

abbrev pub is_overbooked : CapacityRow → Bool
is_overbooked row = below_zero row.remaining

unfoldable pub overbooked_on : Db → List ℕ → List CapacityRow
unfolding get_daily_capacity_summary
overbooked_on db [] = []
overbooked_on db (d ∷ dates) =
    filter is_overbooked (get_daily_capacity_summary db d) ++ overbooked_on db dates

unfoldable pub overbooked_capacity_rows : Db → Option ℕ → Option ℕ → List CapacityRow
unfolding overbooked_on date_range
overbooked_capacity_rows db from to = overbooked_on db (date_range from to)
