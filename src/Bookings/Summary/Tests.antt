-- ===== src/Bookings/Summary/Tests.antt =====
-- The summary of the sample day.
use ticketmirror.Base.{◌≡◌, refl, sym, ◌∙◌, inl, inr, some, In}
use ticketmirror.Data.{ActivityScheduleSlot}
use ticketmirror.Bookings.Summary.Day.{get_daily_capacity_summary}
use ticketmirror.Bookings.Summary.Complete.{IsSummary, get_daily_capacity_summary-IsSummary}
use ticketmirror.Bookings.Summary.Overbooked.{overbooked_capacity_rows}
use ticketmirror.Bookings.Summary.Overbooked.Listed.{IsListed, overbooked_capacity_rows-IsListed}
use ticketmirror.Samples.{db}

one_slot : (s t : ActivityScheduleSlot) → In s db.slots → In t db.slots → s.id ≡ t.id → s ≡ t
one_slot s t (inl p) (inl q) e = p ∙ sym q
one_slot s t (inl p) (inr x) e = absurd x
one_slot s t (inr x) j e = absurd x

get_daily_capacity_summary-IsSummary_example : IsSummary db 100 (get_daily_capacity_summary db 100)
get_daily_capacity_summary-IsSummary_example = get_daily_capacity_summary-IsSummary db 100 one_slot

overbooked_capacity_rows-IsListed_example :
    IsListed db (some 99) (some 101) (overbooked_capacity_rows db (some 99) (some 101))
overbooked_capacity_rows-IsListed_example =
    overbooked_capacity_rows-IsListed db (some 99) (some 101) ((_, refl), tt) one_slot
