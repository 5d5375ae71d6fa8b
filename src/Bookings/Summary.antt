-- ===== src/Bookings/Summary.antt =====
-- `get_daily_capacity_summary`: the rows of a day, of the slots that run, of extra slots, of slots
-- that only have bookings, and of the bookings without a slot.
pub mod Day
pub mod Complete
pub mod Overbooked
mod Tests
use ticketmirror.Base.{
  ℕ, ◌+◌, String, Bool, true, false, not, ◌&&◌, ◌||◌, Option, none, some, List, [], ◌∷◌, ◌++◌, map,
  leb, ◌==◌, if◌then◌else◌, filter, any, find?,
}
use ticketmirror.Base.Int.{ℤ, pos}
use ticketmirror.Base.Order.{lex}
use ticketmirror.Base.Sort.{sort}
use ticketmirror.Base.TextOrder.{text_lex}
use ticketmirror.Data.{
  Db, Booking, Value, null, TourActivity, ActivitySchedule, ActivityScheduleSlot,
  ActivityScheduleException, ExceptionType, extra_slot,
}
use ticketmirror.Bookings.Schedules.{
  resolve_active_schedule, schedule_applies_to_weekday, slot_applies_to_weekday,
  slot_removed_by_exception, schedule_exceptions,
}
use ticketmirror.Bookings.Capacity.{
  is_confirmed_capacity, is_pending_capacity, is_manual_review_capacity, is_excluded_capacity,
  status_in, excluded_by_reviews, travels_on, is_in_slot, get_slot_bookings, sum_pax, Snapshot,
  get_capacity_for_slot_date, unscheduled_bookings,
}
use ticketmirror.Bookings.Labels.{slot_label, exception_slot_label}

-- A row of the summary. The capacity and what remains are missing for bookings without a slot,
-- and the row of a slot has no list of bookings.
pub record CapacityRow : Type 0 where
  pub date : ℕ
  pub activity : Option TourActivity
  pub schedule : Option ActivitySchedule
  pub slot : Option ActivityScheduleSlot
  pub exception : Option ActivityScheduleException
  pub slot_label : String
  pub confirmed_pax : ℕ
  pub pending_pax : ℕ
  pub manual_review_pax : ℕ
  pub active_pax : ℕ
  pub blocked_pax : ℕ
  pub capacity : Option ℕ
  pub remaining : Option ℤ
  pub is_unscheduled : Bool
  pub bookings : Option (List Booking)

unfoldable pub schedule_by_id : Db → ℕ → Option ActivitySchedule
schedule_by_id db id = find? (λ s. s.id == id) db.schedules

unfoldable pub activity_by_id : Db → ℕ → Option TourActivity
activity_by_id db id = find? (λ a. a.id == id) db.activities

abbrev pub activity_of : Db → Option ActivitySchedule → Option TourActivity
activity_of db none = none
activity_of db (some s) = activity_by_id db s.activity

-- The dictionary of `get_capacity_for_slot_date`.
unfoldable pub slot_row : Db → ℕ → ActivityScheduleSlot → CapacityRow
unfolding get_capacity_for_slot_date schedule_by_id activity_by_id slot_label
slot_row db service_date slot =
    let snapshot = get_capacity_for_slot_date db slot service_date in
    let its_schedule = schedule_by_id db slot.schedule in
    record {
      date = service_date;
      activity = activity_of db its_schedule;
      schedule = its_schedule;
      slot = some slot;
      exception = none;
      slot_label = slot_label (some slot);
      confirmed_pax = snapshot.confirmed_pax;
      pending_pax = snapshot.pending_pax;
      manual_review_pax = snapshot.manual_review_pax;
      active_pax = snapshot.active_pax;
      blocked_pax = snapshot.blocked_pax;
      capacity = some snapshot.capacity;
      remaining = some snapshot.remaining;
      is_unscheduled = false;
      bookings = none;
    }

-- `exception.capacity or 0`
abbrev pub capacity_or_0 : Option ℕ → ℕ
capacity_or_0 none = 0
capacity_or_0 (some n) = n

unfoldable pub extra_row : Db → ActivitySchedule → ℕ → ActivityScheduleException → CapacityRow
unfolding activity_by_id exception_slot_label
extra_row db its_schedule service_date e =
    let seats = capacity_or_0 e.capacity in
    record {
      date = service_date;
      activity = activity_by_id db its_schedule.activity;
      schedule = some its_schedule;
      slot = none;
      exception = some e;
      slot_label = exception_slot_label e;
      confirmed_pax = 0;
      pending_pax = 0;
      manual_review_pax = 0;
      active_pax = 0;
      blocked_pax = 0;
      capacity = some seats;
      remaining = some (pos seats);
      is_unscheduled = false;
      bookings = some [];
    }

abbrev pub is_extra : ExceptionType → Bool
is_extra extra_slot = true
is_extra _ = false

unfoldable pub extra_slot_rows : Db → ActivitySchedule → ℕ → List CapacityRow
unfolding extra_row schedule_exceptions
extra_slot_rows db its_schedule service_date =
    map (extra_row db its_schedule service_date) (
      filter (λ e. is_extra e.exception_type) (schedule_exceptions db its_schedule.id service_date))

unfoldable pub unscheduled_row : Db → ℕ → CapacityRow
unfolding unscheduled_bookings sum_pax
unscheduled_row db service_date =
    let found = unscheduled_bookings db service_date in
    let sure = sum_pax is_confirmed_capacity found in
    let asked = sum_pax is_pending_capacity found in
    let review = sum_pax is_manual_review_capacity found in
    record {
      date = service_date;
      activity = none;
      schedule = none;
      slot = none;
      exception = none;
      slot_label = "Unscheduled / unmapped";
      confirmed_pax = sure;
      pending_pax = asked;
      manual_review_pax = review;
      active_pax = sure + asked + review;
      blocked_pax = 0;
      capacity = none;
      remaining = none;
      is_unscheduled = true;
      bookings = some found;
    }
