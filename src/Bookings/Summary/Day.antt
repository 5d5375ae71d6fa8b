-- ===== src/Bookings/Summary/Day.antt =====
-- The rows of `get_daily_capacity_summary` and their order.
use ticketmirror.Base.{
  ℕ, String, Bool, false, not, ◌&&◌, ◌||◌, Option, none, some, List, [], ◌∷◌, ◌++◌, map, leb, ◌==◌,
  if◌then◌else◌, filter, any,
}
use ticketmirror.Base.Order.{lex}
use ticketmirror.Base.Sort.{sort}
use ticketmirror.Base.TextOrder.{text_lex}
use ticketmirror.Data.{
  Db, Booking, TourActivity, ActivitySchedule, ActivityScheduleSlot, ActivityScheduleException,
}
use ticketmirror.Bookings.Schedules.{
  resolve_active_schedule, schedule_applies_to_weekday, slot_applies_to_weekday,
  slot_removed_by_exception,
}
use ticketmirror.Bookings.Capacity.{
  is_excluded_capacity, status_in, excluded_by_reviews, travels_on, is_in_slot,
  unscheduled_bookings,
}
use ticketmirror.Bookings.Summary.{
  CapacityRow, slot_row, extra_slot_rows, unscheduled_row, activity_by_id,
}

abbrev pub is_active : Option TourActivity → Bool
is_active none = false
is_active (some a) = a.active

-- `filter(activity__active=True, active=True)`
unfoldable pub is_offered : Db → ActivitySchedule → Bool
unfolding activity_by_id
is_offered db s = is_active (activity_by_id db s.activity) && s.active

-- `slots`: the schedule in force of each activity, in the order of insertion.
abbrev pub Chosen : Type 0
Chosen = List (ℕ × ActivitySchedule)

abbrev pub has_activity : ℕ → Chosen → Bool
has_activity id [] = false
has_activity id ((a, s) ∷ chosen) = a == id || has_activity id chosen

abbrev pub choose : ℕ → ℕ → Chosen → Option ActivitySchedule → Chosen
choose id service_date chosen none = chosen
choose id service_date chosen (some active_schedule) =
    if schedule_applies_to_weekday active_schedule service_date
    then chosen ++ (id, active_schedule) ∷ []
    else chosen

unfoldable pub choose_schedules : Db → ℕ → Chosen → List ActivitySchedule → Chosen
unfolding resolve_active_schedule schedule_applies_to_weekday
choose_schedules db service_date chosen [] = chosen
choose_schedules db service_date chosen (s ∷ schedules) =
    choose_schedules db service_date
      (if has_activity s.activity chosen
        then chosen
        else choose s.activity service_date chosen
            (resolve_active_schedule db s.activity service_date))
      schedules

unfoldable pub active_schedules : Db → ℕ → Chosen
unfolding choose_schedules is_offered
active_schedules db service_date =
    choose_schedules db service_date [] (filter (is_offered db) db.schedules)

unfoldable pub runs_on : Db → ℕ → ActivitySchedule → ActivityScheduleSlot → Bool
unfolding slot_applies_to_weekday slot_removed_by_exception
runs_on db service_date s slot =
    slot.schedule == s.id
    && (slot.active
        && (slot_applies_to_weekday slot service_date
            && not (slot_removed_by_exception db slot service_date)))

unfoldable pub schedule_rows : Db → ℕ → ActivitySchedule → List CapacityRow
unfolding runs_on slot_row extra_slot_rows
schedule_rows db service_date s =
    map (slot_row db service_date) (filter (runs_on db service_date s) db.slots)
    ++ extra_slot_rows db s service_date

unfoldable pub chosen_rows : Db → ℕ → Chosen → List CapacityRow
unfolding schedule_rows
chosen_rows db service_date [] = []
chosen_rows db service_date ((a, s) ∷ chosen) =
    schedule_rows db service_date s ++ chosen_rows db service_date chosen

-- `booking_slots`: unlike `get_slot_bookings`, this query does not look at the attendance.
unfoldable pub books_slot : Db → ℕ → ActivityScheduleSlot → Booking → Bool
unfolding status_in excluded_by_reviews travels_on is_in_slot
books_slot db service_date slot b =
    is_in_slot slot b
    && (travels_on service_date b
        && (not (status_in is_excluded_capacity b) && not (excluded_by_reviews db b)))

abbrev pub is_slot : ℕ → Option ActivityScheduleSlot → Bool
is_slot id none = false
is_slot id (some s) = s.id == id

abbrev pub has_slot : ℕ → CapacityRow → Bool
has_slot id row = is_slot id row.slot

-- `filter(id__in=booking_slots).exclude(id__in=seen_slot_ids)`
unfoldable pub only_booked : Db → ℕ → List CapacityRow → ActivityScheduleSlot → Bool
unfolding books_slot
only_booked db service_date rows slot =
    any (books_slot db service_date slot) db.bookings && not (any (has_slot slot.id) rows)

unfoldable pub booked_rows : Db → ℕ → List CapacityRow → List CapacityRow
unfolding only_booked slot_row
booked_rows db service_date rows =
    map (slot_row db service_date) (filter (only_booked db service_date rows) db.slots)

abbrev pub row_if_any : CapacityRow → List Booking → List CapacityRow
row_if_any row [] = []
row_if_any row (b ∷ bs) = row ∷ []

unfoldable pub unscheduled_rows : Db → ℕ → List CapacityRow
unfolding unscheduled_row unscheduled_bookings
unscheduled_rows db service_date =
    row_if_any (unscheduled_row db service_date) (unscheduled_bookings db service_date)

unfoldable pub day_rows : Db → ℕ → List CapacityRow
unfolding chosen_rows active_schedules booked_rows unscheduled_rows
day_rows db service_date =
    let rows = chosen_rows db service_date (active_schedules db service_date) in
    rows ++ (booked_rows db service_date rows ++ unscheduled_rows db service_date)

-- `_capacity_row_sort_key`
pub record SortKey : Type 0 where
  pub name : String
  pub start_time : ℕ
  pub row_id : ℕ

-- time.max, in microseconds
abbrev pub time_max : ℕ
time_max = 86399999999

abbrev pub name_of : Option TourActivity → String
name_of none = "zzzzzz"
name_of (some a) = a.name

abbrev pub or_time_max : Option ℕ → ℕ
or_time_max none = time_max
or_time_max (some t) = t

-- A row without a slot and without an exception is the unscheduled one, whose key is fixed.
abbrev pub key_of_exception : String → Option ActivityScheduleException → SortKey
key_of_exception name none = record { name = name; start_time = time_max; row_id = 0 }
key_of_exception name (some e) = record {
  name = name;
  start_time = or_time_max e.start_time;
  row_id = e.id;
}

abbrev pub key_of_slot :
    String → Option ActivityScheduleSlot → Option ActivityScheduleException → SortKey
key_of_slot name (some s) e = record { name = name; start_time = s.start_time; row_id = s.id }
key_of_slot name none e = key_of_exception name e

unfoldable pub capacity_row_sort_key : CapacityRow → SortKey
capacity_row_sort_key row =
    if row.is_unscheduled
    then record { name = "zzzzzz"; start_time = time_max; row_id = 0 }
    else key_of_slot (name_of row.activity) row.slot row.exception

-- Comparison of the keys as tuples.
unfoldable pub key_le : SortKey → SortKey → Bool
key_le k l = text_lex k.name l.name (lex k.start_time l.start_time (leb k.row_id l.row_id))

unfoldable pub row_le : CapacityRow → CapacityRow → Bool
unfolding capacity_row_sort_key key_le
row_le x y = key_le (capacity_row_sort_key x) (capacity_row_sort_key y)

unfoldable pub get_daily_capacity_summary : Db → ℕ → List CapacityRow
unfolding day_rows row_le sort
get_daily_capacity_summary db service_date = sort row_le (day_rows db service_date)
