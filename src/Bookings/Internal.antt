-- ===== src/Bookings/Internal.antt =====
-- `create_internal_booking` of apps/bookings/services.py: a booking that the staff enter, held
-- to the capacity of its slot.
pub mod Counted
pub mod Fresh
pub mod Refusals
pub mod Reviewed
pub mod Outcome
use ticketmirror.Base.{
  ℕ, ◌+◌, String, Bool, true, false, not, ◌&&◌, ◌||◌, Option, none, some, List, [], ◌∷◌, ◌++◌, ◌==◌,
  str_eq, if◌then◌else◌, find?,
}
use ticketmirror.Base.Int.{ℤ, pos, pos_part, ◌-ℤ◌, is_negative, abs}
use ticketmirror.Base.Result.{Result, ok, err, ◌>>=◌, ◌>>◌, raise_if}
use ticketmirror.Data.{
  Db, Provider, Booking, Value, null, text, num, date, time, ref, status, confirmed,
  ActivityScheduleSlot, ActivitySchedule, TourActivity, BookingEvent, email_new_booking, manual,
  Entry, value, capacity_overbooked, internal_overbooked,
}
use ticketmirror.Bookings.Errors.{ServiceError, capacity_exceeded, does_not_exist}
use ticketmirror.Bookings.Capacity.{Snapshot, get_capacity_for_slot_date}
use ticketmirror.Bookings.Queue.{Key, create_review_item}
use ticketmirror.Bookings.Overrides.{Values}
use ticketmirror.Bookings.Reviews.{has_text}
use ticketmirror.Bookings.Rows.{new_booking, set_columns, create_row}

-- The arguments. The texts are the stripped ones; `admin` is `is_admin(user)`, and `reference`
-- what `_next_internal_reference` makes of the clock and the slot.
pub record Request : Type 0 where
  pub service_date : ℕ
  pub schedule_slot : ℕ
  pub traveler_count : ℤ
  pub lead_traveler_name : String
  pub lead_traveler_email : Option String
  pub lead_traveler_phone : Option String
  pub special_requirements : Option String
  pub customer_message : Option String
  pub user : Option ℕ
  pub admin : Bool
  pub allow_overcapacity : Bool
  pub override_reason : String
  pub reference : String

-- `get` on a primary key
abbrev pub get_row : {A : Type 0} → Option A → Result ServiceError A
get_row none = err does_not_exist
get_row (some a) = ok a

unfoldable pub slot_row : Db → ℕ → Option ActivityScheduleSlot
slot_row db id = find? (λ s. s.id == id) db.slots

unfoldable pub schedule_row : Db → ℕ → Option ActivitySchedule
schedule_row db id = find? (λ s. s.id == id) db.schedules

unfoldable pub activity_row : Db → ℕ → Option TourActivity
activity_row db id = find? (λ a. a.id == id) db.activities

-- `value or None`
abbrev pub text_or_null : Option String → Value
text_or_null none = null
text_or_null (some s) = if has_text s then text s else null

abbrev pub optional_time : Option ℕ → Value
optional_time none = null
optional_time (some t) = time t

abbrev pub direct_provider : ℕ → Provider
direct_provider id = record { id = id; code = "direct"; name = "Direct"; parser_key = "direct" }

-- `Provider.objects.get_or_create(code="direct", …)`
unfoldable pub direct_or_new : Db → Option Provider → Provider × Db
direct_or_new db (some p) = (p, db)
direct_or_new db none =
    let p = direct_provider db.next_id in
    (p, record db { providers = db.providers ++ p ∷ []; next_id = db.next_id + 1 })

unfoldable pub get_or_create_direct : Db → Provider × Db
unfolding direct_or_new
get_or_create_direct db = direct_or_new db (find? (λ p. str_eq p.code "direct") db.providers)

unfoldable pub internal_values : Request → ActivityScheduleSlot → TourActivity → ℕ → Values
internal_values r slot activity travelers =
    ("status", status confirmed)
    ∷ ("activity", ref activity.id)
    ∷ ("schedule_slot", ref slot.id)
    ∷ ("raw_product_name", text activity.name)
    ∷ ("provider_travel_date", date r.service_date)
    ∷ ("provider_start_time", time slot.start_time)
    ∷ ("provider_end_time", optional_time slot.end_time)
    ∷ ("provider_slot_type", Value.slot_type slot.slot_type)
    ∷ ("active_travel_date", date r.service_date)
    ∷ ("active_start_time", time slot.start_time)
    ∷ ("active_end_time", optional_time slot.end_time)
    ∷ ("active_slot_type", Value.slot_type slot.slot_type)
    ∷ ("provider_traveler_count", num travelers)
    ∷ ("active_traveler_count", num travelers)
    ∷ (
      "lead_traveler_name",
      text (if has_text r.lead_traveler_name then r.lead_traveler_name else "New customer"),
    )
    ∷ ("lead_traveler_email", text_or_null r.lead_traveler_email)
    ∷ ("lead_traveler_phone", text_or_null r.lead_traveler_phone)
    ∷ ("special_requirements", text_or_null r.special_requirements)
    ∷ ("customer_message", text_or_null r.customer_message)
    ∷ []

unfoldable pub internal_booking :
    Request → ActivityScheduleSlot → TourActivity → ℕ → ℕ → ℕ → Booking
unfolding internal_values new_booking set_columns
internal_booking r slot activity travelers id provider =
    set_columns (new_booking id provider r.reference) (internal_values r slot activity travelers)

abbrev pub overbooked_key : ℕ → Key
overbooked_key id = record { raw_email = none; booking = some id; issue_type = capacity_overbooked }

-- `if projected_remaining < 0: …`
unfoldable pub review_overbooking : Db → ℕ → ℤ → String → Result ServiceError Db
unfolding create_review_item
review_overbooking db id projected reason =
    if is_negative projected
    then create_review_item db (overbooked_key id) "Capacity overbooked"
        (internal_overbooked (abs projected) reason)
    else ok db

unfoldable pub internal_event : Request → ℕ → ℕ → ℤ → BookingEvent
internal_event r id travelers projected = record {
  booking = some id;
  event_type = email_new_booking;
  source = manual;
  old_values = [];
  new_values =
      ("reference", value (text r.reference))
      ∷ ("traveler_count", value (num travelers))
      ∷ (if is_negative projected
          then ("capacity_override_reason", value (text r.override_reason)) ∷ []
          else []);
  raw_email = none;
  created_by = r.user;
}

abbrev pub travelers_of : Request → ℕ
travelers_of r = pos_part r.traveler_count

unfoldable pub projected_remaining : Db → Request → ActivityScheduleSlot → ℤ
unfolding get_capacity_for_slot_date ◌-ℤ◌
projected_remaining db r slot =
    (get_capacity_for_slot_date db slot r.service_date).remaining -ℤ pos (travelers_of r)

-- The three refusals, in order.
unfoldable pub check_request : Db → Request → ActivityScheduleSlot → Result ServiceError (Unit {0})
unfolding projected_remaining
check_request db r slot = do
  raise_if (r.allow_overcapacity && not r.admin)
      (capacity_exceeded "Only admins can override slot capacity.")
  raise_if (r.allow_overcapacity && not (has_text r.override_reason))
      (capacity_exceeded "A capacity override reason is required.")
  raise_if (is_negative (projected_remaining db r slot) && not r.allow_overcapacity)
      (capacity_exceeded "This booking would exceed the slot capacity.")

-- What follows the refusals, in the slot's activity.
unfoldable pub book_slot :
    Db → Request → ActivityScheduleSlot → TourActivity → Result ServiceError (Booking × Db)
unfolding projected_remaining get_or_create_direct internal_booking create_row review_overbooking
    internal_event
book_slot db r slot activity = do
  let travelers = travelers_of r
  let projected = projected_remaining db r slot
  let (provider, db1) = get_or_create_direct db
  let b = internal_booking r slot activity travelers db1.next_id provider.id
  db2 ← create_row db1 b
  db3 ← review_overbooking db2 b.id projected r.override_reason
  ok (b, record db3 { events = db3.events ++ internal_event r b.id travelers projected ∷ [] })

unfoldable pub create_internal_booking : Db → Request → Result ServiceError (Booking × Db)
unfolding slot_row check_request schedule_row activity_row book_slot
create_internal_booking db r = do
  slot ← get_row (slot_row db r.schedule_slot)
  check_request db r slot
  schedule ← get_row (schedule_row db slot.schedule)
  activity ← get_row (activity_row db schedule.activity)
  book_slot db r slot activity
