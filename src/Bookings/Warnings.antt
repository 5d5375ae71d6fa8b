-- ===== src/Bookings/Warnings.antt =====
-- `create_capacity_overbooked_review_item` and `warn_if_capacity_overbooked` of
-- apps/bookings/services.py.
pub mod Reported
use ticketmirror.Base.{
  ℕ, ◌+◌, String, Bool, true, false, not, ◌&&◌, Option, none, some, List, [], ◌∷◌, ◌++◌, ◌==◌,
  if◌then◌else◌, any, find?,
}
use ticketmirror.Base.Int.{ℤ, is_negative}
use ticketmirror.Base.Result.{Result, ok, err, ◌>>=◌}
use ticketmirror.Data.{
  Db, Booking, as_ref, as_date, ActivityScheduleSlot, capacity_overbooked, issue_eq, is_open,
  Details, overbooked_details, conflict_detected, system, Entry, value, integer, num, text, opt_eq,
  BookingEvent,
}
use ticketmirror.Bookings.Errors.{ServiceError}
use ticketmirror.Bookings.Capacity.{Snapshot, get_capacity_for_slot_date, is_review_of}
use ticketmirror.Bookings.Queue.{Key, create_review_item}
use ticketmirror.Bookings.Internal.{slot_row}

abbrev pub warning_key : Booking → Option ℕ → Key
warning_key b raw = record {
  raw_email = raw;
  booking = some b.id;
  issue_type = capacity_overbooked;
}

-- `booking.schedule_slot` and `booking.active_travel_date`, where it has both. (A foreign key has its
-- row.)
abbrev pub both : {A B : Type 0} → Option A → Option B → Option (A × B)
both (some a) (some b) = some (a, b)
both _ _ = none

abbrev pub slot_of_ref : Db → Option ℕ → Option ActivityScheduleSlot
unfolding slot_row
slot_of_ref db none = none
slot_of_ref db (some id) = slot_row db id

unfoldable pub place_of : Db → Booking → Option (ActivityScheduleSlot × ℕ)
unfolding slot_of_ref
place_of db b =
    both (slot_of_ref db (as_ref (b.columns "schedule_slot")))
      (as_date (b.columns "active_travel_date"))

abbrev pub details_of : Booking → Snapshot → Details
details_of b s = overbooked_details b.id s.active_pax s.capacity

unfoldable pub has_open_warning : Db → Booking → Bool
has_open_warning db b =
    any (λ r. is_review_of b r && (issue_eq r.issue_type capacity_overbooked && is_open r.status))
      db.reviews

-- The event that the first warning leaves.
unfoldable pub warning_event : Booking → Option ℕ → Snapshot → BookingEvent
warning_event b raw s = record {
  booking = some b.id;
  event_type = conflict_detected;
  source = system;
  old_values = [];
  new_values =
      ("issue_type", value (text "capacity_overbooked"))
      ∷ ("remaining", integer s.remaining)
      ∷ ("capacity", value (num s.capacity))
      ∷ ("active_pax", value (num s.active_pax))
      ∷ [];
  raw_email = raw;
  created_by = none;
}

unfoldable pub add_warning_event : Db → Bool → BookingEvent → Db
add_warning_event db had_open_review e =
    if had_open_review then db else record db { events = db.events ++ e ∷ [] }

unfoldable pub add_warning : Db → Booking → Option ℕ → Snapshot → Result ServiceError (Bool × Db)
unfolding create_review_item has_open_warning warning_event add_warning_event
add_warning db b raw s = do
  db' ← create_review_item db (warning_key b raw) "Capacity overbooked" (details_of b s)
  ok (true, add_warning_event db' (has_open_warning db b) (warning_event b raw s))

unfoldable pub warn_if_negative :
    Db → Booking → Option ℕ → Snapshot → Result ServiceError (Bool × Db)
unfolding add_warning
warn_if_negative db b raw s =
    if is_negative s.remaining then add_warning db b raw s else ok (false, db)

unfoldable pub warn_at :
    Db → Booking → Option ℕ → Option (ActivityScheduleSlot × ℕ) → Result ServiceError (Bool × Db)
unfolding warn_if_negative get_capacity_for_slot_date
warn_at db b raw none = ok (false, db)
warn_at db b raw (some (slot, service_date)) =
    warn_if_negative db b raw (get_capacity_for_slot_date db slot service_date)

unfoldable pub warn_if_capacity_overbooked :
    Db → Booking → Option ℕ → Result ServiceError (Bool × Db)
unfolding warn_at place_of
warn_if_capacity_overbooked db b raw = warn_at db b raw (place_of db b)
