-- ===== src/Commands/Reslot.antt =====
-- apps/bookings/management/commands/reslot_bookings.py: the schedule slots of bookings are resolved
-- again from their date, time and activity.
pub mod Stable
pub mod Handle
pub mod Handled
use Prim.Native.String.{◌++◌ as join}
use ticketmirror.Base.{
  ℕ, zero, suc, ◌+◌, String, Bool, true, false, not, ◌&&◌, ◌||◌, Option, none, some, List, [], ◌∷◌,
  ◌++◌, ◌==◌, leb, if◌then◌else◌, filter, find?, map, take,
}
use ticketmirror.Base.Int.{ℤ, pos_part}
use ticketmirror.Base.Order.{lex}
use ticketmirror.Base.Result.{Result, ok, err, ◌>>=◌}
use ticketmirror.Base.Sort.{sort}
use ticketmirror.Data.{
  Db, Booking, Value, null, time, slot_type, ref, text, SlotType, as_ref, as_date, as_time,
  as_slot_type, ActivityScheduleSlot, BookingEvent, email_update, system, value, time_missing,
  fixed, opt_eq,
}
use ticketmirror.Bookings.Errors.{ServiceError}
use ticketmirror.Bookings.Capacity.{status_in, is_excluded_capacity}
use ticketmirror.Bookings.Labels.{hours_minutes}
use ticketmirror.Bookings.Overrides.{is_manually_overridden, set_column}
use ticketmirror.Bookings.Queue.{Key, create_review_item}
use ticketmirror.Bookings.Schedules.{ScheduleSlotResolution, resolve_schedule_slot_details}
use ticketmirror.Bookings.Warnings.{slot_of_ref}
use ticketmirror.Bookings.Internal.{slot_row}

pub data Outcome : Type 0 where
  reslotted unchanged no_match skipped_manual : Outcome

-- The outcome, the booking and the database.
pub record Reslotted : Type 0 where
  pub outcome : Outcome
  pub booking : Booking
  pub db : Db

abbrev pub time_text : Option ℕ → String
unfolding hours_minutes
time_text none = ""
time_text (some t) = hours_minutes t

abbrev pub confirmation_key : Booking → Key
confirmation_key b = record { raw_email = none; booking = some b.id; issue_type = time_missing }

-- `_create_slot_confirmation_review`
unfoldable pub create_slot_confirmation_review : Db → Booking → Result ServiceError Db
unfolding create_review_item hours_minutes
create_slot_confirmation_review db b =
    create_review_item db (confirmation_key b) "Schedule slot needs confirmation" (
      fixed (
        join "Active start time " (
          join (time_text (as_time (b.columns "active_start_time")))
            " did not match an active schedule slot for this activity/date. The current schedule slot was kept for now.")))

unfoldable pub resolution_of : Db → Booking → ScheduleSlotResolution
unfolding resolve_schedule_slot_details slot_row
resolution_of db b =
    resolve_schedule_slot_details db (as_ref (b.columns "activity"))
      (as_date (b.columns "active_travel_date")) (as_time (b.columns "active_start_time"))
      (as_slot_type (b.columns "active_slot_type"))
      (slot_of_ref db (as_ref (b.columns "schedule_slot")))

unfoldable pub keep_slot : Db → Booking → Bool → Result ServiceError Reslotted
unfolding create_slot_confirmation_review
keep_slot db b true = ok (record { outcome = no_match; booking = b; db = db })
keep_slot db b false = do
  db' ← create_slot_confirmation_review db b
  ok (record { outcome = no_match; booking = b; db = db' })

-- The event has the slots by their ids; the source adds the names of their activities and times.
abbrev pub reslot_event : Booking → ActivityScheduleSlot → BookingEvent
reslot_event b slot = record {
  booking = some b.id;
  event_type = email_update;
  source = system;
  old_values = ("schedule_slot", b.columns "schedule_slot") ∷ [];
  new_values =
      ("schedule_slot", value (ref slot.id)) ∷ ("repair", value (text "reslot_bookings")) ∷ [];
  raw_email = none;
  created_by = none;
}

-- `booking.save(update_fields=["schedule_slot"])`
unfoldable pub save_slot : ℕ → ActivityScheduleSlot → Booking → Booking
unfolding set_column
save_slot id slot row = if row.id == id then set_column row "schedule_slot" (ref slot.id) else row

unfoldable pub move_slot : Db → Booking → ActivityScheduleSlot → Reslotted
unfolding save_slot set_column
move_slot db b slot = record {
  outcome = reslotted;
  booking = set_column b "schedule_slot" (ref slot.id);
  db = record db {
    bookings = map (save_slot b.id slot) db.bookings;
    events = db.events ++ reslot_event b slot ∷ [];
  };
}

abbrev pub outcome_only : Outcome → Booking → Db → Result ServiceError Reslotted
outcome_only kind b db = ok (record { outcome = kind; booking = b; db = db })

unfoldable pub place_booking :
    Db → Booking → Bool → Bool → Option ActivityScheduleSlot → Result ServiceError Reslotted
unfolding keep_slot move_slot
place_booking db b dry_run missed none = keep_slot db b dry_run
place_booking db b dry_run missed (some slot) =
    if missed
    then keep_slot db b dry_run
    else if opt_eq (some slot.id) (as_ref (b.columns "schedule_slot"))
    then outcome_only unchanged b db
    else if dry_run
    then outcome_only reslotted b db
    else ok (move_slot db b slot)

unfoldable pub reslot_booking : Db → Booking → Bool → Result ServiceError Reslotted
unfolding is_manually_overridden resolution_of place_booking
reslot_booking db b dry_run =
    if is_manually_overridden b "schedule_slot"
    then outcome_only skipped_manual b db
    else place_booking db b dry_run (resolution_of db b).no_match_for_time (resolution_of db b).slot
