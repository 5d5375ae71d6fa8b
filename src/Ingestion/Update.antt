-- ===== src/Ingestion/Update.antt =====
-- `_update_booking`: a provider email is merged into a known booking.
pub mod Loops
pub mod Guarded
pub mod Conflicts
pub mod Outcome
pub mod Cancelled
pub mod Given
pub mod Active
use text.Mathlib.Text.{starts_with}
use ticketmirror.Base.{
  ℕ, ◌+◌, String, Bool, true, false, not, ◌&&◌, ◌||◌, Option, none, some, List, [], ◌∷◌, ◌++◌, ◌==◌,
  str_eq, if◌then◌else◌, map, is_some, or_else,
}
use ticketmirror.Base.Result.{Result, ok, err, ◌>>=◌}
use ticketmirror.Data.{
  Db, Booking, Value, status, cancelled, value_eq, is_empty, ProviderAlias, RawEmail, BookingEvent,
  EventType, email_update, email_cancellation, email_new_booking, email_booking_request,
  conflict_detected, Source, email, system, Entry, value, values, conflicts, Conflict,
  manual_override_conflict, conflict_details,
}
use ticketmirror.Bookings.Errors.{ServiceError}
use ticketmirror.Bookings.Queue.{create_review_item}
use ticketmirror.Bookings.Overrides.{
  Values, Diff, diff_field_values, is_manually_overridden, set_column,
  active_updates_from_provider_values, provider_update_conflicts,
}
use ticketmirror.Ingestion.Parsed.{ParsedBooking, provider_values_from_parsed, payload}
use ticketmirror.Ingestion.Slots.{alias_values, put}

abbrev pub is_cancelled_value : Value → Bool
is_cancelled_value v = value_eq v (status cancelled)

unfoldable pub preserve_cancelled_status : Booking → String → Value → Bool
preserve_cancelled_status b field_name new =
    str_eq field_name "status"
    && (is_cancelled_value (b.columns "status") && not (is_cancelled_value new))

unfoldable pub skip_empty_provider_update : String → Value → Value → Bool
skip_empty_provider_update field_name old new =
    if str_eq field_name "status" then false else if is_empty old then false else is_empty new

-- The `continue` tests of the three loops.
unfoldable pub skips_provider : Booking → Diff → Bool
unfolding preserve_cancelled_status is_manually_overridden skip_empty_provider_update
skips_provider b d =
    preserve_cancelled_status b d.field_name d.new
    || ((str_eq d.field_name "status" && is_manually_overridden b "status")
        || skip_empty_provider_update d.field_name d.old d.new)

unfoldable pub skips_active : Booking → Diff → Bool
unfolding preserve_cancelled_status
skips_active b d = preserve_cancelled_status b d.field_name d.new

unfoldable pub skips_alias : Booking → Diff → Bool
unfolding is_manually_overridden
skips_alias b d =
    (str_eq d.field_name "schedule_slot" && is_manually_overridden b d.field_name)
    || (starts_with d.field_name "active_" && is_manually_overridden b d.field_name)

-- The booking and the two dictionaries that the loops fill.
pub record Merge : Type 0 where
  pub booking : Booking
  pub old_values : Values
  pub new_values : Values

unfoldable pub merge_diff : (Booking → Diff → Bool) → Merge → Diff → Merge
unfolding set_column
merge_diff skips m d = if skips m.booking d then m else record {
  booking = set_column m.booking d.field_name d.new;
  old_values = put d.field_name d.old m.old_values;
  new_values = put d.field_name d.new m.new_values;
}

unfoldable pub merge_diffs : (Booking → Diff → Bool) → Merge → List Diff → Merge
unfolding merge_diff
merge_diffs skips m [] = m
merge_diffs skips m (d ∷ ds) = merge_diffs skips (merge_diff skips m d) ds

-- The three loops: provider fields, active fields, alias fields.
unfoldable pub merge_provider : Booking → Values → Merge
unfolding merge_diffs diff_field_values skips_provider
merge_provider b provided =
    merge_diffs skips_provider (record { booking = b; old_values = []; new_values = [] })
      (diff_field_values b provided)

unfoldable pub merge_active : Merge → Values → Merge
unfolding merge_diffs diff_field_values active_updates_from_provider_values skips_active
merge_active m provided =
    merge_diffs skips_active m
      (diff_field_values m.booking (active_updates_from_provider_values m.booking provided))

unfoldable pub merge_alias : Merge → Values → Merge
unfolding merge_diffs diff_field_values skips_alias
merge_alias m aliased = merge_diffs skips_alias m (diff_field_values m.booking aliased)

unfoldable pub merge_values : Booking → Values → Values → Merge
unfolding merge_provider merge_active merge_alias
merge_values b provided aliased =
    merge_alias (merge_active (merge_provider b provided) provided) aliased

-- `if raw_email.gmail_thread_id: booking.source_thread_id = …`
abbrev pub thread_or : Option String → Option String → Option String
thread_or none old = old
thread_or (some thread) old = if str_eq thread "" then old else some thread

unfoldable pub touch_thread : Booking → RawEmail → Booking
touch_thread b raw = record b {
  last_email_received_at = some raw.received_at;
  source_thread_id = thread_or raw.gmail_thread_id b.source_thread_id;
}

-- `booking.save()`
unfoldable pub save_booking : Db → Booking → Db
save_booking db b = record db {
  bookings = map (λ row. if row.id == b.id then b else row) db.bookings;
}

abbrev pub event_source : EventType → Source
event_source email_new_booking = email
event_source email_booking_request = email
event_source email_update = email
event_source email_cancellation = email
event_source _ = system

-- `_create_booking_event`
unfoldable pub create_booking_event :
    Db → Booking → RawEmail → EventType → Values → List (String × Entry) → Db
create_booking_event db b raw type old new = record db {
  events =
      db.events
      ++ record {
        booking = some b.id;
        event_type = type;
        source = event_source type;
        old_values = old;
        new_values = new;
        raw_email = some raw.id;
        created_by = none;
      }
        ∷ [];
}

-- `if conflicts: …`
unfoldable pub report_conflicts :
    Db → Booking → RawEmail → List (String × Conflict) → Result ServiceError Db
unfolding create_review_item create_booking_event
report_conflicts db b raw [] = ok db
report_conflicts db b raw (c ∷ cs) = do
  db' ←
      create_review_item db
        (record {
          raw_email = some raw.id;
          booking = some b.id;
          issue_type = manual_override_conflict;
        })
        "Provider update conflicts with manual override" (conflict_details (c ∷ cs))
  ok (
      create_booking_event db' b raw conflict_detected []
        (("manual_override_conflicts", conflicts (c ∷ cs)) ∷ []))

abbrev pub update_event_type : EventType → EventType
update_event_type email_cancellation = email_cancellation
update_event_type _ = email_update

unfoldable pub update_booking :
    Db
    → Booking
    → RawEmail
    → ParsedBooking
    → Option ProviderAlias
    → Result ServiceError (Booking × Db)
unfolding provider_values_from_parsed alias_values merge_values touch_thread save_booking
    report_conflicts provider_update_conflicts create_booking_event payload
update_booking db b raw p alias = do
  let provided = provider_values_from_parsed p
  let m = merge_values b provided (alias_values db alias p)
  let c = touch_thread m.booking raw
  db' ← report_conflicts (save_booking db c) c raw (provider_update_conflicts c provided)
  ok (
    c,
    create_booking_event db' c raw (update_event_type p.event_type) m.old_values
        (payload p ++ ("changed_values", values m.new_values) ∷ []),
  )
