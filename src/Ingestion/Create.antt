-- ===== src/Ingestion/Create.antt =====
-- `_create_booking`: the first email of a booking.
pub mod Created
use ticketmirror.Base.{
  ℕ, String, Bool, true, false, Option, none, some, List, [], ◌∷◌, ◌++◌, or_else,
}
use ticketmirror.Base.Result.{Result, ok, err, ◌>>=◌}
use ticketmirror.Base.Names.{lookup}
use ticketmirror.Data.{
  Db, Provider, Booking, Value, ref, ProviderAlias, RawEmail, ActivityScheduleSlot, Entry, values,
}
use ticketmirror.Bookings.Errors.{ServiceError}
use ticketmirror.Bookings.Overrides.{Values}
use ticketmirror.Bookings.Rows.{new_booking, set_columns, create_row}
use ticketmirror.Ingestion.Parsed.{ParsedBooking, provider_values_from_parsed, payload}
use ticketmirror.Ingestion.Slots.{
  slot_for_parsed_time, opt_slot, put, value_or_null, apply_alias_slot_values,
}
use ticketmirror.Ingestion.Update.{create_booking_event}

abbrev pub pick : String → Values → Value
pick name provided = value_or_null (lookup name provided)

unfoldable pub starting_active_values : Values → Values
starting_active_values provided =
    ("active_travel_date", pick "provider_travel_date" provided)
    ∷ ("active_start_time", pick "provider_start_time" provided)
    ∷ ("active_end_time", pick "provider_end_time" provided)
    ∷ ("active_slot_type", pick "provider_slot_type" provided)
    ∷ ("active_traveler_count", pick "provider_traveler_count" provided)
    ∷ []

-- `**values, **active_values`, after the alias.
unfoldable pub starting_values : Db → Values → Option ProviderAlias → ParsedBooking → Values
unfolding starting_active_values slot_for_parsed_time apply_alias_slot_values
starting_values db provided none p = provided ++ starting_active_values provided
starting_values db provided (some a) p =
    let slot = slot_for_parsed_time db a p in
    put "schedule_slot" (opt_slot slot) (put "activity" (ref a.linked_activity) provided)
    ++ apply_alias_slot_values (starting_active_values provided) a slot

unfoldable pub starting_booking :
    Db → Provider → RawEmail → ParsedBooking → Option ProviderAlias → Booking
unfolding starting_values new_booking set_columns provider_values_from_parsed
starting_booking db provider raw p alias =
    record (set_columns (new_booking db.next_id provider.id p.provider_booking_reference)
      (starting_values db (provider_values_from_parsed p) alias p)) {
        source_thread_id = raw.gmail_thread_id;
        last_email_received_at = some raw.received_at;
      }

unfoldable pub create_booking :
    Db
    → Provider
    → RawEmail
    → ParsedBooking
    → Option ProviderAlias
    → Result ServiceError (Booking × Db)
unfolding starting_booking create_row create_booking_event payload provider_values_from_parsed
create_booking db provider raw p alias = do
  let b = starting_booking db provider raw p alias
  db' ← create_row db b
  ok (
    b,
    create_booking_event db' b raw p.event_type []
        (payload p ++ ("provider_values", values (provider_values_from_parsed p)) ∷ []),
  )
