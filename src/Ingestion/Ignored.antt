-- ===== src/Ingestion/Ignored.antt =====
-- `mark_raw_email_ignored`: an email that proves to be no booking closes its reviews and cancels the
-- bookings that only it made.
pub mod Hits
pub mod Sole
pub mod Cancelling
use Prim.Native.String.{◌++◌ as join}
use ticketmirror.Base.{
  ℕ, String, Bool, true, false, not, ◌&&◌, ◌||◌, Option, none, some, List, [], ◌∷◌, ◌++◌, ◌==◌,
  str_eq, if◌then◌else◌, filter, any, map,
}
use ticketmirror.Data.{
  Db, Booking, Value, text, status, Status, cancelled, rejected, duplicate_ignored, RawEmail,
  ignored, opt_eq, BookingEvent, conflict_detected, value, flag,
}
use ticketmirror.Bookings.Overrides.{set_column}
use ticketmirror.Bookings.Capacity.{status_in}
use ticketmirror.Bookings.Queue.{resolve_items}
use ticketmirror.Bookings.Reviews.{has_text}
use ticketmirror.Ingestion.Environment.{Environment}
use ticketmirror.Ingestion.Update.{create_booking_event}

-- `raw_email.save(…)`
unfoldable pub save_raw_email : Db → RawEmail → Db
save_raw_email db raw = record db {
  raw_emails = map (λ row. if row.id == raw.id then raw else row) db.raw_emails;
}

abbrev pub is_settled : Status → Bool
is_settled cancelled = true
is_settled rejected = true
is_settled duplicate_ignored = true
is_settled _ = false

unfoldable pub is_event_of : Booking → BookingEvent → Bool
is_event_of b e = opt_eq e.booking (some b.id)

-- `booking.events.exclude(raw_email=raw_email).exists()`: an event without an email is another one.
unfoldable pub has_other_events : Db → Booking → RawEmail → Bool
unfolding is_event_of
has_other_events db b raw =
    any (λ e. is_event_of b e && not (opt_eq e.raw_email (some raw.id))) db.events

abbrev pub other_thread : Option String → Option String → Bool
other_thread (some mine) (some theirs) =
    has_text mine && (has_text theirs && not (str_eq theirs mine))
other_thread _ _ = false

unfoldable pub safe_to_cancel_ignored_raw_email_booking : Db → Booking → RawEmail → Bool
unfolding status_in has_other_events
safe_to_cancel_ignored_raw_email_booking db b raw =
    if status_in is_settled b
    then false
    else if has_other_events db b raw
    then false
    else not (other_thread raw.gmail_thread_id b.source_thread_id)

-- `booking.save(update_fields=["status", "updated_at"])`
unfoldable pub cancel_row : ℕ → Booking → Booking
unfolding set_column
cancel_row id row = if row.id == id then set_column row "status" (status cancelled) else row

unfoldable pub cancel_false_booking : Db → Booking → RawEmail → String → Db
unfolding cancel_row set_column create_booking_event
cancel_false_booking db b raw reason =
    create_booking_event (record db { bookings = map (cancel_row b.id) db.bookings })
      (set_column b "status" (status cancelled)) raw conflict_detected
      (("status", b.columns "status") ∷ [])
      (("status", value (status cancelled))
        ∷ ("non_booking_reclassified", flag true)
        ∷ ("reason", value (text reason))
        ∷ [])

-- The loop, over the rows as they were when the query ran.
unfoldable pub cancel_each : Db → List Booking → RawEmail → String → Db
unfolding safe_to_cancel_ignored_raw_email_booking cancel_false_booking
cancel_each db [] raw reason = db
cancel_each db (b ∷ bs) raw reason =
    let skipped = cancel_each db bs raw reason in
    let changed = cancel_each (cancel_false_booking db b raw reason) bs raw reason in
    if safe_to_cancel_ignored_raw_email_booking db b raw then changed else skipped

-- `id__in` the bookings of the email's events
unfoldable pub bookings_of_email : Db → RawEmail → List Booking
unfolding is_event_of
bookings_of_email db raw =
    filter (λ b. any (λ e. is_event_of b e && opt_eq e.raw_email (some raw.id)) db.events)
      db.bookings

unfoldable pub cancel_false_bookings_for_ignored_raw_email : Db → RawEmail → String → Db
unfolding cancel_each bookings_of_email
cancel_false_bookings_for_ignored_raw_email db raw reason =
    cancel_each db (bookings_of_email db raw) raw reason

unfoldable pub resolve_reviews_for_ignored_raw_email : Environment → Db → RawEmail → Db
unfolding resolve_items
resolve_reviews_for_ignored_raw_email env db raw =
    resolve_items db (λ r. opt_eq r.raw_email (some raw.id)) env.now

abbrev pub as_ignored : RawEmail → String → RawEmail
as_ignored raw reason = record raw {
  parse_status = ignored;
  parse_error = some (join "Ignored - not a booking: " (join reason "."));
}

unfoldable pub mark_raw_email_ignored : Environment → Db → RawEmail → String → Db
unfolding save_raw_email resolve_reviews_for_ignored_raw_email
    cancel_false_bookings_for_ignored_raw_email
mark_raw_email_ignored env db raw reason =
    let ignored_raw = as_ignored raw reason in
    cancel_false_bookings_for_ignored_raw_email
      (resolve_reviews_for_ignored_raw_email env (save_raw_email db ignored_raw) ignored_raw)
      ignored_raw reason
