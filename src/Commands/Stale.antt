-- ===== src/Commands/Stale.antt =====
-- apps/ingestion/management/commands/resolve_stale_booking_reviews.py: emails that prove to be no
-- bookings are ignored, and open reviews that no longer stand are closed.
pub mod Same
pub mod Handle
pub mod Sweep
pub mod Latest
pub mod Over
pub mod Looped
pub mod Swept
use Prim.Native.String.{◌++◌ as join}
use ticketmirror.Base.{
  ℕ, zero, suc, ◌+◌, String, Bool, true, false, not, ◌&&◌, ◌||◌, Option, none, some, List, [], ◌∷◌,
  ◌++◌, ◌==◌, str_eq, leb, if◌then◌else◌, filter, find?, any, map, take, length,
}
use ticketmirror.Base.Int.{ℤ, pos_part}
use ticketmirror.Base.Order.{lex}
use ticketmirror.Base.Result.{Result, ok, err, ◌>>=◌}
use ticketmirror.Base.Sort.{sort}
use ticketmirror.Data.{
  Db, Booking, Status, cancelled, rejected, duplicate_ignored, status, text, RawEmail, ignored,
  BookingEvent, conflict_detected, system, value, flag, ReviewQueueItem, resolved, is_open, opt_eq,
}
use ticketmirror.Bookings.Capacity.{status_in}
use ticketmirror.Bookings.Errors.{ServiceError}
use ticketmirror.Bookings.Internal.{get_row}
use ticketmirror.Bookings.Overrides.{set_column}
use ticketmirror.Bookings.Reviews.{has_text, review_issue_is_obsolete_for_context}
use ticketmirror.Ingestion.Environment.{Environment}
use ticketmirror.Ingestion.Followup.{row_of_booking, row_of_email}
use ticketmirror.Ingestion.Process.{Reading}

-- What `_reclassify_non_booking_email` returns.
pub record Reclassified : Type 0 where
  pub ignored : Bool
  pub resolved_reviews : ℕ
  pub cancelled_bookings : ℕ

abbrev pub not_ignored : Reclassified
not_ignored = record { ignored = false; resolved_reviews = 0; cancelled_bookings = 0 }

abbrev pub marked_ignored : RawEmail → String → RawEmail
marked_ignored raw reason = record raw {
  parse_status = ignored;
  parse_error = some (join "Ignored - not a booking: " (join reason "."));
}

-- `raw_email.save(update_fields=["parse_status", "parse_error", "updated_at"])`
unfoldable pub save_status : Db → RawEmail → Db
save_status db raw = record db {
  raw_emails = map (λ row. if row.id == raw.id then raw else row) db.raw_emails;
}

abbrev pub is_open_of : RawEmail → ReviewQueueItem → Bool
is_open_of raw r = opt_eq r.raw_email (some raw.id) && is_open r.status

abbrev pub closed : ℕ → ReviewQueueItem → ReviewQueueItem
closed now r = record r { status = resolved; resolved_at = some now }

unfoldable pub close_reviews : Db → RawEmail → ℕ → Db
close_reviews db raw now = record db {
  reviews = map (λ r. if is_open_of raw r then closed now r else r) db.reviews;
}

abbrev pub is_over : Status → Bool
is_over cancelled = true
is_over rejected = true
is_over duplicate_ignored = true
is_over _ = false

-- `raw_email.gmail_thread_id and booking.source_thread_id and … != …`
abbrev pub differs : Option String → Option String → Bool
differs (some mine) (some theirs) =
    if has_text mine then (if has_text theirs then not (str_eq theirs mine) else false) else false
differs _ _ = false

-- `booking.events.exclude(raw_email=raw_email).exists()`
unfoldable pub has_event_elsewhere : Db → Booking → RawEmail → Bool
has_event_elsewhere db b raw =
    any (λ e. opt_eq e.booking (some b.id) && not (opt_eq e.raw_email (some raw.id))) db.events

unfoldable pub safe_to_cancel_non_booking : Db → Booking → RawEmail → Bool
unfolding status_in has_event_elsewhere
safe_to_cancel_non_booking db b raw =
    if status_in is_over b
    then false
    else if has_event_elsewhere db b raw
    then false
    else not (differs raw.gmail_thread_id b.source_thread_id)

unfoldable pub cancel_non_booking : Db → Booking → RawEmail → String → Db
unfolding set_column
cancel_non_booking db b raw reason = record db {
  bookings =
      map (λ row. if row.id == b.id then set_column row "status" (status cancelled) else row)
        db.bookings;
  events =
      db.events
      ++ record {
        booking = some b.id;
        event_type = conflict_detected;
        source = system;
        old_values = ("status", b.columns "status") ∷ [];
        new_values =
            ("status", value (status cancelled))
            ∷ ("non_booking_reclassified", flag true)
            ∷ ("reason", value (text reason))
            ∷ [];
        raw_email = some raw.id;
        created_by = none;
      }
        ∷ [];
}

-- The loop, with the number of the bookings that it cancelled.
unfoldable pub cancel_non_bookings : Db → ℕ → List Booking → RawEmail → String → ℕ × Db
unfolding safe_to_cancel_non_booking cancel_non_booking
cancel_non_bookings db n [] raw reason = (n, db)
cancel_non_bookings db n (b ∷ bs) raw reason =
    let skipped = cancel_non_bookings db n bs raw reason in
    let done = cancel_non_bookings (cancel_non_booking db b raw reason) (n + 1) bs raw reason in
    if safe_to_cancel_non_booking db b raw then done else skipped

unfoldable pub bookings_with_event : Db → RawEmail → List Booking
bookings_with_event db raw =
    filter
      (λ b. any (λ e. opt_eq e.booking (some b.id) && opt_eq e.raw_email (some raw.id)) db.events)
      db.bookings

unfoldable pub ignore_row : Environment → Db → RawEmail → String → Reclassified × Db
unfolding save_status close_reviews cancel_non_bookings bookings_with_event
ignore_row env db raw reason =
    let marked = marked_ignored raw reason in
    let saved = save_status db marked in
    let swept = close_reviews saved marked env.now in
    let out = cancel_non_bookings swept 0 (bookings_with_event swept marked) marked reason in
    (
      record {
        ignored = true;
        resolved_reviews = length (filter (is_open_of marked) saved.reviews);
        cancelled_bookings = out.0;
      },
      out.1,
    )

unfoldable pub reclassify_row : Environment → Reading → Db → RawEmail → Reclassified × Db
unfolding ignore_row
reclassify_row env reading db raw =
    let reason = reading.ignore_reason (reading.translated raw) in
    if has_text reason then ignore_row env db raw reason else (not_ignored, db)

-- `_reclassify_non_booking_email`
unfoldable pub reclassify_non_booking_email :
    Environment → Reading → Db → ℕ → Result ServiceError (Reclassified × Db)
unfolding reclassify_row
reclassify_non_booking_email env reading db id = do
  raw ← get_row (find? (λ r. r.id == id) db.raw_emails)
  ok (reclassify_row env reading db raw)
