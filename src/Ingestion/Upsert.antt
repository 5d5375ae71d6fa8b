-- ===== src/Ingestion/Upsert.antt =====
-- `upsert_booking_from_parsed`: a parsed email becomes a booking, its reviews and its status.
pub mod Reviewing
pub mod Running
use ticketmirror.Base.{
  ℕ, String, Bool, true, false, not, ◌&&◌, ◌||◌, Option, none, some, List, [], ◌∷◌, ◌++◌,
  if◌then◌else◌,
}
use ticketmirror.Base.Result.{Result, ok, err, ◌>>=◌}
use ticketmirror.Data.{
  Db, Provider, Booking, RawEmail, ParseStatus, parsed, needs_review, reference_missing, fixed,
}
use ticketmirror.Bookings.Errors.{ServiceError}
use ticketmirror.Bookings.Reviews.{has_text}
use ticketmirror.Bookings.Warnings.{warn_if_capacity_overbooked}
use ticketmirror.Ingestion.Environment.{Environment}
use ticketmirror.Ingestion.Parsed.{ParsedBooking}
use ticketmirror.Ingestion.Providers.{get_or_create_provider}
use ticketmirror.Ingestion.Aliases.{ProviderAliasMatch, match_product_alias}
use ticketmirror.Ingestion.Create.{create_booking}
use ticketmirror.Ingestion.Update.{update_booking}
use ticketmirror.Ingestion.Identity.{find_booking_for_parsed, promote_booking_identity_if_needed}
use ticketmirror.Ingestion.Ignored.{save_raw_email}
use ticketmirror.Ingestion.Followup.{
  Concern, create_reviews, completeness_concerns, is_cancellation, low_confidence_concerns,
  stray_cancellation_concerns, slot_concerns, product_concerns, resolve_obsolete_review_items,
  resolve_obsolete_booking_review_items,
}

abbrev pub parser_version : String
parser_version = "deterministic-v1"

-- The booking of the email, made or brought up to date.
unfoldable pub write_booking :
    Db
    → Provider
    → RawEmail
    → ParsedBooking
    → ProviderAliasMatch
    → Option Booking
    → Result ServiceError (Booking × Db)
unfolding create_booking update_booking promote_booking_identity_if_needed
write_booking db provider raw p m none = create_booking db provider raw p m.alias
write_booking db provider raw p m (some b) = do
  promoted ← promote_booking_identity_if_needed db b provider p raw
  update_booking promoted.1 promoted.0 raw p m.alias

abbrev pub is_nonempty : List Concern → Bool
is_nonempty [] = false
is_nonempty (c ∷ cs) = true

abbrev pub concerns_unless : Bool → List Concern → List Concern
concerns_unless true cs = []
concerns_unless false cs = cs

abbrev pub status_if_review : Bool → ParseStatus
status_if_review true = needs_review
status_if_review false = parsed

-- The obsolete reviews are closed, and the email is saved with its status.
unfoldable pub settle : Environment → Db → RawEmail → Booking → Bool → Booking × Db
unfolding resolve_obsolete_review_items resolve_obsolete_booking_review_items save_raw_email
settle env db raw b unsettled =
    let settled = record raw { parse_status = status_if_review unsettled } in
    (
      b,
      save_raw_email
          (resolve_obsolete_booking_review_items env
            (resolve_obsolete_review_items env db settled b) b)
          settled,
    )

-- What follows once the booking is written.
unfoldable pub follow_up :
    Environment
    → Db
    → RawEmail
    → ParsedBooking
    → ProviderAliasMatch
    → Booking
    → Result ServiceError (Booking × Db)
unfolding create_reviews completeness_concerns is_cancellation low_confidence_concerns
    stray_cancellation_concerns slot_concerns product_concerns warn_if_capacity_overbooked settle
follow_up env db raw p m b = do
  let doubts = low_confidence_concerns p b
  db1 ← create_reviews db raw (some b.id) doubts
  db2 ← create_reviews db1 raw (some b.id) (stray_cancellation_concerns db1 raw p b)
  let missing = concerns_unless (is_cancellation p b) (completeness_concerns db2 raw b)
  db3 ← create_reviews db2 raw (some b.id) missing
  let slots = slot_concerns db3 p b m
  db4 ← create_reviews db3 raw (some b.id) slots
  let products = product_concerns p b m
  db5 ← create_reviews db4 raw (some b.id) products
  warned ← warn_if_capacity_overbooked db5 b (some raw.id)
  ok (
      settle env warned.1 raw b (
        is_nonempty doubts
        || (is_nonempty missing || (is_nonempty products || (is_nonempty slots || warned.0)))))

-- `if not parsed_booking.provider_booking_reference: …`
unfoldable pub refuse_without_reference : Db → RawEmail → Result ServiceError (Option Booking × Db)
unfolding create_reviews save_raw_email
refuse_without_reference db raw = do
  db' ← create_reviews (save_raw_email db (record raw { parse_status = needs_review })) raw none (
      record {
        issue_type = reference_missing;
        title = "Booking reference missing";
        details = fixed "Parser could not find a stable provider booking reference.";
      }
      ∷ [])
  ok (none, db')

unfoldable pub upsert_with_reference :
    Environment
    → Db
    → Provider
    → RawEmail
    → ParsedBooking
    → Result ServiceError (Option Booking × Db)
unfolding match_product_alias find_booking_for_parsed write_booking follow_up
upsert_with_reference env db provider raw p = do
  let m = match_product_alias env db provider.id p
  written ← write_booking db provider raw p m (find_booking_for_parsed env db provider p)
  done ← follow_up env written.1 raw p m written.0
  ok (some done.0, done.1)

unfoldable pub upsert_if :
    Bool
    → Environment
    → Db
    → Provider
    → RawEmail
    → ParsedBooking
    → Result ServiceError (Option Booking × Db)
unfolding refuse_without_reference upsert_with_reference
upsert_if false env db provider raw p = refuse_without_reference db raw
upsert_if true env db provider raw p = upsert_with_reference env db provider raw p

abbrev pub detected : RawEmail → Provider → RawEmail
detected raw provider = record raw {
  provider_detected = some provider.id;
  parser_version = some parser_version;
  parse_error = none;
}

unfoldable pub upsert_booking_from_parsed :
    Environment → Db → RawEmail → ParsedBooking → Result ServiceError (Option Booking × Db)
unfolding get_or_create_provider upsert_if
upsert_booking_from_parsed env db raw p =
    let (provider, db') = get_or_create_provider env db p.provider_code in
    upsert_if (has_text p.provider_booking_reference) env db' provider (detected raw provider) p
