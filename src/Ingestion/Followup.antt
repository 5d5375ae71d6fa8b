-- ===== src/Ingestion/Followup.antt =====
-- What `upsert_booking_from_parsed` asks people about a booking after an email: the reviews of
-- `_create_completeness_review_items`, `_create_schedule_slot_review_if_needed` and the rest, and the
-- loops that close obsolete ones.
use ticketmirror.Base.{
  ℕ, String, Bool, true, false, not, ◌&&◌, ◌||◌, Option, none, some, List, [], ◌∷◌, ◌++◌, ◌==◌,
  if◌then◌else◌, filter, find?, is_some, ltb, length,
}
use ticketmirror.Base.Result.{Result, ok, ◌>>=◌}
use ticketmirror.Data.{
  Db, Booking, status, cancelled, status_eq, value_eq, truthy, RawEmail, EventType,
  email_cancellation, IssueType, issue_eq, lead_traveler_missing, provider_alias_missing,
  date_missing, time_missing, traveler_count_missing, low_confidence_parse,
  cancellation_without_booking, product_mismatch, Details, fixed, slot_unconfirmed, alias_details,
  warnings_details, opt_eq, text, ProviderAlias,
}
use ticketmirror.Bookings.Errors.{ServiceError}
use ticketmirror.Bookings.Overrides.{is_manually_overridden}
use ticketmirror.Bookings.Queue.{create_review_item, resolve_items}
use ticketmirror.Bookings.Reviews.{
  has_text, is_null, is_day_slot, detected_code, omits_lead_name,
  review_issue_is_obsolete_for_context, slot_confirmation_title,
}
use ticketmirror.Ingestion.Environment.{Environment}
use ticketmirror.Ingestion.Parsed.{ParsedBooking, opt_text, opt_time}
use ticketmirror.Ingestion.Slots.{resolution_for_parsed}
use ticketmirror.Ingestion.Aliases.{ProviderAliasMatch}
use ticketmirror.Ingestion.Ignored.{is_event_of}

-- A review that is to be opened.
pub record Concern : Type 0 where
  pub issue_type : IssueType
  pub title : String
  pub details : Details

-- `_create_review_item`, once for each of them.
unfoldable pub create_reviews : Db → RawEmail → Option ℕ → List Concern → Result ServiceError Db
unfolding create_review_item
create_reviews db raw booking [] = ok db
create_reviews db raw booking (c ∷ cs) = do
  db' ←
      create_review_item db
        (record { raw_email = some raw.id; booking = booking; issue_type = c.issue_type }) c.title
        c.details
  create_reviews db' raw booking cs

abbrev pub concern_if : Bool → IssueType → String → Details → List Concern
concern_if true issue title details =
    record { issue_type = issue; title = title; details = details } ∷ []
concern_if false issue title details = []

unfoldable pub booking_time_missing : Booking → Bool
booking_time_missing b =
    if truthy (b.columns "active_start_time")
    then false
    else not (is_day_slot (b.columns "active_slot_type"))

unfoldable pub provider_omits_field : Db → RawEmail → IssueType → Bool
unfolding detected_code
provider_omits_field db raw issue =
    omits_lead_name (detected_code db (some raw)) && issue_eq issue lead_traveler_missing

-- The checks that fail, in their order.
unfoldable pub failed_checks : Booking → List Concern
unfolding booking_time_missing
failed_checks b =
    concern_if (is_null (b.columns "activity")) provider_alias_missing "Product match missing"
      (fixed "No approved provider alias maps this raw product to a Tour/Activity.")
    ++ concern_if (is_null (b.columns "active_travel_date")) date_missing "Booking date missing"
        (fixed "Parser did not find an operational booking date.")
    ++ concern_if (booking_time_missing b) time_missing "Booking time missing"
        (fixed "Parser did not find a start time or full-day/half-day slot.")
    ++ concern_if (is_null (b.columns "active_traveler_count")) traveler_count_missing
        "Traveler count missing" (fixed "Parser did not find a traveler count.")
    ++ concern_if (not (truthy (b.columns "lead_traveler_name"))) lead_traveler_missing
        "Lead traveler missing" (fixed "Parser did not find a lead traveler name.")

-- `_create_completeness_review_items`: the loop passes over what the provider never sends.
unfoldable pub completeness_concerns : Db → RawEmail → Booking → List Concern
unfolding failed_checks provider_omits_field
completeness_concerns db raw b =
    filter (λ c. not (provider_omits_field db raw c.issue_type)) (failed_checks b)

abbrev pub is_cancellation_event : EventType → Bool
is_cancellation_event email_cancellation = true
is_cancellation_event _ = false

-- `_is_cancellation`
unfoldable pub is_cancellation : ParsedBooking → Booking → Bool
is_cancellation p b =
    is_cancellation_event p.event_type
    || (status_eq p.status cancelled || value_eq (b.columns "status") (status cancelled))

-- `parsed.confidence < LOW_CONFIDENCE_THRESHOLD`, in hundredths
unfoldable pub low_confidence_concerns : ParsedBooking → Booking → List Concern
unfolding is_cancellation
low_confidence_concerns p b =
    concern_if (ltb p.confidence 80 && not (is_cancellation p b)) low_confidence_parse
      "Low confidence parse" (warnings_details p.warnings)

-- A cancellation that is the only event of its email made the booking.
unfoldable pub stray_cancellation_concerns : Db → RawEmail → ParsedBooking → Booking → List Concern
unfolding is_event_of
stray_cancellation_concerns db raw p b =
    concern_if
      (is_cancellation_event p.event_type
        && length (filter (λ e. is_event_of b e && opt_eq e.raw_email (some raw.id)) db.events)
          == 1)
      cancellation_without_booking "Cancellation received before known booking"
      (fixed "A cancellation email created this booking record.")

-- `_create_schedule_slot_review_if_needed`
unfoldable pub slot_unmatched : Db → Option ProviderAlias → ParsedBooking → Bool
unfolding resolution_for_parsed
slot_unmatched db none p = false
slot_unmatched db (some a) p =
    is_some p.start_time && (resolution_for_parsed db a p).no_match_for_time

unfoldable pub slot_concerns : Db → ParsedBooking → Booking → ProviderAliasMatch → List Concern
unfolding is_cancellation is_manually_overridden slot_unmatched
slot_concerns db p b m =
    concern_if
      (not (is_cancellation p b)
        && (not (is_manually_overridden b "schedule_slot") && slot_unmatched db m.alias p))
      time_missing slot_confirmation_title (slot_unconfirmed (opt_time p.start_time))

unfoldable pub product_concerns : ParsedBooking → Booking → ProviderAliasMatch → List Concern
unfolding is_cancellation
product_concerns p b m =
    let unmapped =
      not (is_cancellation p b) && (not (is_some m.alias) && has_text p.raw_product_name) in
    let details =
      alias_details (text p.raw_product_name) (opt_text p.raw_option_name) m.suggestions in
    concern_if unmapped provider_alias_missing "Unmapped provider product" details
    ++ concern_if unmapped product_mismatch "Product title is not mapped" details

abbrev pub row_of_booking : Db → Option ℕ → Option Booking
row_of_booking db none = none
row_of_booking db (some id) = find? (λ b. b.id == id) db.bookings

abbrev pub row_of_email : Db → Option ℕ → Option RawEmail
row_of_email db none = none
row_of_email db (some id) = find? (λ r. r.id == id) db.raw_emails

-- `_resolve_obsolete_review_items`
unfoldable pub resolve_obsolete_review_items : Environment → Db → RawEmail → Booking → Db
unfolding resolve_items review_issue_is_obsolete_for_context
resolve_obsolete_review_items env db raw b =
    resolve_items db
      (λ r.
        opt_eq r.raw_email (some raw.id)
        && review_issue_is_obsolete_for_context db r.issue_type r.title (some raw)
            (row_of_booking db r.booking) (some b))
      env.now

-- `_resolve_obsolete_booking_review_items`
unfoldable pub resolve_obsolete_booking_review_items : Environment → Db → Booking → Db
unfolding resolve_items review_issue_is_obsolete_for_context
resolve_obsolete_booking_review_items env db b =
    resolve_items db
      (λ r.
        opt_eq r.booking (some b.id)
        && review_issue_is_obsolete_for_context db r.issue_type r.title
            (row_of_email db r.raw_email) (row_of_booking db r.booking) (some b))
      env.now
