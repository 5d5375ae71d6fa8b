-- ===== src/Bookings/Reviews.antt =====
-- When an open review no longer stands, of apps/bookings/services.py.
pub mod Answered
use ticketmirror.Base.{
  ℕ, String, Bool, true, false, not, ◌||◌, Option, none, some, List, [], ◌∷◌, ◌==◌, str_eq,
  if◌then◌else◌, any, all, find?, is_some,
}
use ticketmirror.Base.Names.{member}
use ticketmirror.Data.{
  Db, Provider, Booking, Value, null, slot_type, full_day, half_day, value_eq, truthy, RawEmail,
  ParseStatus, ignored, IssueType, provider_not_detected, reference_missing, date_missing,
  time_missing, traveler_count_missing, lead_traveler_missing, provider_alias_missing,
  product_mismatch, low_confidence_parse,
}

-- `booking.provider.code`: a foreign key always has its row.
abbrev pub code_or_blank : Option Provider → String
code_or_blank none = ""
code_or_blank (some p) = p.code

unfoldable pub provider_code : Db → ℕ → String
provider_code db id = code_or_blank (find? (λ p. p.id == id) db.providers)

abbrev pub has_text : String → Bool
has_text s = not (str_eq s "")

abbrev pub is_null : Value → Bool
is_null v = value_eq v null

unfoldable pub booking_has_parsed_travel_date : Booking → Bool
booking_has_parsed_travel_date b =
    truthy (b.columns "active_travel_date") || truthy (b.columns "provider_travel_date")

abbrev pub is_day_slot : Value → Bool
is_day_slot v = value_eq v (slot_type full_day) || value_eq v (slot_type half_day)

unfoldable pub booking_has_parsed_time : Booking → Bool
booking_has_parsed_time b =
    truthy (b.columns "active_start_time")
    || (truthy (b.columns "provider_start_time")
        || (is_day_slot (b.columns "active_slot_type")
            || is_day_slot (b.columns "provider_slot_type")))

unfoldable pub booking_has_parsed_traveler_count : Booking → Bool
booking_has_parsed_traveler_count b =
    not (is_null (b.columns "active_traveler_count"))
    || not (is_null (b.columns "provider_traveler_count"))

unfoldable pub booking_has_parsed_product : Booking → Bool
booking_has_parsed_product b =
    truthy (b.columns "activity") || truthy (b.columns "raw_product_name")

abbrev pub omits_lead_name : String → Bool
omits_lead_name code = member code ("tripster" ∷ "sputnik8" ∷ [])

-- `raw_email.provider_detected.code`, or "" without one.
unfoldable pub detected_code : Db → Option RawEmail → String
unfolding provider_code
detected_code db none = ""
detected_code db (some raw) = elim raw.provider_detected [
  | none ↦ ""
  | some id ↦ provider_code db id
]

unfoldable pub booking_provider_omits_lead_name : Db → Option RawEmail → Booking → Bool
unfolding provider_code detected_code
booking_provider_omits_lead_name db raw b =
    let code = detected_code db raw in
    omits_lead_name (if has_text code then code else provider_code db b.provider)

unfoldable pub booking_has_required_parse_content : Db → Option RawEmail → Booking → Bool
unfolding booking_has_parsed_product booking_has_parsed_travel_date booking_has_parsed_time
    booking_has_parsed_traveler_count booking_provider_omits_lead_name
booking_has_required_parse_content db raw b =
    all (λ x. x)
      (has_text b.provider_booking_reference
        ∷ booking_has_parsed_product b
        ∷ booking_has_parsed_travel_date b
        ∷ booking_has_parsed_time b
        ∷ booking_has_parsed_traveler_count b
        ∷ (truthy (b.columns "lead_traveler_name") || booking_provider_omits_lead_name db raw b)
        ∷ [])

abbrev pub was_detected : Option RawEmail → Bool
was_detected none = false
was_detected (some raw) = is_some raw.provider_detected

abbrev pub is_ignored : ParseStatus → Bool
is_ignored ignored = true
is_ignored _ = false

abbrev pub was_ignored : Option RawEmail → Bool
was_ignored none = false
was_ignored (some raw) = is_ignored raw.parse_status

abbrev pub has_reference : Option Booking → Bool
has_reference none = false
has_reference (some b) = has_text b.provider_booking_reference

abbrev pub slot_confirmation_title : String
slot_confirmation_title = "Schedule slot needs confirmation"

-- The branches that need a booking, after `if not booking: return False`.
unfoldable pub obsolete_for_booking : Db → IssueType → String → Option RawEmail → Booking → Bool
unfolding booking_has_parsed_travel_date booking_has_parsed_time booking_has_parsed_traveler_count
    booking_provider_omits_lead_name booking_has_required_parse_content
obsolete_for_booking db provider_alias_missing title raw b = truthy (b.columns "activity")
obsolete_for_booking db product_mismatch title raw b = truthy (b.columns "activity")
obsolete_for_booking db date_missing title raw b = booking_has_parsed_travel_date b
obsolete_for_booking db time_missing title raw b =
    if str_eq title slot_confirmation_title then false else booking_has_parsed_time b
obsolete_for_booking db traveler_count_missing title raw b = booking_has_parsed_traveler_count b
obsolete_for_booking db lead_traveler_missing title raw b =
    truthy (b.columns "lead_traveler_name") || booking_provider_omits_lead_name db raw b
obsolete_for_booking db low_confidence_parse title raw b =
    booking_has_required_parse_content db raw b
obsolete_for_booking db _ title raw b = false

unfoldable pub obsolete_with : Db → IssueType → String → Option RawEmail → Option Booking → Bool
unfolding obsolete_for_booking
obsolete_with db issue title raw none = false
obsolete_with db issue title raw (some b) = obsolete_for_booking db issue title raw b

unfoldable pub review_issue_is_obsolete :
    Db → IssueType → String → Option Booking → Option RawEmail → Bool
unfolding obsolete_with
review_issue_is_obsolete db provider_not_detected title b raw = was_detected raw
review_issue_is_obsolete db reference_missing title b raw =
    if was_ignored raw then true else has_reference b
review_issue_is_obsolete db issue title b raw = obsolete_with db issue title raw b

-- `[review_booking, current_booking]` without `None` and without the same row twice.
abbrev pub candidates : Option Booking → Option Booking → List Booking
candidates none none = []
candidates none (some c) = c ∷ []
candidates (some b) none = b ∷ []
candidates (some b) (some c) = if c.id == b.id then b ∷ [] else b ∷ c ∷ []

unfoldable pub obsolete_for_any : Db → IssueType → String → Option RawEmail → List Booking → Bool
unfolding review_issue_is_obsolete
obsolete_for_any db issue title raw [] = review_issue_is_obsolete db issue title none raw
obsolete_for_any db issue title raw (b ∷ bs) =
    any (λ c. review_issue_is_obsolete db issue title (some c) raw) (b ∷ bs)

unfoldable pub review_issue_is_obsolete_for_context :
    Db → IssueType → String → Option RawEmail → Option Booking → Option Booking → Bool
unfolding obsolete_for_any
review_issue_is_obsolete_for_context db issue title raw review_booking current_booking =
    obsolete_for_any db issue title raw (candidates review_booking current_booking)
