-- ===== src/Ingestion/Parsed.antt =====
-- ParsedBooking of apps/ingestion/parsers/base.py, and its values by column name.
use ticketmirror.Base.{ℕ, String, Option, none, some, List, [], ◌∷◌}
use ticketmirror.Data.{
  Value, null, text, num, date, time, json, Status, SlotType, EventType, cancelled,
  email_cancellation, Entry, value, event, texts,
}
use ticketmirror.Bookings.Overrides.{Values}

-- `confidence` is in hundredths; the texts of JSON fields are canonical; of `raw_fields` only the
-- Bookeo number is read, and stands apart. A slot type of `none` is the empty text.
pub record ParsedBooking : Type 0 where
  pub provider_code : String
  pub provider_booking_reference : String
  pub provider_order_reference : Option String
  pub event_type : EventType
  pub status : Status
  pub raw_product_name : String
  pub raw_option_name : Option String
  pub provider_product_code : Option String
  pub provider_option_code : Option String
  pub travel_date : Option ℕ
  pub start_time : Option ℕ
  pub end_time : Option ℕ
  pub slot_type : Option SlotType
  pub traveler_count : Option ℕ
  pub lead_traveler_name : Option String
  pub lead_traveler_email : Option String
  pub lead_traveler_phone : Option String
  pub traveler_names : String
  pub ticket_breakdown : String
  pub language : Option String
  pub pickup_location : Option String
  pub meeting_point : Option String
  pub special_requirements : Option String
  pub customer_message : Option String
  pub price : String
  pub payment_status : Option String
  pub confidence : ℕ
  pub warnings : List String
  pub raw_fields : String
  pub bookeo_booking_number : Option String

abbrev pub opt_text : Option String → Value
opt_text none = null
opt_text (some s) = text s

abbrev pub opt_num : Option ℕ → Value
opt_num none = null
opt_num (some n) = num n

abbrev pub opt_date : Option ℕ → Value
opt_date none = null
opt_date (some n) = date n

abbrev pub opt_time : Option ℕ → Value
opt_time none = null
opt_time (some n) = time n

abbrev pub opt_slot_type : Option SlotType → Value
opt_slot_type none = text ""
opt_slot_type (some t) = Value.slot_type t

-- `_provider_values_from_parsed`, with the status given apart: a cancellation email replaces it.
unfoldable pub provider_values_with : ParsedBooking → Status → Values
provider_values_with p s =
    ("provider_order_reference", opt_text p.provider_order_reference)
    ∷ ("status", Value.status s)
    ∷ ("raw_product_name", text p.raw_product_name)
    ∷ ("raw_option_name", opt_text p.raw_option_name)
    ∷ ("provider_product_code", opt_text p.provider_product_code)
    ∷ ("provider_option_code", opt_text p.provider_option_code)
    ∷ ("provider_travel_date", opt_date p.travel_date)
    ∷ ("provider_start_time", opt_time p.start_time)
    ∷ ("provider_end_time", opt_time p.end_time)
    ∷ ("provider_slot_type", opt_slot_type p.slot_type)
    ∷ ("provider_traveler_count", opt_num p.traveler_count)
    ∷ ("lead_traveler_name", opt_text p.lead_traveler_name)
    ∷ ("lead_traveler_email", opt_text p.lead_traveler_email)
    ∷ ("lead_traveler_phone", opt_text p.lead_traveler_phone)
    ∷ ("traveler_names", json p.traveler_names)
    ∷ ("ticket_breakdown", json p.ticket_breakdown)
    ∷ ("language", opt_text p.language)
    ∷ ("pickup_location", opt_text p.pickup_location)
    ∷ ("meeting_point", opt_text p.meeting_point)
    ∷ ("special_requirements", opt_text p.special_requirements)
    ∷ ("customer_message", opt_text p.customer_message)
    ∷ ("price", json p.price)
    ∷ ("payment_status", opt_text p.payment_status)
    ∷ []

-- `if parsed.event_type == EVENT_CANCELLATION: provider_values["status"] = STATUS_CANCELLED`
abbrev pub stated_status : EventType → Status → Status
stated_status email_cancellation s = cancelled
stated_status _ s = s

unfoldable pub provider_values_from_parsed : ParsedBooking → Values
unfolding provider_values_with
provider_values_from_parsed p = provider_values_with p (stated_status p.event_type p.status)

-- `ParsedBooking.payload`. (The dates and times stand as values, where the source has their
-- ISO texts.)
unfoldable pub payload : ParsedBooking → List (String × Entry)
payload p =
    ("provider_code", value (text p.provider_code))
    ∷ ("provider_booking_reference", value (text p.provider_booking_reference))
    ∷ ("provider_order_reference", value (opt_text p.provider_order_reference))
    ∷ ("event_type", event p.event_type)
    ∷ ("status", value (Value.status p.status))
    ∷ ("raw_product_name", value (text p.raw_product_name))
    ∷ ("raw_option_name", value (opt_text p.raw_option_name))
    ∷ ("provider_product_code", value (opt_text p.provider_product_code))
    ∷ ("provider_option_code", value (opt_text p.provider_option_code))
    ∷ ("travel_date", value (opt_date p.travel_date))
    ∷ ("start_time", value (opt_time p.start_time))
    ∷ ("end_time", value (opt_time p.end_time))
    ∷ ("slot_type", value (opt_slot_type p.slot_type))
    ∷ ("traveler_count", value (opt_num p.traveler_count))
    ∷ ("lead_traveler_name", value (opt_text p.lead_traveler_name))
    ∷ ("lead_traveler_email", value (opt_text p.lead_traveler_email))
    ∷ ("lead_traveler_phone", value (opt_text p.lead_traveler_phone))
    ∷ ("traveler_names", value (json p.traveler_names))
    ∷ ("ticket_breakdown", value (json p.ticket_breakdown))
    ∷ ("language", value (opt_text p.language))
    ∷ ("pickup_location", value (opt_text p.pickup_location))
    ∷ ("meeting_point", value (opt_text p.meeting_point))
    ∷ ("special_requirements", value (opt_text p.special_requirements))
    ∷ ("customer_message", value (opt_text p.customer_message))
    ∷ ("price", value (json p.price))
    ∷ ("payment_status", value (opt_text p.payment_status))
    ∷ ("confidence", value (num p.confidence))
    ∷ ("warnings", texts p.warnings)
    ∷ ("raw_fields", value (json p.raw_fields))
    ∷ []
