-- ===== src/Samples.antt =====
-- A small database, requests and emails on which the theorems are tried.
use ticketmirror.Base.{ℕ, String, true, false, none, some, [], ◌∷◌}
use ticketmirror.Base.Int.{pos}
use ticketmirror.Base.Names.{lookup}
use ticketmirror.Data.{
  Db, Provider, TourActivity, ActivitySchedule, current, ActivityScheduleSlot, fixed_time,
  ActivityScheduleException, override_capacity, ProviderAlias, Booking, Value, ref, num, date, text,
  status, confirmed, cancelled, BookingEvent, email_new_booking, email, ReviewQueueItem,
  product_mismatch, date_missing, open_review, resolved, fixed, RawEmail, ParseStatus, pending,
}
use ticketmirror.Bookings.Overrides.{Values}
use ticketmirror.Bookings.Rows.{default_or_null}
use ticketmirror.Bookings.Internal.{Request}
use ticketmirror.Ingestion.Environment.{Environment}
use ticketmirror.Base.Result.{ok}
use ticketmirror.Ingestion.Parsed.{ParsedBooking}
use ticketmirror.Ingestion.Process.{Reading}
use ticketmirror.Ingestion.Store.{Payload}

abbrev pub ten : ℕ
ten = 36000000000

abbrev pub provider : Provider
provider = record {
  id = 1;
  code = "getyourguide";
  name = "GetYourGuide";
  parser_key = "getyourguide";
}

abbrev pub bookeo : Provider
bookeo = record { id = 4; code = "bookeo"; name = "Bookeo"; parser_key = "bookeo" }

abbrev pub activity : TourActivity
activity = record { id = 2; name = "Bosphorus tour"; active = true }

abbrev pub schedule : ActivitySchedule
schedule = record {
  id = 3;
  activity = 2;
  schedule_kind = current;
  active = true;
  date_from = none;
  date_to = none;
  days_of_week = [];
  priority = 0;
}

abbrev pub slot : ActivityScheduleSlot
slot = record {
  id = 5;
  schedule = 3;
  start_time = ten;
  end_time = none;
  slot_type = fixed_time;
  capacity = 10;
  days_of_week = [];
  active = true;
}

abbrev pub fewer_seats : ActivityScheduleException
fewer_seats = record {
  id = 6;
  schedule = 3;
  exception_type = override_capacity;
  date = 100;
  start_time = none;
  capacity = some 8;
  active = true;
}

abbrev pub columns_of : Values → String → Value
columns_of values name = default_or_null (lookup name values)

abbrev pub booking : Booking
booking = record {
  id = 7;
  provider = 1;
  provider_booking_reference = "GYG1";
  source_thread_id = some "thread";
  last_email_received_at = some 50;
  manual_override_fields = "active_start_time" ∷ [];
  columns = columns_of (
      ("status", status confirmed)
      ∷ ("attendance_status", text "")
      ∷ ("schedule_slot", ref 5)
      ∷ ("active_travel_date", date 100)
      ∷ ("active_traveler_count", num 3)
      ∷ []);
}

abbrev pub cancelled_booking : Booking
cancelled_booking = record (booking) { columns = columns_of (("status", status cancelled) ∷ []) }

abbrev pub first_event : BookingEvent
first_event = record {
  booking = some 7;
  event_type = email_new_booking;
  source = email;
  old_values = [];
  new_values = [];
  raw_email = some 20;
  created_by = none;
}

abbrev pub raw : RawEmail
raw = record {
  id = 20;
  gmail_message_id = "m1";
  gmail_thread_id = some "thread";
  gmail_history_id = none;
  gmail_outer_sender = "";
  original_forwarded_sender = none;
  subject = "";
  received_at = 60;
  body_text = "";
  provider_detected = some 1;
  parse_status = pending;
  parse_error = none;
  parser_version = none;
}

abbrev pub alias : ProviderAlias
alias = record {
  id = 11;
  provider = 1;
  raw_product_name = "Bosphorus  Tour";
  raw_option_name = "";
  provider_product_code = "";
  provider_option_code = "";
  linked_activity = 2;
  linked_slot = some slot;
  approved = true;
}

abbrev pub db : Db
db = record {
  providers = provider ∷ bookeo ∷ [];
  activities = activity ∷ [];
  schedules = schedule ∷ [];
  slots = slot ∷ [];
  exceptions = fewer_seats ∷ [];
  aliases = alias ∷ [];
  bookings = booking ∷ [];
  events = first_event ∷ [];
  reviews = [];
  raw_emails = raw ∷ [];
  next_id = 100;
}

abbrev pub settled_mismatch : ReviewQueueItem
settled_mismatch = record {
  id = 8;
  raw_email = some 20;
  booking = some 7;
  issue_type = product_mismatch;
  status = resolved;
  title = "";
  details = fixed "";
  resolved_at = some 70;
}

abbrev pub open_date_review : ReviewQueueItem
open_date_review = record {
  id = 9;
  raw_email = some 20;
  booking = some 7;
  issue_type = date_missing;
  status = open_review;
  title = "";
  details = fixed "";
  resolved_at = none;
}

-- The mismatch is settled, and another review is open.
abbrev pub reviewed_db : Db
reviewed_db = record (db) { reviews = settled_mismatch ∷ open_date_review ∷ [] }

-- Five travelers fill the eight seats.
abbrev pub request : Request
request = record {
  service_date = 100;
  schedule_slot = 5;
  traveler_count = pos 5;
  lead_traveler_name = "Ayla";
  lead_traveler_email = none;
  lead_traveler_phone = none;
  special_requirements = none;
  customer_message = none;
  user = some 1;
  admin = false;
  allow_overcapacity = false;
  override_reason = "";
  reference = "TM-1";
}

-- Six would not fit.
abbrev pub large_request : Request
large_request = record (request) { traveler_count = pos 6 }

abbrev pub env : Environment
env = record {
  now = 1000;
  lower = λ s. s;
  title_case = λ s. s;
  iexact = λ s t. false;
  icontains = λ s t. false;
  fuzzy_suggestions = λ rows s t. [];
}

abbrev pub parsed : ParsedBooking
parsed = record {
  provider_code = "getyourguide";
  provider_booking_reference = "GYG2";
  provider_order_reference = none;
  event_type = email_new_booking;
  status = confirmed;
  raw_product_name = "Bosphorus Tour";
  raw_option_name = none;
  provider_product_code = none;
  provider_option_code = none;
  travel_date = some 100;
  start_time = some ten;
  end_time = none;
  slot_type = none;
  traveler_count = some 2;
  lead_traveler_name = some "Deniz";
  lead_traveler_email = none;
  lead_traveler_phone = none;
  traveler_names = "[]";
  ticket_breakdown = "{}";
  language = none;
  pickup_location = none;
  meeting_point = none;
  special_requirements = none;
  customer_message = none;
  price = "{}";
  payment_status = none;
  confidence = 90;
  warnings = [];
  raw_fields = "{}";
  bookeo_booking_number = none;
}

-- Every text reads as the parsed email.
abbrev pub reading : Reading
reading = record {
  translated = λ r. r;
  ignore_reason = λ r. "";
  detect_provider = λ r. some "getyourguide";
  has_parser = λ key. true;
  parse = λ key r. ok parsed;
}

abbrev pub message : Payload
message = record {
  gmail_message_id = "m1";
  gmail_thread_id = some "thread";
  gmail_history_id = some "12";
  gmail_outer_sender = "";
  original_forwarded_sender = none;
  forwarded_sender = none;
  subject = "";
  received_at = 60;
  body_text = "";
}

-- The email was parsed before.
abbrev pub settled_raw : RawEmail
settled_raw = record (raw) { parse_status = ParseStatus.parsed }

abbrev pub settled_db : Db
settled_db = record (db) { raw_emails = settled_raw ∷ [] }
