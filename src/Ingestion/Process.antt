-- ===== src/Ingestion/Process.antt =====
-- `process_raw_email`: what becomes of a stored email.
pub mod Kept
pub mod Finished
use Prim.Native.String.{◌++◌ as join}
use ticketmirror.Base.{
  ℕ, String, Bool, true, false, Option, none, some, List, [], ◌∷◌, ◌==◌, str_eq, find?,
  if◌then◌else◌,
}
use ticketmirror.Base.Result.{Result, ok, err, ◌>>=◌}
use ticketmirror.Data.{
  Db, Provider, Booking, RawEmail, ParseStatus, failed, needs_review, provider_not_detected,
  parser_error, IssueType, fixed,
}
use ticketmirror.Bookings.Errors.{ServiceError}
use ticketmirror.Bookings.Internal.{get_row}
use ticketmirror.Bookings.Reviews.{has_text}
use ticketmirror.Ingestion.Environment.{Environment}
use ticketmirror.Ingestion.Parsed.{ParsedBooking}
use ticketmirror.Ingestion.Providers.{get_or_create_provider}
use ticketmirror.Ingestion.Ignored.{save_raw_email, mark_raw_email_ignored}
use ticketmirror.Ingestion.Followup.{Concern, create_reviews}
use ticketmirror.Ingestion.Upsert.{parser_version, upsert_booking_from_parsed}

-- The text processing that the pipeline calls: the translated view of an email, the reason to
-- ignore it ("" for none), the detection of its provider, and the parsers by key. A parser that
-- raises gives its masked message.
pub record Reading : Type 0 where
  pub translated : RawEmail → RawEmail
  pub ignore_reason : RawEmail → String
  pub detect_provider : RawEmail → Option String
  pub has_parser : String → Bool
  pub parse : String → RawEmail → Result String ParsedBooking

abbrev pub Outcome : Type 0
Outcome = Result ServiceError (Option Booking × Db)

-- The email is saved with a status and an error, and a review of it without a booking is opened.
unfoldable pub give_up : Db → RawEmail → ParseStatus → String → Concern → Outcome
unfolding save_raw_email create_reviews
give_up db raw status message concern = do
  db' ←
      create_reviews
        (save_raw_email db (record raw { parse_status = status; parse_error = some message })) raw
        none (concern ∷ [])
  ok (none, db')

unfoldable pub undetected : Db → RawEmail → Outcome
unfolding give_up
undetected db raw = give_up db raw needs_review "Provider could not be detected." (record {
  issue_type = provider_not_detected;
  title = "Provider not detected";
  details = fixed "No deterministic provider pattern matched this email.";
})

abbrev pub parser_concern : String → String → Concern
parser_concern title message = record {
  issue_type = parser_error;
  title = title;
  details = fixed message;
}

unfoldable pub unregistered : Db → RawEmail → Provider → Outcome
unfolding give_up
unregistered db raw provider =
    let message = join "No parser registered for " (join provider.code ".") in
    give_up db raw failed message (parser_concern "Parser not registered" message)

unfoldable pub finish_parse : Environment → Db → RawEmail → Result String ParsedBooking → Outcome
unfolding give_up upsert_booking_from_parsed
finish_parse env db raw (err message) =
    give_up db raw failed message (parser_concern "Parser error" message)
finish_parse env db raw (ok p) = upsert_booking_from_parsed env db raw p

unfoldable pub ignore : Environment → Db → RawEmail → String → Outcome
unfolding mark_raw_email_ignored
ignore env db raw reason = ok (none, mark_raw_email_ignored env db raw reason)

abbrev pub parser_key : Provider → String
parser_key provider = if has_text provider.parser_key then provider.parser_key else provider.code

unfoldable pub run_parser : Environment → Reading → Db → RawEmail → RawEmail → Provider → Outcome
unfolding unregistered finish_parse
run_parser env reading db raw view provider =
    if reading.has_parser (parser_key provider)
    then finish_parse env db raw (reading.parse (parser_key provider) view)
    else unregistered db raw provider

abbrev pub with_provider : RawEmail → Provider → RawEmail
with_provider raw provider = record raw {
  provider_detected = some provider.id;
  parser_version = some parser_version;
}

unfoldable pub read_as : Environment → Reading → Db → RawEmail → RawEmail → Provider → Outcome
unfolding save_raw_email ignore run_parser
read_as env reading db raw view provider =
    let detected_raw = with_provider raw provider in
    let saved = save_raw_email db detected_raw in
    if has_text (reading.ignore_reason view)
    then ignore env saved detected_raw (reading.ignore_reason view)
    else run_parser env reading saved detected_raw view provider

unfoldable pub read_provider :
    Environment → Reading → Db → RawEmail → RawEmail → Option String → Outcome
unfolding ignore undetected get_or_create_provider read_as
read_provider env reading db raw view none =
    if has_text (reading.ignore_reason view)
    then ignore env db raw (reading.ignore_reason view)
    else undetected db raw
read_provider env reading db raw view (some code) =
    let found = get_or_create_provider env db code in read_as env reading found.1 raw view found.0

unfoldable pub process_row : Environment → Reading → Db → RawEmail → Outcome
unfolding ignore read_provider
process_row env reading db raw =
    let view = reading.translated raw in
    if has_text (reading.ignore_reason view)
    then ignore env db raw (reading.ignore_reason view)
    else read_provider env reading db raw view (reading.detect_provider view)

unfoldable pub process_raw_email : Environment → Reading → Db → ℕ → Outcome
unfolding process_row
process_raw_email env reading db id = do
  raw ← get_row (find? (λ r. r.id == id) db.raw_emails)
  process_row env reading db raw
