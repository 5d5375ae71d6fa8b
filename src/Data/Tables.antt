-- ===== src/Data/Tables.antt =====
-- Provider, Booking, BookingEvent and ReviewQueueItem of apps/bookings/models.py, RawEmail of
-- apps/ingestion/models.py, and the database that holds their rows.
-- A formatted text (`details`) is kept as its format and the values put in.
use ticketmirror.Base.{ℕ, String, ◌≡◌, Bool, true, Option, none, some, List, arith, ◌==◌}
use ticketmirror.Base.Int.{ℤ}
use ticketmirror.Data.Columns.{Value, Status, status, num, SlotType}
use ticketmirror.Data.Calendar.{
  TourActivity, ActivitySchedule, ActivityScheduleSlot, ActivityScheduleException, ProviderAlias,
}

pub record Provider : Type 0 where
  pub id : ℕ
  pub code : String
  pub name : String
  pub parser_key : String

-- `columns` holds every column that the services read or write by name; the identity of the
-- booking and the bookkeeping of the mail thread stand beside it.
pub record Booking : Type 0 where
  pub id : ℕ
  pub provider : ℕ
  pub provider_booking_reference : String
  pub source_thread_id : Option String
  pub last_email_received_at : Option ℕ
  pub manual_override_fields : List String
  pub columns : String → Value

-- The two are the same row, under the same provider and reference.
abbrev pub SameIdentity : Booking → Booking → Type 0
SameIdentity b c =
    (b.id ≡ c.id)
    × (b.provider ≡ c.provider)
    × (b.provider_booking_reference ≡ c.provider_booking_reference)

-- The bookkeeping of the mail thread is the same too.
abbrev pub SameThread : Booking → Booking → Type 0
SameThread b c =
    (b.source_thread_id ≡ c.source_thread_id)
    × (b.last_email_received_at ≡ c.last_email_received_at)

pub Booking-ext :
    (b c : Booking)
    → SameIdentity b c
    → SameThread b c
    → b.manual_override_fields ≡ c.manual_override_fields
    → ((j : String) → b.columns j ≡ c.columns j)
    → b ≡ c
Booking-ext b c (p, q, r) (s, t) m k = λ i. record {
  id = p i;
  provider = q i;
  provider_booking_reference = r i;
  source_thread_id = s i;
  last_email_received_at = t i;
  manual_override_fields = m i;
  columns = λ j. k j i;
}

-- `booking.status`, `booking.schedule_slot_id` and the like, read from a column of that kind.
abbrev pub as_status : Value → Option Status
as_status (status s) = some s
as_status _ = none

abbrev pub as_num : Value → ℕ
as_num (num n) = n
as_num _ = 0

abbrev pub as_ref : Value → Option ℕ
as_ref (Value.ref n) = some n
as_ref _ = none

abbrev pub as_time : Value → Option ℕ
as_time (Value.time t) = some t
as_time _ = none

abbrev pub as_slot_type : Value → Option SlotType
as_slot_type (Value.slot_type t) = some t
as_slot_type _ = none

abbrev pub as_date : Value → Option ℕ
as_date (Value.date n) = some n
as_date _ = none

pub data EventType : Type 0 where
  email_new_booking email_booking_request email_update email_cancellation : EventType
  manual_edit manual_status_change parser_review_resolved : EventType
  provider_alias_changed conflict_detected bookeo_history_import : EventType

pub data Source : Type 0 where
  email manual system : Source

pub record Conflict : Type 0 where
  pub provider_field : String
  pub provider_value : Value
  pub active_value : Value

-- The entries of `old_values` and `new_values`.
pub data Entry : Type 0 where
  value : Value → Entry
  flag : Bool → Entry
  integer : ℤ → Entry
  event : EventType → Entry
  texts : List String → Entry
  values : List (String × Value) → Entry
  conflicts : List (String × Conflict) → Entry

pub record BookingEvent : Type 0 where
  pub booking : Option ℕ
  pub event_type : EventType
  pub source : Source
  pub old_values : List (String × Value)
  pub new_values : List (String × Entry)
  pub raw_email : Option ℕ
  pub created_by : Option ℕ

pub data IssueType : Type 0 where
  provider_not_detected reference_missing date_missing time_missing : IssueType
  traveler_count_missing lead_traveler_missing provider_alias_missing : IssueType
  product_mismatch low_confidence_parse possible_duplicate manual_override_conflict : IssueType
  cancellation_without_booking capacity_overbooked parser_error : IssueType

abbrev pub issue_index : IssueType → ℕ
issue_index provider_not_detected = 0
issue_index reference_missing = 1
issue_index date_missing = 2
issue_index time_missing = 3
issue_index traveler_count_missing = 4
issue_index lead_traveler_missing = 5
issue_index provider_alias_missing = 6
issue_index product_mismatch = 7
issue_index low_confidence_parse = 8
issue_index possible_duplicate = 9
issue_index manual_override_conflict = 10
issue_index cancellation_without_booking = 11
issue_index capacity_overbooked = 12
issue_index parser_error = 13

abbrev pub issue_eq : IssueType → IssueType → Bool
issue_eq s t = issue_index s == issue_index t

pub issue_eq→eq : (s t : IssueType) → issue_eq s t ≡ true → s ≡ t
issue_eq→eq provider_not_detected t h = ground arith
issue_eq→eq _ t h = ground arith

pub issue_eq_refl : (s : IssueType) → issue_eq s s ≡ true
issue_eq_refl s = ground arith

pub data ReviewStatus : Type 0 where
  open_review resolved ignored_review : ReviewStatus

abbrev pub is_open : ReviewStatus → Bool
is_open open_review = true
is_open _ = Bool.false

pub data Details : Type 0 where
  fixed : String → Details
  duplicate_of : String → String → Details
  slot_unconfirmed : Value → Details
  alias_details : Value → Value → List ℕ → Details
  warnings_details : List String → Details
  conflict_details : List (String × Conflict) → Details
  overbooked_details : ℕ → ℕ → ℕ → Details
  internal_overbooked : ℕ → String → Details

pub record ReviewQueueItem : Type 0 where
  pub id : ℕ
  pub raw_email : Option ℕ
  pub booking : Option ℕ
  pub issue_type : IssueType
  pub status : ReviewStatus
  pub title : String
  pub details : Details
  pub resolved_at : Option ℕ

pub data ParseStatus : Type 0 where
  pending parsed failed ignored needs_review : ParseStatus

pub record RawEmail : Type 0 where
  pub id : ℕ
  pub gmail_message_id : String
  pub gmail_thread_id : Option String
  pub gmail_history_id : Option String
  pub gmail_outer_sender : String
  pub original_forwarded_sender : Option String
  pub subject : String
  pub received_at : ℕ
  pub body_text : String
  pub provider_detected : Option ℕ
  pub parse_status : ParseStatus
  pub parse_error : Option String
  pub parser_version : Option String

-- The tables. A query without an explicit order gives the rows in the order of the list; new
-- rows take `next_id`.
pub record Db : Type 0 where
  pub providers : List Provider
  pub activities : List TourActivity
  pub schedules : List ActivitySchedule
  pub slots : List ActivityScheduleSlot
  pub exceptions : List ActivityScheduleException
  pub aliases : List ProviderAlias
  pub bookings : List Booking
  pub events : List BookingEvent
  pub reviews : List ReviewQueueItem
  pub raw_emails : List RawEmail
  pub next_id : ℕ

-- `None`-aware equality of two foreign keys.
abbrev pub opt_eq : Option ℕ → Option ℕ → Bool
opt_eq none none = true
opt_eq (some m) (some n) = m == n
opt_eq _ _ = Bool.false

pub opt_eq→eq : (a b : Option ℕ) → opt_eq a b ≡ true → a ≡ b
opt_eq→eq none none h = ground arith
opt_eq→eq _ _ h = ground arith

pub opt_eq_refl : (a : Option ℕ) → opt_eq a a ≡ true
opt_eq_refl none = ground arith
opt_eq_refl (some n) = ground arith
