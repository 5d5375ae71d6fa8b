-- ===== src/Data/Calendar.antt =====
-- TourActivity, ActivitySchedule, ActivityScheduleSlot, ActivityScheduleException and
-- ProviderAlias of apps/bookings/models.py. Dates are proleptic ordinals (date.toordinal()),
-- times of day are microseconds since midnight, and a foreign key is the id of its row.
use ticketmirror.Base.{ℕ, ◌+◌, ◌%◌, String, Bool, Option, List}
use ticketmirror.Data.Columns.{SlotType}

pub record TourActivity : Type 0 where
  pub id : ℕ
  pub name : String
  pub active : Bool

pub data ScheduleKind : Type 0 where
  current other : ScheduleKind

pub record ActivitySchedule : Type 0 where
  pub id : ℕ
  pub activity : ℕ
  pub schedule_kind : ScheduleKind
  pub active : Bool
  pub date_from : Option ℕ
  pub date_to : Option ℕ
  pub days_of_week : List ℕ
  pub priority : ℕ

pub record ActivityScheduleSlot : Type 0 where
  pub id : ℕ
  pub schedule : ℕ
  pub start_time : ℕ
  pub end_time : Option ℕ
  pub slot_type : SlotType
  pub capacity : ℕ
  pub days_of_week : List ℕ
  pub active : Bool

pub data ExceptionType : Type 0 where
  blocked closed override_capacity extra_slot removed_slot : ExceptionType

pub record ActivityScheduleException : Type 0 where
  pub id : ℕ
  pub schedule : ℕ
  pub exception_type : ExceptionType
  pub date : ℕ
  pub start_time : Option ℕ
  pub capacity : Option ℕ
  pub active : Bool

-- `save` writes the three optional texts as "" where they are missing, so they are texts here.
pub record ProviderAlias : Type 0 where
  pub id : ℕ
  pub provider : ℕ
  pub raw_product_name : String
  pub raw_option_name : String
  pub provider_product_code : String
  pub provider_option_code : String
  pub linked_activity : ℕ
  pub linked_slot : Option ActivityScheduleSlot
  pub approved : Bool

-- `date.weekday()`: Monday is 0, and the ordinal 1 is a Monday.
abbrev pub weekday : ℕ → ℕ
weekday ordinal = (ordinal + 6) % 7
