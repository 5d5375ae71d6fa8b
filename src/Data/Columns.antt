-- ===== src/Data/Columns.antt =====
-- The values that the services pass by column name. A JSON column is its canonical text (keys in
-- order), so equality of such values is Python's; a foreign key is the id of the row.
use ticketmirror.Base.{
  ℕ, String, ◌≡◌, refl, ap, Bool, true, false, not, ◌||◌, arith, ◌==◌, str_eq, eq_iff, eq_refl,
}

-- Booking.Status
pub data Status : Type 0 where
  confirmed pending_provider_acceptance cancelled rejected : Status
  modified manual_review parse_failed duplicate_ignored : Status

-- ActivityScheduleSlot.SlotType
pub data SlotType : Type 0 where
  fixed_time half_day full_day open_time private_group : SlotType

abbrev pub status_index : Status → ℕ
status_index confirmed = 0
status_index pending_provider_acceptance = 1
status_index cancelled = 2
status_index rejected = 3
status_index modified = 4
status_index manual_review = 5
status_index parse_failed = 6
status_index duplicate_ignored = 7

abbrev pub slot_type_index : SlotType → ℕ
slot_type_index fixed_time = 0
slot_type_index half_day = 1
slot_type_index full_day = 2
slot_type_index open_time = 3
slot_type_index private_group = 4

abbrev pub status_eq : Status → Status → Bool
status_eq s t = status_index s == status_index t

abbrev pub slot_type_eq : SlotType → SlotType → Bool
slot_type_eq s t = slot_type_index s == slot_type_index t

pub data Value : Type 0 where
  null : Value
  text : String → Value
  num : ℕ → Value
  date : ℕ → Value
  time : ℕ → Value
  status : Status → Value
  slot_type : SlotType → Value
  json : String → Value
  ref : ℕ → Value

-- `a == b`
abbrev pub value_eq : Value → Value → Bool
value_eq null null = true
value_eq (text s) (text t) = str_eq s t
value_eq (num m) (num n) = m == n
value_eq (date m) (date n) = m == n
value_eq (time m) (time n) = m == n
value_eq (status s) (status t) = status_eq s t
value_eq (slot_type s) (slot_type t) = slot_type_eq s t
value_eq (json s) (json t) = str_eq s t
value_eq (ref m) (ref n) = m == n
value_eq _ _ = false

-- `v in (None, "", [], {})`
abbrev pub is_empty : Value → Bool
is_empty null = true
is_empty (text s) = str_eq s ""
is_empty (json s) = str_eq s "[]" || str_eq s "{}"
is_empty _ = false

-- `bool(v)`: a time of day is true also at midnight, and so is a row.
abbrev pub truthy : Value → Bool
truthy null = false
truthy (text s) = not (str_eq s "")
truthy (num n) = not (n == 0)
truthy (json s) = not (str_eq s "[]" || str_eq s "{}")
truthy _ = true

pub status_eq_refl : (s : Status) → status_eq s s ≡ true
status_eq_refl s = ground arith

pub status_eq→eq : (s t : Status) → status_eq s t ≡ true → s ≡ t
status_eq→eq confirmed t h = ground arith
status_eq→eq _ t h = ground arith

pub slot_type_eq→eq : (s t : SlotType) → slot_type_eq s t ≡ true → s ≡ t
slot_type_eq→eq fixed_time t h = ground arith
slot_type_eq→eq _ t h = ground arith

pub value_eq_refl : (v : Value) → value_eq v v ≡ true
value_eq_refl null = refl
value_eq_refl (text s) = eq_refl s
value_eq_refl (json s) = eq_refl s
value_eq_refl v = ground arith

pub value_eq→eq : (v w : Value) → value_eq v w ≡ true → v ≡ w
value_eq→eq (text s) (text t) h = ap text ((eq_iff s t).0 h)
value_eq→eq (json s) (json t) h = ap json ((eq_iff s t).0 h)
value_eq→eq (status s) (status t) h = ap status (status_eq→eq s t h)
value_eq→eq (slot_type s) (slot_type t) h = ap slot_type (slot_type_eq→eq s t h)
value_eq→eq _ _ h = ground arith
