-- ===== src/Bookings/Schedules.antt =====
-- Which schedule and which slots of an activity are in force on a date, of
-- apps/bookings/services.py.
pub mod Precedence
pub mod Resolution
use ticketmirror.Base.{
  ℕ, ◌+◌, ◌-◌, Bool, true, false, not, ◌&&◌, ◌||◌, Option, none, some, List, [], ◌∷◌, max, ltb, leb,
  ◌==◌, if◌then◌else◌, length, filter, any, find?, head?, is_some,
}
use ticketmirror.Base.Order.{lex}
use ticketmirror.Base.Sort.{sort}
use ticketmirror.Data.{
  Db, ActivitySchedule, ScheduleKind, current, other, ActivityScheduleSlot,
  ActivityScheduleException, ExceptionType, removed_slot, SlotType, slot_type_eq, weekday,
}

abbrev pub contains : ℕ → List ℕ → Bool
contains n = any (λ m. m == n)

-- The filter of `resolve_active_schedule`.
unfoldable pub covers : ℕ → ActivitySchedule → Bool
covers service_date s =
    s.active
    && elim s.date_from [ none ↦ true | some d ↦ leb d service_date ]
    && elim s.date_to [ none ↦ true | some d ↦ leb service_date d ]

-- A span is only read for a schedule that covers a date, so that `date_from <= date_to`.
unfoldable pub schedule_date_span : ActivitySchedule → ℕ
schedule_date_span s = elim s.date_from [
  | none ↦ 999999
  | some from ↦ elim s.date_to [ none ↦ 999999 | some to ↦ to - from ]
]

abbrev pub kind_rank : ScheduleKind → ℕ
kind_rank current = 0
kind_rank other = 1

-- The comparison of two keys of `_schedule_precedence_key`.
unfoldable pub precedes : ActivitySchedule → ActivitySchedule → Bool
unfolding schedule_date_span
precedes s t = lex (schedule_date_span s) (schedule_date_span t) (
    lex (kind_rank s.schedule_kind) (kind_rank t.schedule_kind)
      (lex s.priority t.priority (leb s.id t.id)))

unfoldable pub schedules_of : Db → ℕ → List ActivitySchedule
schedules_of db activity = filter (λ s. s.activity == activity) db.schedules

unfoldable pub resolve_active_schedule : Db → ℕ → ℕ → Option ActivitySchedule
unfolding covers precedes schedules_of sort
resolve_active_schedule db activity service_date =
    head? (sort precedes (filter (covers service_date) (schedules_of db activity)))

abbrev pub applies_to_weekday : List ℕ → ℕ → Bool
applies_to_weekday [] service_date = true
applies_to_weekday days service_date = contains (weekday service_date) days

unfoldable pub schedule_applies_to_weekday : ActivitySchedule → ℕ → Bool
schedule_applies_to_weekday s service_date = applies_to_weekday s.days_of_week service_date

unfoldable pub slot_applies_to_weekday : ActivityScheduleSlot → ℕ → Bool
slot_applies_to_weekday slot service_date = applies_to_weekday slot.days_of_week service_date

unfoldable pub exception_matches_slot : ActivityScheduleException → ActivityScheduleSlot → Bool
exception_matches_slot e slot = elim e.start_time [
  | none ↦ true
  | some start ↦ start == slot.start_time
]

-- The rows stand in the order of their ids.
unfoldable pub schedule_exceptions : Db → ℕ → ℕ → List ActivityScheduleException
schedule_exceptions db schedule service_date =
    filter (λ e. e.schedule == schedule && (e.active && e.date == service_date)) db.exceptions

abbrev pub is_removal : ExceptionType → Bool
is_removal removed_slot = true
is_removal _ = false

unfoldable pub slot_removed_by_exception : Db → ActivityScheduleSlot → ℕ → Bool
unfolding schedule_exceptions exception_matches_slot
slot_removed_by_exception db slot service_date =
    any (λ e. is_removal e.exception_type && exception_matches_slot e slot)
      (schedule_exceptions db slot.schedule service_date)

-- `sorted(slots, key=lambda slot: (slot.start_time, slot.id))`
unfoldable pub slot_le : ActivityScheduleSlot → ActivityScheduleSlot → Bool
slot_le s t = lex s.start_time t.start_time (leb s.id t.id)

-- `if typed_slots: slots = typed_slots`
abbrev pub or_all :
    List ActivityScheduleSlot → List ActivityScheduleSlot → List ActivityScheduleSlot
or_all [] slots = slots
or_all (s ∷ typed) slots = s ∷ typed

-- `slot_type` is `none` for the empty text. Where some slot has the type, only those are kept.
unfoldable pub of_slot_type :
    Option SlotType → List ActivityScheduleSlot → List ActivityScheduleSlot
of_slot_type none slots = slots
of_slot_type (some type) slots = or_all (filter (λ s. slot_type_eq s.slot_type type) slots) slots

-- The slots of an activity that run on a date.
unfoldable pub running_slots : Db → ActivitySchedule → ℕ → List ActivityScheduleSlot
unfolding slot_applies_to_weekday slot_removed_by_exception
running_slots db schedule travel_date =
    filter
      (λ slot.
        slot_applies_to_weekday slot travel_date
        && not (slot_removed_by_exception db slot travel_date))
      (filter (λ slot. slot.schedule == schedule.id && slot.active) db.slots)

-- The slots of the schedule in force, or the early `return []`.
unfoldable pub slots_of_schedule :
    Db → ℕ → Option ActivitySchedule → Option (List ActivityScheduleSlot)
unfolding schedule_applies_to_weekday running_slots
slots_of_schedule db travel_date none = none
slots_of_schedule db travel_date (some schedule) =
    if schedule_applies_to_weekday schedule travel_date
    then some (running_slots db schedule travel_date)
    else none

-- Without a date: every active slot of the activity. (The query's order does not matter, since
-- the slots are sorted in the end.)
unfoldable pub undated_slots : Db → ℕ → List ActivityScheduleSlot
unfolding schedules_of
undated_slots db activity =
    filter (λ slot. slot.active && any (λ s. s.id == slot.schedule) (schedules_of db activity))
      db.slots

-- Keep the slots of the type and sort; `none` returns no slots.
unfoldable pub sorted_slots :
    Option SlotType → Option (List ActivityScheduleSlot) → List ActivityScheduleSlot
unfolding of_slot_type slot_le sort
sorted_slots type none = []
sorted_slots type (some slots) = sort slot_le (of_slot_type type slots)

unfoldable pub candidate_slots_for_booking :
    Db → ℕ → Option ℕ → Option SlotType → List ActivityScheduleSlot
unfolding resolve_active_schedule slots_of_schedule undated_slots sorted_slots
candidate_slots_for_booking db activity none type =
    sorted_slots type (some (undated_slots db activity))
candidate_slots_for_booking db activity (some travel_date) type =
    sorted_slots type
      (slots_of_schedule db travel_date (resolve_active_schedule db activity travel_date))

pub record ScheduleSlotResolution : Type 0 where
  pub slot : Option ActivityScheduleSlot
  pub matched_by_time : Bool
  pub used_single_slot_fallback : Bool
  pub used_alias_fallback : Bool
  pub no_match_for_time : Bool

abbrev pub resolution : Option ActivityScheduleSlot → ScheduleSlotResolution
resolution slot = record {
  slot = slot;
  matched_by_time = false;
  used_single_slot_fallback = false;
  used_alias_fallback = false;
  no_match_for_time = false;
}

abbrev pub single_slot : ActivityScheduleSlot → ScheduleSlotResolution
single_slot slot = record (resolution (some slot)) { used_single_slot_fallback = true }

abbrev pub alias_slot : Option ActivityScheduleSlot → Bool → Bool → ScheduleSlotResolution
alias_slot fallback used no_match = record (resolution fallback) {
  used_alias_fallback = used;
  no_match_for_time = no_match;
}

-- No slot starts at the parsed time.
unfoldable pub unmatched :
    Option ActivityScheduleSlot → List ActivityScheduleSlot → ScheduleSlotResolution
unmatched fallback (slot ∷ []) = single_slot slot
unmatched fallback _ = alias_slot fallback (is_some fallback) true

-- No time was parsed.
unfoldable pub untimed :
    Option ActivityScheduleSlot → List ActivityScheduleSlot → ScheduleSlotResolution
untimed fallback (slot ∷ []) = single_slot slot
untimed fallback _ = alias_slot fallback true false

-- A time was parsed: the first slot that starts then, if any.
unfoldable pub timed :
    Option ActivityScheduleSlot
    → List ActivityScheduleSlot
    → Option ActivityScheduleSlot
    → ScheduleSlotResolution
unfolding unmatched
timed fallback slots none = unmatched fallback slots
timed fallback slots (some slot) = record (resolution (some slot)) { matched_by_time = true }

unfoldable pub choose_slot :
    List ActivityScheduleSlot → Option ℕ → Option ActivityScheduleSlot → ScheduleSlotResolution
unfolding timed untimed
choose_slot slots none fallback = untimed fallback slots
choose_slot slots (some start_time) fallback =
    timed fallback slots (find? (λ slot. slot.start_time == start_time) slots)

unfoldable pub resolve_schedule_slot_details :
    Db
    → Option ℕ
    → Option ℕ
    → Option ℕ
    → Option SlotType
    → Option ActivityScheduleSlot
    → ScheduleSlotResolution
unfolding candidate_slots_for_booking choose_slot
resolve_schedule_slot_details db none travel_date start_time type fallback =
    alias_slot fallback true false
resolve_schedule_slot_details db (some activity) travel_date start_time type fallback =
    choose_slot (candidate_slots_for_booking db activity travel_date type) start_time fallback

unfoldable pub resolve_schedule_slot :
    Db
    → Option ℕ
    → Option ℕ
    → Option ℕ
    → Option SlotType
    → Option ActivityScheduleSlot
    → Option ActivityScheduleSlot
unfolding resolve_schedule_slot_details
resolve_schedule_slot db activity travel_date start_time type fallback =
    (resolve_schedule_slot_details db activity travel_date start_time type fallback).slot
