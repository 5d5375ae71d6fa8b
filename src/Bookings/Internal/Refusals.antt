-- ===== src/Bookings/Internal/Refusals.antt =====
-- When `create_internal_booking` refuses.
use ticketmirror.Base.{
  String, ◌≡◌, refl, Bool, true, false, not, ◌&&◌, some, if◌then◌else◌, Bool-cases, inl, inr,
}
use ticketmirror.Base.Int.{is_negative}
use ticketmirror.Base.Result.{ok, err}
use ticketmirror.Data.{Db, ActivityScheduleSlot}
use ticketmirror.Bookings.Errors.{capacity_exceeded}
use ticketmirror.Bookings.Reviews.{has_text}
use ticketmirror.Bookings.Internal.{
  Request, slot_row, check_request, projected_remaining, create_internal_booking,
}

-- Over capacity only an admin with a reason may book; otherwise the travelers must fit.
abbrev pub is_permitted : Db → Request → ActivityScheduleSlot → Bool
is_permitted db r slot =
    if r.allow_overcapacity
    then r.admin && has_text r.override_reason
    else not (is_negative (projected_remaining db r slot))

pub check_request_ok :
    (db : Db) (r : Request) (slot : ActivityScheduleSlot)
    → is_permitted db r slot ≡ true
    → check_request db r slot ≡ ok tt
unfolding check_request
check_request_ok db r slot h = elim (Bool-cases r.allow_overcapacity) [
  | inl a ↦ elim (Bool-cases r.admin) [
    | inl m ↦ elim (Bool-cases (has_text r.override_reason)) [
      | inl t ↦ elim (Bool-cases (is_negative (projected_remaining db r slot))) [
        | inl n ↦ rw (a, m, t, n) refl
        | inr n ↦ rw (a, m, t, n) refl
      ]
      | inr t ↦ let q : false ≡ true = rw (a, m, t) at h in cc
    ]
    | inr m ↦ let q : false ≡ true = rw (a, m) at h in cc
  ]
  | inr a ↦ elim (Bool-cases (is_negative (projected_remaining db r slot))) [
    | inl n ↦ let q : false ≡ true = rw (a, n) at h in cc
    | inr n ↦ rw (a, n) refl
  ]
]

check_request_err :
    (db : Db) (r : Request) (slot : ActivityScheduleSlot)
    → is_permitted db r slot ≡ false
    → (m : String) × (check_request db r slot ≡ err (capacity_exceeded m))
unfolding check_request
check_request_err db r slot h = elim (Bool-cases r.allow_overcapacity) [
  | inl a ↦ elim (Bool-cases r.admin) [
    | inl m ↦ elim (Bool-cases (has_text r.override_reason)) [
      | inl t ↦ let q : true ≡ false = rw (a, m, t) at h in cc
      | inr t ↦ ("A capacity override reason is required.", rw (a, m, t) refl)
    ]
    | inr m ↦ ("Only admins can override slot capacity.", rw (a, m) refl)
  ]
  | inr a ↦ elim (Bool-cases (is_negative (projected_remaining db r slot))) [
    | inl n ↦ ("This booking would exceed the slot capacity.", rw (a, n) refl)
    | inr n ↦ let q : true ≡ false = rw (a, n) at h in cc
  ]
]

-- Without the admin's reasoned override a booking that would leave less than nothing of an existing
-- slot is refused, and so is an override that is not an admin's or has no reason.
pub create_internal_booking-refused :
    (db : Db) (r : Request) (slot : ActivityScheduleSlot)
    → slot_row db r.schedule_slot ≡ some slot
    → is_permitted db r slot ≡ false
    → (m : String) × (create_internal_booking db r ≡ err (capacity_exceeded m))
unfolding create_internal_booking
create_internal_booking-refused db r slot e h =
    let (m, q) = check_request_err db r slot h in (m, rw e (rw q refl))
