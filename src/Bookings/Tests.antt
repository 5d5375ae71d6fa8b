-- ===== src/Bookings/Tests.antt =====
-- The theorems on bookings, tried on the sample database.
use ticketmirror.Base.{
  ◌≢◌, inr, ◌≤◌, ◌<◌, ◌-◌, ◌+◌, String, ◌≡◌, ◌↔◌, refl, ◌⊎◌, inl, inr, Bool, true, none, some, [],
  ◌∷◌, In, any, sum_by, arith, if◌then◌else◌,
}
use ticketmirror.Base.Int.{is_negative}
use ticketmirror.Base.Names.{sorted_names}
use ticketmirror.Base.Result.{ok, err}
use ticketmirror.Data.{
  Db, Booking, text, date_missing, fixed, ReviewQueueItem, product_mismatch, open_review, resolved,
}
use ticketmirror.Bookings.Errors.{capacity_exceeded}
use ticketmirror.Bookings.Schedules.{
  schedule_exceptions, resolve_active_schedule, resolve_schedule_slot_details,
}
use ticketmirror.Bookings.Schedules.Precedence.{Resolves, resolve_active_schedule_least}
use ticketmirror.Bookings.Schedules.Resolution.{IsSound, resolve_schedule_slot_details-IsSound}
use ticketmirror.Bookings.Capacity.{
  get_capacity_for_slot_date, blocked_pax_for_slot, get_slot_bookings, pax, unscheduled_bookings,
  is_active_for_capacity, travels_on, excluded_by_reviews, has_open_mismatch, did_not_come,
  status_in,
}
use ticketmirror.Bookings.Capacity.Blocking.{is_closing, least_capacity, blocked_pax_for_slot_lem}
use ticketmirror.Bookings.Capacity.Counting.{
  IsSplit, active_pax_lem, day_view_complete, day_view_loses,
}
use ticketmirror.Bookings.Overrides.{Values, apply_manual_override}
use ticketmirror.Bookings.Overrides.Edits.{IsEdited, apply_manual_override-IsEdited}
use ticketmirror.Bookings.Queue.{Key, create_review_item}
use ticketmirror.Bookings.Queue.OneOpen.{IsQueue, IsStored, create_review_item-IsStored}
use ticketmirror.Bookings.Internal.{
  create_internal_booking, projected_remaining, slot_row, schedule_row, activity_row,
}
use ticketmirror.Bookings.Internal.Fresh.{IsFresh}
use ticketmirror.Bookings.Internal.Refusals.{create_internal_booking-refused}
use ticketmirror.Bookings.Internal.Outcome.{IsBooked, create_internal_booking-IsBooked}
use ticketmirror.Bookings.Warnings.{warn_if_capacity_overbooked, place_of}
use ticketmirror.Bookings.Warnings.Reported.{
  IsWarned, is_overbooked_at, warn_if_capacity_overbooked-IsWarned,
}
use ticketmirror.Samples.{
  db, reviewed_db, settled_mismatch, open_date_review, request, large_request, slot, schedule,
  activity, booking, ten,
}

empty-IsQueue : IsQueue []
empty-IsQueue = record { one_open = λ k. omega arith }

fresh : IsFresh db
fresh = record { bookings = refl; reviews = refl }

create_internal_booking-IsBooked_example :
    (q : Booking × Db) × (create_internal_booking db request ≡ ok q) × IsBooked db request slot q
unfolding slot_row schedule_row activity_row projected_remaining get_capacity_for_slot_date
create_internal_booking-IsBooked_example =
    create_internal_booking-IsBooked db request slot schedule activity fresh empty-IsQueue refl refl
      refl refl refl

create_internal_booking-refused_example :
    (m : String) × (create_internal_booking db large_request ≡ err (capacity_exceeded m))
unfolding slot_row projected_remaining get_capacity_for_slot_date
create_internal_booking-refused_example =
    create_internal_booking-refused db large_request slot refl refl

blocked_pax_for_slot_lem_example :
    let es = schedule_exceptions db slot.schedule 100 in
    (blocked_pax_for_slot db slot 100 ≡ (
      if any (is_closing slot) es then slot.capacity else slot.capacity - least_capacity slot es))
    × (blocked_pax_for_slot db slot 100 ≤ slot.capacity)
blocked_pax_for_slot_lem_example = blocked_pax_for_slot_lem db slot 100

active_pax_lem_example :
    let r = get_capacity_for_slot_date db slot 100 in
    (r.active_pax ≡ sum_by pax (get_slot_bookings db 100 slot))
    × ((is_negative r.remaining ≡ true) ↔ (slot.capacity < r.active_pax + r.blocked_pax))
active_pax_lem_example = active_pax_lem db slot 100 ((_, refl), tt)

day_view_complete_example :
    In booking (unscheduled_bookings db 100) ⊎ In booking (get_slot_bookings db 100 slot)
unfolding is_active_for_capacity did_not_come status_in travels_on excluded_by_reviews
    has_open_mismatch
day_view_complete_example =
    day_view_complete db 100 slot booking (inl refl) refl refl (inr refl) refl

split : IsSplit reviewed_db booking
split = record {
  other = open_date_review;
  other_stored = inr (inl refl);
  other_of = refl;
  other_open = refl;
  mismatch = settled_mismatch;
  mismatch_stored = inl refl;
  mismatch_of = refl;
  mismatch_type = refl;
  settled = settled_one;
}
  where
    settled_one :
        (r : ReviewQueueItem)
        → In r reviewed_db.reviews
        → r.booking ≡ some booking.id
        → r.issue_type ≡ product_mismatch
        → r.status ≢ open_review
    settled_one r (inl e) own typed o = let q : resolved ≡ open_review = rw e at o in cc
    settled_one r (inr (inl e)) own typed o =
        let q : date_missing ≡ product_mismatch = rw e at typed in cc
    settled_one r (inr (inr i)) own typed o = absurd i

day_view_loses_example :
    ¬ In booking (get_slot_bookings reviewed_db 100 slot)
    × ¬ In booking (unscheduled_bookings reviewed_db 100)
unfolding is_active_for_capacity did_not_come status_in
day_view_loses_example = day_view_loses reviewed_db 100 slot booking (inl refl) refl refl refl split

resolve_active_schedule_least_example : Resolves db 2 100 (resolve_active_schedule db 2 100)
resolve_active_schedule_least_example = resolve_active_schedule_least db 2 100

resolve_schedule_slot_details-IsSound_example :
    IsSound db 2 100 ten none none
      (resolve_schedule_slot_details db (some 2) (some 100) (some ten) none none)
resolve_schedule_slot_details-IsSound_example =
    resolve_schedule_slot_details-IsSound db 2 100 ten none none

abbrev changes : Values
changes = ("language", text "de") ∷ []

apply_manual_override-IsEdited_example :
    (r : Booking × Db) × (apply_manual_override db booking changes none "by phone" ≡ ok r)
    × IsEdited db booking changes r
unfolding sorted_names
apply_manual_override-IsEdited_example =
    apply_manual_override-IsEdited db booking changes none "by phone" (refl, tt) refl

abbrev date_key : Key
date_key = record { raw_email = some 20; booking = some 7; issue_type = date_missing }

create_review_item-IsStored_example :
    IsStored db date_key (create_review_item db date_key "Booking date missing" (fixed ""))
create_review_item-IsStored_example =
    create_review_item-IsStored db date_key "Booking date missing" (fixed "") empty-IsQueue

warn_if_capacity_overbooked-IsWarned_example :
    (r : Bool × Db) × (warn_if_capacity_overbooked db booking (some 20) ≡ ok r)
    × IsWarned db booking (some 20) (is_overbooked_at db (place_of db booking)) r
warn_if_capacity_overbooked-IsWarned_example =
    warn_if_capacity_overbooked-IsWarned db booking (some 20) empty-IsQueue
