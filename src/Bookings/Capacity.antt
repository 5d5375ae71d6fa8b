-- ===== src/Bookings/Capacity.antt =====
-- The capacity of a slot on a date, of apps/bookings/services.py: which bookings count, what
-- exceptions block, and what remains.
pub mod Counting
pub mod Blocking
use ticketmirror.Base.{
  ℕ, ◌+◌, ◌-◌, String, Bool, true, false, not, ◌&&◌, ◌||◌, Option, none, some, List, [], ◌∷◌, max,
  ◌==◌, if◌then◌else◌, filter, any, sum_by,
}
use ticketmirror.Base.Int.{ℤ, pos, ◌-ℤ◌}
use ticketmirror.Data.{
  Db, Booking, Value, text, date, ref, value_eq, Status, confirmed, modified,
  pending_provider_acceptance, manual_review, cancelled, rejected, parse_failed, duplicate_ignored,
  as_status, as_num, opt_eq, ReviewQueueItem, IssueType, product_mismatch, issue_eq, is_open,
  ActivityScheduleSlot, ActivityScheduleException, ExceptionType, blocked, closed,
  override_capacity,
}
use ticketmirror.Bookings.Schedules.{exception_matches_slot, schedule_exceptions}

abbrev pub is_confirmed_capacity : Status → Bool
is_confirmed_capacity confirmed = true
is_confirmed_capacity modified = true
is_confirmed_capacity _ = false

abbrev pub is_pending_capacity : Status → Bool
is_pending_capacity pending_provider_acceptance = true
is_pending_capacity _ = false

abbrev pub is_manual_review_capacity : Status → Bool
is_manual_review_capacity manual_review = true
is_manual_review_capacity _ = false

abbrev pub is_excluded_capacity : Status → Bool
is_excluded_capacity cancelled = true
is_excluded_capacity rejected = true
is_excluded_capacity parse_failed = true
is_excluded_capacity duplicate_ignored = true
is_excluded_capacity _ = false

abbrev pub test_status : (Status → Bool) → Option Status → Bool
test_status p none = false
test_status p (some s) = p s

-- `status__in=…`
unfoldable pub status_in : (Status → Bool) → Booking → Bool
status_in p b = test_status p (as_status (b.columns "status"))

-- `attendance_status__in=EXCLUDED_ATTENDANCE_STATUSES`
unfoldable pub did_not_come : Booking → Bool
did_not_come b = value_eq (b.columns "attendance_status") (text "gelmedi")

-- `Booking.is_active_for_capacity`
unfoldable pub is_active_for_capacity : Booking → Bool
unfolding did_not_come status_in
is_active_for_capacity b = if did_not_come b then false else not (status_in is_excluded_capacity b)

abbrev pub is_review_of : Booking → ReviewQueueItem → Bool
is_review_of b r = opt_eq r.booking (some b.id)

-- `.exclude(review_items__status=OPEN, review_items__issue_type=PRODUCT_MISMATCH)`: over a to-many
-- relation Django tests each condition of an `exclude` on its own, so that the open review and the
-- mismatch review may be two rows.
unfoldable pub excluded_by_reviews : Db → Booking → Bool
excluded_by_reviews db b =
    any (λ r. is_review_of b r && is_open r.status) db.reviews
    && any (λ r. is_review_of b r && issue_eq r.issue_type product_mismatch) db.reviews

-- The same conditions in a `filter` are about one row.
unfoldable pub has_open_mismatch : Db → Booking → Bool
has_open_mismatch db b =
    any (λ r. is_review_of b r && (is_open r.status && issue_eq r.issue_type product_mismatch))
      db.reviews

unfoldable pub travels_on : ℕ → Booking → Bool
travels_on service_date b = value_eq (b.columns "active_travel_date") (date service_date)

unfoldable pub is_in_slot : ActivityScheduleSlot → Booking → Bool
is_in_slot slot b = value_eq (b.columns "schedule_slot") (ref slot.id)

-- The filters of `get_slot_bookings`.
unfoldable pub counts_for_slot : Db → ℕ → ActivityScheduleSlot → Booking → Bool
unfolding is_in_slot travels_on status_in did_not_come excluded_by_reviews
counts_for_slot db service_date slot b =
    is_in_slot slot b
    && (travels_on service_date b
        && (not (status_in is_excluded_capacity b)
            && (not (did_not_come b) && not (excluded_by_reviews db b))))

unfoldable pub get_slot_bookings : Db → ℕ → ActivityScheduleSlot → List Booking
unfolding counts_for_slot
get_slot_bookings db service_date slot = filter (counts_for_slot db service_date slot) db.bookings

abbrev pub pax : Booking → ℕ
pax b = as_num (b.columns "active_traveler_count")

-- A missing traveler count adds nothing to SQL's SUM, and an empty sum is 0.
unfoldable pub sum_pax : (Status → Bool) → List Booking → ℕ
unfolding status_in
sum_pax statuses bookings = sum_by pax (filter (status_in statuses) bookings)

abbrev pub closes : ExceptionType → Bool
closes blocked = true
closes closed = true
closes _ = false

-- The capacity that an OVERRIDE_CAPACITY exception with a capacity sets.
abbrev pub override_of : ExceptionType → Option ℕ → Option ℕ
override_of override_capacity capacity = capacity
override_of _ capacity = none

-- `blocked` is never negative, so the difference may stop at 0 under `max`.
abbrev pub raise_blocked : ActivityScheduleSlot → ℕ → Option ℕ → ℕ
raise_blocked slot seen none = seen
raise_blocked slot seen (some c) = max seen (slot.capacity - c)

-- The loop of `_blocked_pax_for_slot`.
unfoldable pub blocked_from : ActivityScheduleSlot → ℕ → List ActivityScheduleException → ℕ
unfolding exception_matches_slot
blocked_from slot seen [] = seen
blocked_from slot seen (e ∷ rest) =
    let go_on = blocked_from slot seen rest in
    let raised = raise_blocked slot seen (override_of e.exception_type e.capacity) in
    let raise_and_go_on = blocked_from slot raised rest in
    if not (exception_matches_slot e slot)
    then go_on
    else if closes e.exception_type
    then slot.capacity
    else raise_and_go_on

unfoldable pub blocked_pax_for_slot : Db → ActivityScheduleSlot → ℕ → ℕ
unfolding blocked_from schedule_exceptions
blocked_pax_for_slot db slot service_date =
    blocked_from slot 0 (schedule_exceptions db slot.schedule service_date)

-- The numbers of the dictionary that `get_capacity_for_slot_date` returns.
pub record Snapshot : Type 0 where
  pub confirmed_pax : ℕ
  pub pending_pax : ℕ
  pub manual_review_pax : ℕ
  pub active_pax : ℕ
  pub blocked_pax : ℕ
  pub capacity : ℕ
  pub remaining : ℤ

abbrev pub snapshot_of : List Booking → ℕ → ActivityScheduleSlot → Snapshot
unfolding sum_pax ◌-ℤ◌
snapshot_of bookings taken slot =
    let sure = sum_pax is_confirmed_capacity bookings in
    let asked = sum_pax is_pending_capacity bookings in
    let review = sum_pax is_manual_review_capacity bookings in
    record {
      confirmed_pax = sure;
      pending_pax = asked;
      manual_review_pax = review;
      active_pax = sure + asked + review;
      blocked_pax = taken;
      capacity = slot.capacity;
      remaining = pos slot.capacity -ℤ pos (sure + asked + review) -ℤ pos taken;
    }

unfoldable pub get_capacity_for_slot_date : Db → ActivityScheduleSlot → ℕ → Snapshot
unfolding get_slot_bookings sum_pax blocked_pax_for_slot ◌-ℤ◌
get_capacity_for_slot_date db slot service_date =
    snapshot_of (get_slot_bookings db service_date slot) (blocked_pax_for_slot db slot service_date)
      slot

unfoldable pub is_unscheduled : Db → ℕ → Booking → Bool
unfolding travels_on status_in did_not_come has_open_mismatch
is_unscheduled db service_date b =
    travels_on service_date b
    && (not (status_in is_excluded_capacity b)
        && (not (did_not_come b)
            && (value_eq (b.columns "schedule_slot") Value.null || has_open_mismatch db b)))

-- The bookings of the `Unscheduled / unmapped` row of the day view.
unfoldable pub unscheduled_bookings : Db → ℕ → List Booking
unfolding is_unscheduled
unscheduled_bookings db service_date = filter (is_unscheduled db service_date) db.bookings
