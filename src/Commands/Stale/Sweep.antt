-- ===== src/Commands/Stale/Sweep.antt =====
-- The second loop of the command, over the open reviews.
use ticketmirror.Base.{
  ℕ, ◌+◌, Bool, true, false, ◌&&◌, Option, none, some, List, [], ◌∷◌, ◌==◌, if◌then◌else◌, filter,
  map, take, is_some,
}
use ticketmirror.Base.Int.{ℤ, pos_part}
use ticketmirror.Data.{Db, Booking, BookingEvent, ReviewQueueItem, is_open, opt_eq}
use ticketmirror.Bookings.Reviews.{review_issue_is_obsolete_for_context}
use ticketmirror.Ingestion.Followup.{row_of_booking, row_of_email}
use ticketmirror.Commands.Stale.{closed}

-- `filter(raw_email=raw_email, booking__isnull=False)`
abbrev pub is_linked : ℕ → BookingEvent → Bool
is_linked raw_id e = opt_eq e.raw_email (some raw_id) && is_some e.booking

-- `order_by("-created_at", "-id").first()`: events are stored in the order in which they are made.
abbrev pub last_event : Option BookingEvent → List BookingEvent → Option BookingEvent
last_event found [] = found
last_event found (e ∷ es) = last_event (some e) es

abbrev pub booking_of_event : Db → Option BookingEvent → Option Booking
booking_of_event db none = none
booking_of_event db (some e) = row_of_booking db e.booking

-- `_booking_from_raw_email`
abbrev pub booking_from_raw_email : Db → Option ℕ → Option Booking
booking_from_raw_email db none = none
booking_from_raw_email db (some raw_id) =
    booking_of_event db (last_event none (filter (is_linked raw_id) db.events))

-- `_is_obsolete`
unfoldable pub is_obsolete : Db → ReviewQueueItem → Bool
unfolding review_issue_is_obsolete_for_context
is_obsolete db r =
    review_issue_is_obsolete_for_context db r.issue_type r.title (row_of_email db r.raw_email)
      (row_of_booking db r.booking) (booking_from_raw_email db r.raw_email)

pub record Sweep : Type 0 where
  pub scanned : ℕ
  pub resolved : ℕ
  pub unchanged : ℕ

-- `review.save(update_fields=["status", "resolved_at"])`
unfoldable pub close_review : ℕ → Db → ReviewQueueItem → Db
close_review now db review = record db {
  reviews = map (λ r. if r.id == review.id then closed now r else r) db.reviews;
}

abbrev pub count_stale : Bool → Sweep → Sweep
count_stale true s = record s { scanned = s.scanned + 1; resolved = s.resolved + 1 }
count_stale false s = record s { scanned = s.scanned + 1; unchanged = s.unchanged + 1 }

-- `_resolve_if_stale` on each review of the query, which was read before the loop.
unfoldable pub sweep_reviews : ℕ → Db → Sweep → List ReviewQueueItem → Sweep × Db
unfolding is_obsolete close_review
sweep_reviews now db s [] = (s, db)
sweep_reviews now db s (r ∷ rs) =
    let stale = is_obsolete db r in
    sweep_reviews now (if stale then close_review now db r else db) (count_stale stale s) rs

-- `queryset[: max(limit, 0)]`
abbrev pub limited : Option ℤ → List ReviewQueueItem → List ReviewQueueItem
limited none rows = rows
limited (some limit) rows = take (pos_part limit) rows

abbrev pub no_sweep : Sweep
no_sweep = record { scanned = 0; resolved = 0; unchanged = 0 }

unfoldable pub sweep_open : ℕ → Db → Option ℤ → Sweep × Db
unfolding sweep_reviews
sweep_open now db limit =
    sweep_reviews now db no_sweep (limited limit (filter (λ r. is_open r.status) db.reviews))
