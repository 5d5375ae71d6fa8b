-- ===== src/Commands/Tests.antt =====
-- The commands on the sample database.
use ticketmirror.Base.Int.{pos}
use ticketmirror.Base.{
  ◌≡◌, refl, sym, ap, ◌∙◌, true, false, inl, inr, none, some, [], ◌∷◌, In, arith,
}
use ticketmirror.Base.Result.{ok}
use ticketmirror.Data.{Db, Booking, ReviewQueueItem, ref, date, time, status, confirmed}
use ticketmirror.Bookings.Queue.OneOpen.{IsQueue}
use ticketmirror.Bookings.Reviews.{has_text}
use ticketmirror.Ingestion.Process.{Reading}
use ticketmirror.Samples.{db, reviewed_db, booking, slot, env, reading, raw, columns_of, ten}
use ticketmirror.Commands.Reslot.{unchanged, reslotted, reslot_booking, outcome_only, move_slot}
use ticketmirror.Commands.Reslot.Stable.{reslot_booking-stable}
use ticketmirror.Commands.Reslot.Handle.{Options, handle}
use ticketmirror.Commands.Reslot.Handled.{IsHandled, handle-IsHandled}
use ticketmirror.Commands.Stale.{Reclassified, not_ignored, reclassify_non_booking_email}
use ticketmirror.Commands.Stale.Same.{IsSame, reclassify_non_booking_email-IsSame}
use ticketmirror.Commands.Stale.Sweep.{sweep_open}
use ticketmirror.Commands.Stale.Swept.{IsSwept, sweep_open-IsSwept}

-- The booking, in a slot that is not there.
abbrev misplaced : Booking
misplaced = record (booking) {
  columns = columns_of (
      ("status", status confirmed)
      ∷ ("activity", ref 2)
      ∷ ("schedule_slot", ref 99)
      ∷ ("active_travel_date", date 100)
      ∷ ("active_start_time", time ten)
      ∷ []);
}

moves : reslot_booking db misplaced false ≡ ok (move_slot db misplaced slot)
unfolding reslot_booking
moves = refl

is_reslotted : (move_slot db misplaced slot).outcome ≡ reslotted
unfolding move_slot
is_reslotted = refl

reslot_booking-stable_example :
    reslot_booking (move_slot db misplaced slot).db (move_slot db misplaced slot).booking false
    ≡ outcome_only unchanged (move_slot db misplaced slot).booking (move_slot db misplaced slot).db
reslot_booking-stable_example =
    reslot_booking-stable db misplaced 2 ten (move_slot db misplaced slot) refl refl moves
      is_reslotted

only_one : (b c : Booking) → In b (booking ∷ []) → In c (booking ∷ []) → b.id ≡ c.id → b ≡ c
only_one b c (inl p) (inl q) e = p ∙ sym q
only_one b c (inl p) (inr x) e = absurd x
only_one b c (inr x) j e = absurd x

empty-IsQueue : IsQueue []
empty-IsQueue = record { one_open = λ k. omega arith }

abbrev options : Options
options = record { since = none; limit = none; dry_run = false }

handle-IsHandled_example : IsHandled db options (handle db options)
handle-IsHandled_example = handle-IsHandled db options only_one empty-IsQueue

abbrev ignoring : Reading
ignoring = record (reading) { ignore_reason = λ r. "a newsletter" }

reclassify_non_booking_email-IsSame_example :
    (r : Reclassified × Db) × (reclassify_non_booking_email env ignoring db 20 ≡ ok r)
    × (has_text "a newsletter" ≡ false → r ≡ (not_ignored, db))
    × (has_text "a newsletter" ≡ true → IsSame env db raw "a newsletter" r)
reclassify_non_booking_email-IsSame_example =
    reclassify_non_booking_email-IsSame env ignoring db 20 raw refl

two_reviews :
    (x y : ReviewQueueItem)
    → In x reviewed_db.reviews
    → In y reviewed_db.reviews
    → x.id ≡ y.id
    → x ≡ y
two_reviews x y (inl p) (inl q) e = p ∙ sym q
two_reviews x y (inr (inl p)) (inr (inl q)) e = p ∙ sym q
two_reviews x y (inl p) (inr (inl q)) e =
    absurd (omega (arith, e, ap (λ z. z.id) p, ap (λ z. z.id) q))
two_reviews x y (inr (inl p)) (inl q) e =
    absurd (omega (arith, e, ap (λ z. z.id) p, ap (λ z. z.id) q))
two_reviews x y (inr (inr i)) j e = absurd i
two_reviews x y (inl p) (inr (inr j)) e = absurd j
two_reviews x y (inr (inl p)) (inr (inr j)) e = absurd j

sweep_open-IsSwept_example :
    IsSwept 1000 reviewed_db (some (pos 1)) (sweep_open 1000 reviewed_db (some (pos 1)))
sweep_open-IsSwept_example = sweep_open-IsSwept 1000 reviewed_db (some (pos 1)) two_reviews
