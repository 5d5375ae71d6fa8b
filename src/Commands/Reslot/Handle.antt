-- ===== src/Commands/Reslot/Handle.antt =====
-- `Command.handle` of reslot_bookings: the bookings of the query, one after the other.
use ticketmirror.Base.{
  ℕ, ◌+◌, Bool, true, not, ◌&&◌, Option, none, some, List, [], ◌∷◌, leb, filter, take, is_some,
}
use ticketmirror.Base.Int.{ℤ, pos_part}
use ticketmirror.Base.Order.{lex}
use ticketmirror.Base.Result.{Result, ok, err}
use ticketmirror.Base.Sort.{sort}
use ticketmirror.Data.{Db, Booking, as_ref, as_date, as_time}
use ticketmirror.Bookings.Errors.{ServiceError}
use ticketmirror.Bookings.Capacity.{status_in, is_excluded_capacity}
use ticketmirror.Commands.Reslot.{Outcome, Reslotted, reslot_booking}

-- The options, with `--since` as a date.
pub record Options : Type 0 where
  pub since : Option ℕ
  pub limit : Option ℤ
  pub dry_run : Bool

pub record Stats : Type 0 where
  pub scanned : ℕ
  pub reslotted : ℕ
  pub unchanged : ℕ
  pub no_match : ℕ
  pub skipped_manual : ℕ

-- A missing date counts as 0, but the query has none.
abbrev pub date_or_0 : Option ℕ → ℕ
date_or_0 none = 0
date_or_0 (some d) = d

abbrev pub travel_date : Booking → ℕ
travel_date b = date_or_0 (as_date (b.columns "active_travel_date"))

unfoldable pub is_placed : Booking → Bool
unfolding status_in
is_placed b =
    is_some (as_ref (b.columns "activity"))
    && (is_some (as_date (b.columns "active_travel_date"))
        && (is_some (as_time (b.columns "active_start_time"))
            && not (status_in is_excluded_capacity b)))

abbrev pub is_since : Option ℕ → Booking → Bool
is_since none b = true
is_since (some d) b = leb d (travel_date b)

unfoldable pub earlier : Booking → Booking → Bool
earlier x y = lex (travel_date x) (travel_date y) (leb x.id y.id)

-- `queryset[: max(limit, 0)]`
abbrev pub limited : Option ℤ → List Booking → List Booking
limited none rows = rows
limited (some limit) rows = take (pos_part limit) rows

unfoldable pub queryset : Db → Options → List Booking
unfolding is_placed earlier sort
queryset db options =
    limited options.limit
      (sort earlier (filter (λ b. is_placed b && is_since options.since b) db.bookings))

abbrev pub count_outcome : Outcome → Stats → Stats
count_outcome Outcome.reslotted s = record s { reslotted = s.reslotted + 1 }
count_outcome Outcome.unchanged s = record s { unchanged = s.unchanged + 1 }
count_outcome Outcome.no_match s = record s { no_match = s.no_match + 1 }
count_outcome Outcome.skipped_manual s = record s { skipped_manual = s.skipped_manual + 1 }

abbrev pub scan_one : Stats → Stats
scan_one s = record s { scanned = s.scanned + 1 }

-- A booking that raised counts as one without a match; its transaction was undone.
abbrev pub count_result : Db → Stats → Result ServiceError Reslotted → Stats × Db
count_result db s (err e) = (count_outcome Outcome.no_match s, db)
count_result db s (ok r) = (count_outcome r.outcome s, r.db)

unfoldable pub handle_each : Db → Stats → Bool → List Booking → Stats × Db
unfolding reslot_booking
handle_each db s dry_run [] = (s, db)
handle_each db s dry_run (b ∷ bs) =
    let step = count_result db (scan_one s) (reslot_booking db b dry_run) in
    handle_each step.1 step.0 dry_run bs

abbrev pub no_stats : Stats
no_stats = record { scanned = 0; reslotted = 0; unchanged = 0; no_match = 0; skipped_manual = 0 }

unfoldable pub handle : Db → Options → Stats × Db
unfolding handle_each queryset
handle db options = handle_each db no_stats options.dry_run (queryset db options)
