-- ===== src/Commands/Stale/Handle.antt =====
-- `Command.handle` of resolve_stale_booking_reviews: first the emails, then the reviews.
use ticketmirror.Base.{ℕ, ◌+◌, Bool, true, false, Option, none, some, List, [], ◌∷◌, leb, take}
use ticketmirror.Base.Int.{ℤ, pos_part}
use ticketmirror.Base.Order.{lex}
use ticketmirror.Base.Result.{Result, ok, err}
use ticketmirror.Base.Sort.{sort}
use ticketmirror.Data.{Db, RawEmail}
use ticketmirror.Bookings.Errors.{ServiceError}
use ticketmirror.Ingestion.Environment.{Environment}
use ticketmirror.Ingestion.Process.{Reading}
use ticketmirror.Commands.Stale.{Reclassified, reclassify_non_booking_email}
use ticketmirror.Commands.Stale.Sweep.{Sweep, sweep_open}

pub record EmailStats : Type 0 where
  pub raw_scanned : ℕ
  pub raw_ignored : ℕ
  pub raw_resolved_reviews : ℕ
  pub cancelled_bookings : ℕ
  pub failed : ℕ

-- `if result["ignored"]: …`
abbrev pub add_reclassified : EmailStats → Reclassified → EmailStats
add_reclassified s r = if_ignored r.ignored
  where
    if_ignored : Bool → EmailStats
    if_ignored false = s
    if_ignored true = record s {
      raw_ignored = s.raw_ignored + 1;
      raw_resolved_reviews = s.raw_resolved_reviews + r.resolved_reviews;
      cancelled_bookings = s.cancelled_bookings + r.cancelled_bookings;
    }

abbrev pub scan_email : EmailStats → EmailStats
scan_email s = record s { raw_scanned = s.raw_scanned + 1 }

-- An email that raised is counted as failed; its transaction was undone.
abbrev pub count_email : Db → EmailStats → Result ServiceError (Reclassified × Db) → EmailStats × Db
count_email db s (err e) = (record s { failed = s.failed + 1 }, db)
count_email db s (ok r) = (add_reclassified s r.0, r.1)

unfoldable pub sweep_emails :
    Environment → Reading → Db → EmailStats → List RawEmail → EmailStats × Db
unfolding reclassify_non_booking_email
sweep_emails env reading db s [] = (s, db)
sweep_emails env reading db s (raw ∷ rows) =
    let step = count_email db (scan_email s) (reclassify_non_booking_email env reading db raw.id) in
    sweep_emails env reading step.1 step.0 rows

-- `order_by("received_at", "id")`
unfoldable pub received_first : RawEmail → RawEmail → Bool
received_first x y = lex x.received_at y.received_at (leb x.id y.id)

abbrev pub emails_up_to : Option ℤ → List RawEmail → List RawEmail
emails_up_to none rows = rows
emails_up_to (some limit) rows = take (pos_part limit) rows

abbrev pub no_emails : EmailStats
no_emails = record {
  raw_scanned = 0;
  raw_ignored = 0;
  raw_resolved_reviews = 0;
  cancelled_bookings = 0;
  failed = 0;
}

unfoldable pub resolve_stale : Environment → Reading → Db → Option ℤ → EmailStats × Sweep × Db
unfolding sweep_emails sweep_open received_first sort
resolve_stale env reading db limit =
    let emails =
      sweep_emails env reading db no_emails
        (emails_up_to limit (sort received_first db.raw_emails)) in
    let reviews = sweep_open env.now emails.1 limit in (emails.0, reviews.0, reviews.1)
