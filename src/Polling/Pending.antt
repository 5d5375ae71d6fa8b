-- ===== src/Polling/Pending.antt =====
-- `process_pending_raw_emails`: the stored emails that still wait, the oldest first.
pub mod Drained
use ticketmirror.Base.{
  ℕ, zero, suc, ◌+◌, String, Bool, true, false, Option, none, some, List, [], ◌∷◌, ◌==◌, leb,
  filter, take,
}
use ticketmirror.Base.Order.{lex}
use ticketmirror.Base.Result.{Result, ok, err}
use ticketmirror.Base.Sort.{sort}
use ticketmirror.Core.Privacy.{Patterns}
use ticketmirror.Data.{Db, Booking, RawEmail}
use ticketmirror.Bookings.Errors.{ServiceError}
use ticketmirror.Ingestion.Environment.{Environment}
use ticketmirror.Ingestion.Failed.{Ended, ended, raised, mark_raw_email_failed}
use ticketmirror.Ingestion.Process.{Outcome, Reading, process_raw_email}
use ticketmirror.Ingestion.Store.{awaits}

-- `order_by("received_at", "id")`
unfoldable pub older : RawEmail → RawEmail → Bool
older x y = lex x.received_at y.received_at (leb x.id y.id)

-- `if limit: queryset[:limit]`
abbrev pub up_to : Option ℕ → List RawEmail → List RawEmail
up_to none rows = rows
up_to (some zero) rows = rows
up_to (some (suc n)) rows = take (suc n) rows

unfoldable pub pending_rows : Db → Option ℕ → List RawEmail
unfolding sort older
pending_rows db limit = up_to limit (sort older (filter (λ r. awaits r.parse_status) db.raw_emails))

-- The number of the processed rows with the database, or the exception that left the loop.
pub data Drain : Type 0 where
  drained : ℕ → Db → Drain
  left : ServiceError → Db → Drain

-- What the loop takes from outside: `describe` is `str(exc)`.
pub record Worker : Type 0 where
  pub env : Environment
  pub reading : Reading
  pub patterns : Patterns
  pub describe : ServiceError → String

abbrev pub after_mark : ℕ → Ended ServiceError → Drain
after_mark n (ended db) = drained n db
after_mark n (raised e db) = left e db

unfoldable pub after_row : Worker → Db → ℕ → RawEmail → Outcome → Drain
unfolding mark_raw_email_failed
after_row w db n raw (ok r) = drained (n + 1) r.1
after_row w db n raw (err e) =
    after_mark n
      (mark_raw_email_failed w.patterns db raw (w.describe e) "Pending raw email processing failed")

abbrev pub go_on : Drain → (ℕ → Db → Drain) → Drain
go_on (drained n db) next = next n db
go_on (left e db) next = left e db

unfoldable pub process_rows : Worker → Db → ℕ → List RawEmail → Drain
unfolding after_row process_raw_email
process_rows w db n [] = drained n db
process_rows w db n (raw ∷ rows) =
    go_on (after_row w db n raw (process_raw_email w.env w.reading db raw.id))
      (λ m db'. process_rows w db' m rows)

unfoldable pub process_pending_raw_emails : Worker → Db → Option ℕ → Drain
unfolding process_rows pending_rows
process_pending_raw_emails w db limit = process_rows w db 0 (pending_rows db limit)
