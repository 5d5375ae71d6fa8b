-- ===== src/Ingestion/Failed.antt =====
-- `mark_raw_email_failed`: an email whose processing raised. It runs in no transaction, so what it
-- saved stays when the review raises.
use ticketmirror.Base.{ℕ, String, none, some, [], ◌∷◌, ◌==◌, map, if◌then◌else◌}
use ticketmirror.Base.Result.{Result, ok, err}
use ticketmirror.Core.Privacy.{Patterns, mask_contact_text}
use ticketmirror.Data.{Db, RawEmail, failed, parser_error, fixed}
use ticketmirror.Bookings.Errors.{ServiceError}
use ticketmirror.Ingestion.Followup.{create_reviews}

-- The database afterwards, with the exception if one was raised.
pub data Ended (Raised : Type 0) : Type 0 where
  ended : Db → Ended Raised
  raised : Raised → Db → Ended Raised

-- `raw_email.save(update_fields=["parse_status", "parse_error", "updated_at"])`
unfoldable pub save_failed : Db → ℕ → String → Db
save_failed db id message = record db {
  raw_emails =
      map
        (λ row.
          if row.id == id
          then record row { parse_status = failed; parse_error = some message }
          else row)
        db.raw_emails;
}

abbrev pub review_ended : Db → Result ServiceError Db → Ended ServiceError
review_ended saved (err e) = raised e saved
review_ended saved (ok db) = ended db

-- `message` is `str(exc)`.
unfoldable pub mark_raw_email_failed :
    Patterns → Db → RawEmail → String → String → Ended ServiceError
unfolding save_failed create_reviews mask_contact_text
mark_raw_email_failed re db raw message title =
    let masked = mask_contact_text re 500 message in
    let saved = save_failed db raw.id masked in
    review_ended saved (
      create_reviews saved raw none
        (record { issue_type = parser_error; title = title; details = fixed masked } ∷ []))
