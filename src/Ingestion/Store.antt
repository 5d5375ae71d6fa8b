-- ===== src/Ingestion/Store.antt =====
-- `store_raw_email` and `process_gmail_message`: a fetched message becomes a row, once.
pub mod Once
use ticketmirror.Base.{
  ℕ, ◌+◌, String, Bool, true, false, Option, none, some, List, [], ◌∷◌, ◌++◌, ◌==◌, str_eq, find?,
  map, if◌then◌else◌,
}
use ticketmirror.Base.Result.{Result, ok, err, ◌>>=◌}
use ticketmirror.Data.{
  Db, Booking, RawEmail, ParseStatus, pending, parsed, failed, ignored, needs_review,
}
use ticketmirror.Bookings.Errors.{ServiceError}
use ticketmirror.Bookings.Reviews.{has_text}
use ticketmirror.Ingestion.Environment.{Environment}
use ticketmirror.Ingestion.Process.{Reading, process_raw_email}

-- The message, with the sender that `extract_forwarded_headers` finds in its text. (The HTML body is
-- stored and never read by the services.)
pub record Payload : Type 0 where
  pub gmail_message_id : String
  pub gmail_thread_id : Option String
  pub gmail_history_id : Option String
  pub gmail_outer_sender : String
  pub original_forwarded_sender : Option String
  pub forwarded_sender : Option String
  pub subject : String
  pub received_at : ℕ
  pub body_text : String

abbrev pub text_or : Option String → Option String → Option String
text_or none other = other
text_or (some s) other = if has_text s then some s else other

-- The `defaults` of `update_or_create`: the status and the provider are not among them.
unfoldable pub with_payload : Payload → RawEmail → RawEmail
with_payload p raw = record raw {
  gmail_thread_id = p.gmail_thread_id;
  gmail_history_id = p.gmail_history_id;
  gmail_outer_sender = p.gmail_outer_sender;
  original_forwarded_sender = text_or p.original_forwarded_sender p.forwarded_sender;
  subject = p.subject;
  received_at = p.received_at;
  body_text = p.body_text;
}

unfoldable pub new_raw_email : ℕ → Payload → RawEmail
unfolding with_payload
new_raw_email id p = with_payload p (record {
  id = id;
  gmail_message_id = p.gmail_message_id;
  gmail_thread_id = none;
  gmail_history_id = none;
  gmail_outer_sender = "";
  original_forwarded_sender = none;
  subject = "";
  received_at = 0;
  body_text = "";
  provider_detected = none;
  parse_status = pending;
  parse_error = none;
  parser_version = none;
})

abbrev pub is_message : String → RawEmail → Bool
is_message message r = str_eq r.gmail_message_id message

-- The row, and whether it was created.
pub record Stored : Type 0 where
  pub row : RawEmail
  pub created : Bool
  pub db : Db

unfoldable pub store_found : Db → Payload → Option RawEmail → Stored
unfolding with_payload new_raw_email
store_found db p none =
    let r = new_raw_email db.next_id p in
    record {
      row = r;
      created = true;
      db = record db { raw_emails = db.raw_emails ++ r ∷ []; next_id = db.next_id + 1 };
    }
store_found db p (some old) =
    let r = with_payload p old in
    record {
      row = r;
      created = false;
      db = record db { raw_emails = map (λ x. if x.id == old.id then r else x) db.raw_emails };
    }

unfoldable pub store_raw_email : Db → Payload → Stored
unfolding store_found
store_raw_email db p = store_found db p (find? (is_message p.gmail_message_id) db.raw_emails)

abbrev pub awaits : ParseStatus → Bool
awaits pending = true
awaits _ = false

abbrev pub to_process : Bool → ParseStatus → Bool
to_process true status = true
to_process false status = awaits status

-- `refresh_from_db` reads the row again.
unfoldable pub process_stored :
    Environment → Reading → Stored → Result ServiceError (Option RawEmail × Db)
unfolding process_raw_email
process_stored env reading s = do
  r ← process_raw_email env reading s.db s.row.id
  ok (find? (λ x. x.id == s.row.id) r.1.raw_emails, r.1)

unfoldable pub process_gmail_message :
    Environment → Reading → Db → Payload → Result ServiceError (Option RawEmail × Db)
unfolding store_raw_email process_stored
process_gmail_message env reading db p =
    let s = store_raw_email db p in
    if to_process s.created s.row.parse_status
    then process_stored env reading s
    else ok (some s.row, s.db)
