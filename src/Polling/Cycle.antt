-- ===== src/Polling/Cycle.antt =====
-- `poll_gmail_once`: one cycle of a poller on its mailbox, from taking the lease to releasing it.
use ticketmirror.Base.{
  ℕ, ◌+◌, String, Bool, true, false, Option, none, some, List, ◌==◌, if◌then◌else◌, ltb,
}
use ticketmirror.Base.Int.{ℤ, pos_part, neg_part}
use ticketmirror.Base.Result.{Result, ok, err}
use ticketmirror.Core.Privacy.{Patterns}
use ticketmirror.Data.{Db}
use ticketmirror.Bookings.Errors.{ServiceError}
use ticketmirror.Bookings.Reviews.{has_text}
use ticketmirror.Gmail.Client.{
  Fault, http_error, other_error, HistoryPages, History, Server, list_history, list_recent_messages,
}
use ticketmirror.Ingestion.Environment.{Environment}
use ticketmirror.Ingestion.Process.{Reading}
use ticketmirror.Ingestion.Store.{Payload}
use ticketmirror.Polling.Decimal.{int, str}

-- `max(a, b)`: the first where they are equal.
unfoldable pub max_int : ℤ → ℤ → ℤ
max_int a b = if ltb (pos_part a + neg_part b) (pos_part b + neg_part a) then b else a

-- `str(max(int(current), int(candidate)))`; a ValueError gives the candidate.
unfoldable pub newer_number : String → Option ℤ → Option ℤ → String
unfolding str max_int
newer_number candidate (some a) (some b) = str (max_int a b)
newer_number candidate _ _ = candidate

unfoldable pub newer_history_id : Option String → Option String → Option String
unfolding newer_number int
newer_history_id current none = current
newer_history_id none (some candidate) = if has_text candidate then some candidate else none
newer_history_id (some current) (some candidate) =
    if has_text candidate
    then (if has_text current
        then some (newer_number candidate (int current) (int candidate))
        else some candidate)
    else some current

-- The Gmail API: the pages of recent messages, the pages of the history, and one message.
pub record GmailClient : Type 0 where
  pub recent : Server
  pub history : String → HistoryPages
  pub fetch_message : String → Result Fault Payload

pub record Counts : Type 0 where
  pub fetched : ℕ
  pub stored : ℕ
  pub processed : ℕ
  pub deduped : ℕ
  pub failed : ℕ
  pub skipped : ℕ

pub record Listing : Type 0 where
  pub message_ids : List String
  pub latest_history_id : Option String
  pub fallback_used : Bool

-- What the messages of the cycle change.
pub record Cycle : Type 0 where
  pub counts : Counts
  pub latest_history_id : Option String
  pub db : Db

-- The arguments of the poll, and what it takes from outside: `describe` is `str(exc)`.
pub record Poll : Type 0 where
  pub client : GmailClient
  pub mailbox : String
  pub limit : ℤ
  pub process : Bool
  pub force_recent : Bool
  pub env : Environment
  pub reading : Reading
  pub patterns : Patterns
  pub describe : ServiceError → String

abbrev pub recent_listing : Result Fault (List String) → Result Fault Listing
recent_listing (err e) = err e
recent_listing (ok ids) =
    ok (record { message_ids = ids; latest_history_id = none; fallback_used = true })

unfoldable pub list_recent : Poll → Result Fault Listing
unfolding list_recent_messages
list_recent p = recent_listing (list_recent_messages p.client.recent p.limit)

abbrev pub is_not_found : Fault → Bool
is_not_found (http_error status message) = status == 404
is_not_found (other_error message) = false

abbrev pub history_listing :
    Result Fault Listing → String → Result Fault History → Result Fault Listing
history_listing recent start (err e) = if is_not_found e then recent else err e
history_listing recent start (ok h) = ok (record {
  message_ids = h.message_ids;
  latest_history_id = some (if has_text h.history_id then h.history_id else start);
  fallback_used = false;
})

unfoldable pub list_from : Poll → Option String → Result Fault Listing
unfolding list_recent list_history
list_from p none = list_recent p
list_from p (some start) =
    if has_text start
    then history_listing (list_recent p) start (list_history p.client.history start)
    else list_recent p

unfoldable pub list_messages : Poll → Option String → Result Fault Listing
unfolding list_recent list_from
list_messages p start = if p.force_recent then list_recent p else list_from p start
