-- ===== src/Polling/Poll.antt =====
-- `poll_gmail_once` and `sync_recent_gmail`: the lease, the cycle, and the row of the mailbox.
use ticketmirror.Base.{String, Bool, true, false, Option, none, some, if◌then◌else◌}
use ticketmirror.Base.Result.{Result, ok, err}
use ticketmirror.Data.{Db}
use ticketmirror.Bookings.Reviews.{has_text}
use ticketmirror.Gmail.Client.{Fault, http_error, other_error}
use ticketmirror.Polling.Lock.{SyncState, acquire_poll_lock, release_poll_lock}
use ticketmirror.Polling.Cycle.{Counts, Listing, Poll, list_messages}
use ticketmirror.Polling.Messages.{Round, going, stopped, no_counts, poll_listing}

pub record PollResult : Type 0 where
  pub mailbox : String
  pub counts : Counts
  pub latest_history_id : Option String
  pub fallback_used : Bool
  pub lock_skipped : Bool

-- What the poll returns or raises, with the row of the mailbox and the database.
pub record Polled : Type 0 where
  pub outcome : Result Fault PollResult
  pub row : SyncState
  pub db : Db

abbrev pub skipped_result : String → PollResult
skipped_result mailbox = record {
  mailbox = mailbox;
  counts = no_counts;
  latest_history_id = none;
  fallback_used = false;
  lock_skipped = true;
}

-- `latest_history_id or state.latest_history_id`
abbrev pub latest_or : Option String → Option String → Option String
latest_or none old = old
latest_or (some latest) old = if has_text latest then some latest else old

-- `state.save(…)` after a cycle
unfoldable pub synced : Poll → Option String → SyncState → SyncState
synced p latest row = record row {
  latest_history_id = latest_or latest row.latest_history_id;
  last_successful_sync = some p.env.now;
  last_error = none;
}

-- `str(exc)`
abbrev pub text_of : Fault → String
text_of (http_error status message) = message
text_of (other_error message) = message

abbrev pub fell_back : Result Fault Listing → Bool
fell_back (err e) = false
fell_back (ok l) = l.fallback_used

unfoldable pub finish_cycle : Poll → SyncState → Bool → Round → Polled
unfolding synced
finish_cycle p row fallback (going c) =
    let row' = synced p c.latest_history_id row in
    record {
      outcome = ok (record {
        mailbox = p.mailbox;
        counts = c.counts;
        latest_history_id = row'.latest_history_id;
        fallback_used = fallback;
        lock_skipped = false;
      });
      row = row';
      db = c.db;
    }
finish_cycle p row fallback (stopped e db) = record {
  outcome = err e;
  row = record row { last_error = some (text_of e) };
  db = db;
}

-- `finally: _release_poll_lock(mailbox, token)`
abbrev pub released : String → Polled → Polled
released token r = record r { row = release_poll_lock token r.row }

unfoldable pub poll_with : Poll → Db → Option String × SyncState → Polled
unfolding finish_cycle poll_listing list_messages release_poll_lock
poll_with p db (none, row) = record { outcome = ok (skipped_result p.mailbox); row = row; db = db }
poll_with p db (some token, row) =
    let listing = list_messages p row.latest_history_id in
    released token (finish_cycle p row (fell_back listing) (poll_listing p db listing))

-- `token` is the new UUID; the row is that of the mailbox, if there is one.
unfoldable pub poll_gmail_once : Poll → String → Db → Option SyncState → Polled
unfolding poll_with acquire_poll_lock
poll_gmail_once p token db row = poll_with p db (acquire_poll_lock token p.env.now row)

unfoldable pub sync_recent_gmail : Poll → String → Db → Option SyncState → Polled
unfolding poll_gmail_once
sync_recent_gmail p token db row =
    poll_gmail_once (record p { process = true; force_recent = true }) token db row
