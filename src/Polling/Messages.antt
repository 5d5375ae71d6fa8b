-- ===== src/Polling/Messages.antt =====
-- The loop of `poll_gmail_once` over the messages, and the poll around it.
use ticketmirror.Base.{◌+◌, String, Option, none, some, List, [], ◌∷◌, if◌then◌else◌, find?, take}
use ticketmirror.Base.Int.{pos_part}
use ticketmirror.Base.Result.{Result, ok, err}
use ticketmirror.Data.{Db, RawEmail}
use ticketmirror.Bookings.Errors.{ServiceError}
use ticketmirror.Gmail.Client.{Fault, other_error}
use ticketmirror.Ingestion.Process.{Outcome, process_raw_email}
use ticketmirror.Ingestion.Store.{Payload, is_message, Stored, awaits, store_raw_email}
use ticketmirror.Ingestion.Failed.{Ended, ended, raised, mark_raw_email_failed}
use ticketmirror.Polling.Cycle.{newer_history_id, Counts, Listing, Cycle, Poll, is_not_found}

-- A message of the loop: the cycle goes on, or an exception leaves it with the database as it is.
pub data Round : Type 0 where
  going : Cycle → Round
  stopped : Fault → Db → Round

abbrev pub count_processed : Counts → Counts
count_processed c = record c { processed = c.processed + 1 }

abbrev pub count_failed : Counts → Counts
count_failed c = record c { failed = c.failed + 1 }

abbrev pub count_stored : Counts → Counts
count_stored c = record c { stored = c.stored + 1 }

abbrev pub count_fetched : Counts → Counts
count_fetched c = record c { fetched = c.fetched + 1 }

abbrev pub count_deduped : Counts → Counts
count_deduped c = record c { deduped = c.deduped + 1 }

abbrev pub count_skipped : Counts → Counts
count_skipped c = record c { skipped = c.skipped + 1 }

-- `except Exception` around the processing: the transaction of `process_raw_email` was undone.
unfoldable pub after_failure : Poll → Cycle → Ended ServiceError → Round
after_failure p c (ended db) = going (record c { counts = count_failed c.counts; db = db })
after_failure p c (raised e db) = stopped (other_error (p.describe e)) db

unfoldable pub after_processing : Poll → Cycle → RawEmail → Outcome → Round
unfolding after_failure mark_raw_email_failed
after_processing p c raw (ok r) = going (record c { counts = count_processed c.counts; db = r.1 })
after_processing p c raw (err e) =
    after_failure p c
      (mark_raw_email_failed p.patterns c.db raw (p.describe e) "Gmail poller processing failed")

unfoldable pub process_message : Poll → Cycle → RawEmail → Round
unfolding after_processing process_raw_email
process_message p c raw =
    if p.process
    then after_processing p c raw (process_raw_email p.env p.reading c.db raw.id)
    else going c

unfoldable pub store_message : Poll → Cycle → Stored → Round
unfolding newer_history_id process_message
store_message p c s =
    process_message p
      (record {
        counts = count_stored c.counts;
        latest_history_id = newer_history_id c.latest_history_id s.row.gmail_history_id;
        db = s.db;
      })
      s.row

unfoldable pub after_fetch : Poll → Cycle → Result Fault Payload → Round
unfolding store_message store_raw_email
after_fetch p c (err e) =
    if is_not_found e then going (record c { counts = count_skipped c.counts }) else stopped e c.db
after_fetch p c (ok payload) = store_message p c (store_raw_email c.db payload)

unfoldable pub dedupe : Cycle → RawEmail → Round
unfolding newer_history_id
dedupe c existing = going (record {
  counts = count_deduped c.counts;
  latest_history_id = newer_history_id c.latest_history_id existing.gmail_history_id;
  db = c.db;
})

unfoldable pub after_lookup : Poll → Cycle → String → Option RawEmail → Round
unfolding after_fetch dedupe
after_lookup p c id none = after_fetch p c (p.client.fetch_message id)
after_lookup p c id (some existing) =
    if awaits existing.parse_status
    then after_fetch p c (p.client.fetch_message id)
    else dedupe c existing

unfoldable pub poll_message : Poll → Cycle → String → Round
unfolding after_lookup
poll_message p c id =
    after_lookup p (record c { counts = count_fetched c.counts }) id
      (find? (is_message id) c.db.raw_emails)

abbrev pub and_then : Round → (Cycle → Round) → Round
and_then (going c) next = next c
and_then (stopped e db) next = stopped e db

unfoldable pub poll_messages : Poll → Cycle → List String → Round
unfolding poll_message
poll_messages p c [] = going c
poll_messages p c (id ∷ ids) = and_then (poll_message p c id) (λ c'. poll_messages p c' ids)

abbrev pub no_counts : Counts
no_counts = record { fetched = 0; stored = 0; processed = 0; deduped = 0; failed = 0; skipped = 0 }

-- `message_ids[: max(limit, 0)]`
unfoldable pub poll_listing : Poll → Db → Result Fault Listing → Round
unfolding poll_messages
poll_listing p db (err e) = stopped e db
poll_listing p db (ok l) =
    poll_messages p
      (record { counts = no_counts; latest_history_id = l.latest_history_id; db = db })
      (take (pos_part p.limit) l.message_ids)
