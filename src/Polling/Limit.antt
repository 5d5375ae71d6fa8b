-- ===== src/Polling/Limit.antt =====
-- `poll_gmail_once` with a history that lists more messages than its limit.
use ticketmirror.Base.{
  ◌≡◌, refl, sym, ◌∙◌, ap, String, Bool, true, false, Option, none, some, List, [], ◌∷◌, take, inl,
  inr, if◌then◌else◌, Bool-cases,
}
use ticketmirror.Base.Int.{pos_part}
use ticketmirror.Base.Result.{Result, ok, err}
use ticketmirror.Data.{Db, RawEmail}
use ticketmirror.Bookings.Errors.{ServiceError}
use ticketmirror.Bookings.Reviews.{has_text}
use ticketmirror.Gmail.Client.{Fault, HistoryPages, History, list_history}
use ticketmirror.Ingestion.Process.{Outcome}
use ticketmirror.Ingestion.Store.{Payload, awaits}
use ticketmirror.Ingestion.Failed.{Ended, ended, raised}
use ticketmirror.Polling.Lock.{SyncState, can_acquire, acquire_poll_lock}
use ticketmirror.Polling.Cycle.{Poll, Cycle, Listing, list_from, list_messages}
use ticketmirror.Polling.Messages.{
  Round, going, stopped, and_then, after_failure, after_processing, process_message, store_message,
  after_fetch, after_lookup, poll_message, poll_messages, poll_listing,
}
use ticketmirror.Polling.Poll.{Polled, finish_cycle, synced, released, poll_with, poll_gmail_once}

-- The poll on a server with another history.
abbrev pub with_history : Poll → (String → HistoryPages) → Poll
with_history p pages = record p { client = record (p.client) { history = pages } }

and_then-same :
    {f g : Cycle → Round} → (r : Round) → ((c : Cycle) → f c ≡ g c) → and_then r f ≡ and_then r g
and_then-same (going c) h = h c
and_then-same (stopped e db) h = refl

-- The loop over the messages, on another history.
module _ (p : Poll) (pages : String → HistoryPages) where
  after_failure-with_history :
      (c : Cycle) (r : Ended ServiceError)
      → after_failure (with_history p pages) c r ≡ after_failure p c r
  unfolding after_failure
  after_failure-with_history c (ended db) = refl
  after_failure-with_history c (raised e db) = refl

  after_processing-with_history :
      (c : Cycle) (raw : RawEmail) (r : Outcome)
      → after_processing (with_history p pages) c raw r ≡ after_processing p c raw r
  unfolding after_processing
  after_processing-with_history c raw (ok r) = refl
  after_processing-with_history c raw (err e) = after_failure-with_history c _

  process_message-with_history :
      (c : Cycle) (raw : RawEmail)
      → process_message (with_history p pages) c raw ≡ process_message p c raw
  unfolding process_message
  process_message-with_history c raw = elim (Bool-cases p.process) [
    | inl t ↦ rw t (after_processing-with_history c raw _)
    | inr f ↦ rw f refl
  ]

  after_fetch-with_history :
      (c : Cycle) (r : Result Fault Payload)
      → after_fetch (with_history p pages) c r ≡ after_fetch p c r
  unfolding after_fetch store_message
  after_fetch-with_history c (err e) = refl
  after_fetch-with_history c (ok m) = rw process_message-with_history refl

  after_lookup-with_history :
      (c : Cycle) (id : String) (found : Option RawEmail)
      → after_lookup (with_history p pages) c id found ≡ after_lookup p c id found
  unfolding after_lookup
  after_lookup-with_history c id none = rw after_fetch-with_history refl
  after_lookup-with_history c id (some raw) = elim (Bool-cases (awaits raw.parse_status)) [
    | inl t ↦ rw (t, after_fetch-with_history) refl
    | inr f ↦ rw f refl
  ]

  poll_message-with_history :
      (c : Cycle) (id : String) → poll_message (with_history p pages) c id ≡ poll_message p c id
  unfolding poll_message
  poll_message-with_history c id = rw after_lookup-with_history refl

  poll_messages-with_history :
      (c : Cycle) (ids : List String)
      → poll_messages (with_history p pages) c ids ≡ poll_messages p c ids
  unfolding poll_messages
  poll_messages-with_history c [] = refl
  poll_messages-with_history c (id ∷ ids) =
      rw (poll_message-with_history c id)
        (and_then-same (poll_message p c id) (λ c'. poll_messages-with_history c' ids))

  poll_listing-with_history :
      (db : Db) (r : Result Fault Listing)
      → poll_listing (with_history p pages) db r ≡ poll_listing p db r
  unfolding poll_listing
  poll_listing-with_history db (err e) = refl
  poll_listing-with_history db (ok l) = rw poll_messages-with_history refl

  finish_cycle-with_history :
      (row : SyncState) (fallback : Bool) (r : Round)
      → finish_cycle (with_history p pages) row fallback r ≡ finish_cycle p row fallback r
  unfolding finish_cycle synced
  finish_cycle-with_history row fallback (going c) = refl
  finish_cycle-with_history row fallback (stopped e db) = refl

-- Two listings of the history that agree in the messages that the limit lets through.
pub record AgreeUpTo (p : Poll) (g h : History) : Type 0 where
  pub same_cursor : g.history_id ≡ h.history_id
  pub same_front : take (pos_part p.limit) g.message_ids ≡ take (pos_part p.limit) h.message_ids

abbrev listed : String → History → Listing
listed start h = record {
  message_ids = h.message_ids;
  latest_history_id = some (if has_text h.history_id then h.history_id else start);
  fallback_used = false;
}

poll_listing-AgreeUpTo :
    (p : Poll) (db : Db) (start : String) (g h : History)
    → AgreeUpTo p g h
    → poll_listing p db (ok (listed start g)) ≡ poll_listing p db (ok (listed start h))
unfolding poll_listing
poll_listing-AgreeUpTo p db start g h a = rw (a.same_cursor, a.same_front) refl

list_messages-listed :
    (p : Poll) (start : String) (h : History)
    → p.force_recent ≡ false
    → has_text start ≡ true
    → list_history p.client.history start ≡ ok h
    → list_messages p (some start) ≡ ok (listed start h)
unfolding list_messages list_from
list_messages-listed p start h q t l = rw (q, l, t) refl

abbrev run_listed : Poll → String → Db → String → SyncState → History → Polled
run_listed p token db start row h =
    released token (finish_cycle p row false (poll_listing p db (ok (listed start h))))

poll_with-listed :
    (p : Poll) (token start : String) (db : Db) (row : SyncState) (h : History)
    → row.latest_history_id ≡ some start
    → list_messages p (some start) ≡ ok (listed start h)
    → poll_with p db (some token, row) ≡ run_listed p token db start row h
unfolding poll_with
poll_with-listed p token start db row h s e = rw (s, e) refl

run_listed-with_history :
    (p : Poll) (pages : String → HistoryPages) (token start : String) (db : Db) (row : SyncState)
    (g h : History)
    → AgreeUpTo p g h
    → run_listed (with_history p pages) token db start row h ≡ run_listed p token db start row g
run_listed-with_history p pages token start db row g h a =
    rw (finish_cycle-with_history p pages row false, poll_listing-with_history p pages db)
      (ap (λ r. released token (finish_cycle p row false r))
        (sym (poll_listing-AgreeUpTo p db start g h a)))

-- Two polls of a mailbox with a history id, not forced to the recent messages, on servers whose
-- listings of the history succeed with the same history id and agree in the messages up to the
-- limit, end the same, the cursor that they save included: what the listing names beyond the limit
-- has no effect.
pub poll_gmail_once-AgreeUpTo :
    (p : Poll) (pages : String → HistoryPages) (token start : String) (db : Db) (row : SyncState)
    (g h : History)
    → p.force_recent ≡ false
    → row.latest_history_id ≡ some start
    → has_text start ≡ true
    → list_history p.client.history start ≡ ok g
    → list_history pages start ≡ ok h
    → AgreeUpTo p g h
    → poll_gmail_once (with_history p pages) token db (some row)
      ≡ poll_gmail_once p token db (some row)
unfolding poll_gmail_once acquire_poll_lock
poll_gmail_once-AgreeUpTo p pages token start db row g h q s t l m a =
    elim (Bool-cases (can_acquire p.env.now row)) [
      | inr f ↦ rw f refl
      | inl u ↦
          let row' = record row {
            poll_lock_token = some token;
            poll_lock_acquired_at = some p.env.now;
          } in
          rw u (
            poll_with-listed (with_history p pages) token start db row' h s
              (list_messages-listed (with_history p pages) start h q t m)
            ∙ run_listed-with_history p pages token start db row' g h a
            ∙ sym
                (poll_with-listed p token start db row' g s (list_messages-listed p start g q t l)))
    ]
