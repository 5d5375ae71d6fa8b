-- ===== src/Polling/Tests.antt =====
-- Two pollers on one mailbox: the first crashed, and the second took over after ten minutes.
use ticketmirror.Base.{
  String, In, sym, ◌∙◌, ◌≡◌, ◌≢◌, refl, ap, ◌⊎◌, inl, inr, true, false, str_eq, none, some, [], ◌∷◌,
  arith,
}
use ticketmirror.Base.Int.{pos}
use ticketmirror.Base.Result.{ok}
use ticketmirror.Core.Privacy.{Patterns}
use ticketmirror.Data.{Booking}
use ticketmirror.Gmail.Client.{HistoryPages, last, History, list_history}
use ticketmirror.Ingestion.Text.{is_space, cons_unless_blank}
use ticketmirror.Samples.{db, booking, env, reading, message}
use ticketmirror.Polling.Decimal.{int}
use ticketmirror.Polling.Cycle.{GmailClient, Poll}
use ticketmirror.Polling.Cursor.{IsLarger, newer_history_id-IsLarger}
use ticketmirror.Polling.Counted.{IsSound}
use ticketmirror.Polling.Poll.{poll_gmail_once}
use ticketmirror.Polling.Limit.{with_history, AgreeUpTo, poll_gmail_once-AgreeUpTo}
use ticketmirror.Polling.Polled.{IsPolled, poll_gmail_once-IsPolled}
use ticketmirror.Polling.Pending.{Worker, pending_rows, process_pending_raw_emails}
use ticketmirror.Polling.Pending.Drained.{
  AreWaiting, IsDrained, process_pending_raw_emails-IsDrained,
}
use ticketmirror.Polling.Recovery.{acquire_poll_lock-recovers}
use ticketmirror.Polling.Lock.{SyncState, new_state, acquire_poll_lock, can_acquire}
use ticketmirror.Polling.Exclusion.{
  Holder, System, acquires, Reachable, start, next, IsStale, acquire_poll_lock-exclusive,
}

abbrev first_row : SyncState
first_row = record (new_state) { poll_lock_token = some "a"; poll_lock_acquired_at = some 1000 }

abbrev second_row : SyncState
second_row = record (new_state) { poll_lock_token = some "b"; poll_lock_acquired_at = some 1700 }

abbrev crashed : Holder
crashed = record { token = "a"; since = 1000 }

abbrev working : Holder
working = record { token = "b"; since = 1700 }

abbrev before : System
before = record { now = 1000; row = none; holders = [] }

abbrev between : System
between = record { now = 1000; row = some first_row; holders = crashed ∷ [] }

abbrev after : System
after = record { now = 1700; row = some second_row; holders = working ∷ crashed ∷ [] }

reached : Reachable after
unfolding acquire_poll_lock can_acquire
reached =
    next between after
      (next before between (start 1000)
        (acquires before "a" 1000 first_row (omega arith) refl refl))
      (acquires between "b" 1700 second_row (omega arith) refl refl)

acquire_poll_lock-exclusive_example : IsStale 1700 crashed ⊎ IsStale 1700 working
acquire_poll_lock-exclusive_example =
    acquire_poll_lock-exclusive after crashed working reached (inr (inl refl)) (inl refl) different
  where
    different : crashed.token ≢ working.token
    different h = let q : true ≡ false = ap (str_eq "a") h in cc

every-IsStale : (h : Holder) → In h after.holders → IsStale 2400 h
every-IsStale h (inl e) = rw e (omega arith)
every-IsStale h (inr (inl e)) = rw e (omega arith)
every-IsStale h (inr (inr i)) = absurd i

acquire_poll_lock-recovers_example : (acquire_poll_lock "c" 2400 (some second_row)).0 ≡ some "c"
acquire_poll_lock-recovers_example = acquire_poll_lock-recovers after "c" 2400 reached every-IsStale

-- The API answers every request with the one message, which the history names.
abbrev client : GmailClient
client = record {
  recent = λ token most. ok (record { ids = some "m1" ∷ []; next_page_token = none });
  history = λ start. last (record { history_id = some "40"; added = some "m1" ∷ [] });
  fetch_message = λ id. ok message;
}

abbrev patterns : Patterns
patterns = record { sub_email = λ mask s. s; sub_phone = λ mask s. s; is_digit = λ c. false }

abbrev poll : Poll
poll = record {
  client = client;
  mailbox = "me";
  limit = pos 5;
  process = true;
  force_recent = false;
  env = env;
  reading = reading;
  patterns = patterns;
  describe = λ e. "";
}

only_one : (b c : Booking) → In b (booking ∷ []) → In c (booking ∷ []) → b ≡ c
only_one b c (inl p) (inl q) = p ∙ sym q
only_one b c (inl p) (inr x) = absurd x
only_one b c (inr x) j = absurd x

sound : IsSound db
sound = record {
  table = record { one_row = λ b c i j p q. ap (λ x. x.id) (only_one b c i j) };
  queue = record { one_open = λ k. omega arith };
}

poll_gmail_once-IsPolled_example : IsPolled poll "t" db none (poll_gmail_once poll "t" db none)
poll_gmail_once-IsPolled_example = poll_gmail_once-IsPolled poll "t" db none sound

read_9 : int "9" ≡ some (pos 9)
unfolding int is_space cons_unless_blank
read_9 = refl

read_10 : int "10" ≡ some (pos 10)
unfolding int is_space cons_unless_blank
read_10 = refl

-- The later text is the smaller one by characters.
newer_history_id-IsLarger_example : IsLarger "9" "10" (pos 9) (pos 10)
newer_history_id-IsLarger_example =
    newer_history_id-IsLarger "9" "10" (pos 9) (pos 10) read_9 read_10

abbrev worker : Worker
worker = record { env = env; reading = reading; patterns = patterns; describe = λ e. "" }

process_pending_raw_emails-IsDrained_example :
    AreWaiting db none
    × IsDrained (pending_rows db none) (process_pending_raw_emails worker db none)
process_pending_raw_emails-IsDrained_example =
    process_pending_raw_emails-IsDrained worker db none sound

-- Two histories that part after the first message, on a poll with a limit of one.
abbrev two_messages : String → String → HistoryPages
two_messages id from = last (record { history_id = some "40"; added = some "m1" ∷ some id ∷ [] })

abbrev two_listed : String → History
two_listed id = record { history_id = "40"; message_ids = "m1" ∷ id ∷ [] }

abbrev narrow : Poll
narrow = record poll { limit = pos 1; client = record client { history = two_messages "m2" } }

abbrev waiting_row : SyncState
waiting_row = record (new_state) { latest_history_id = some "30" }

listed_m2 : list_history (two_messages "m2") "30" ≡ ok (two_listed "m2")
unfolding list_history
listed_m2 = refl

listed_m3 : list_history (two_messages "m3") "30" ≡ ok (two_listed "m3")
unfolding list_history
listed_m3 = refl

same_front : AgreeUpTo narrow (two_listed "m2") (two_listed "m3")
same_front = record { same_cursor = refl; same_front = refl }

poll_gmail_once-AgreeUpTo_example :
    poll_gmail_once (with_history narrow (two_messages "m3")) "t" db (some waiting_row)
    ≡ poll_gmail_once narrow "t" db (some waiting_row)
poll_gmail_once-AgreeUpTo_example =
    poll_gmail_once-AgreeUpTo narrow (two_messages "m3") "t" "30" db waiting_row (two_listed "m2")
      (two_listed "m3") refl refl refl listed_m2 listed_m3 same_front
