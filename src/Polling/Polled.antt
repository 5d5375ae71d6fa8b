-- ===== src/Polling/Polled.antt =====
-- What a poll leaves: the lease, the counts, the row of the mailbox and the database.
use ticketmirror.Base.{
  ℕ, zero, suc, ◌≤◌, ◌≡◌, refl, sym, ◌∙◌, ap, String, Bool, false, Option, none, some, List, [],
  ◌∷◌, arith, take, length, eq_refl,
}
use ticketmirror.Base.Int.{pos_part}
use ticketmirror.Base.Result.{Result, ok, err}
use ticketmirror.Data.{Db}
use ticketmirror.Gmail.Client.{Fault}
use ticketmirror.Polling.Lock.{SyncState, get_or_create_state, acquire_poll_lock, release_poll_lock}
use ticketmirror.Polling.Exclusion.{acquired, refused as not_acquired}
use ticketmirror.Polling.Cycle.{Listing, Poll, list_messages}
use ticketmirror.Polling.Messages.{Round, going, stopped, poll_listing}
use ticketmirror.Polling.Counted.{
  IsSound, IsBalanced, Counted, no_counts-IsBalanced, poll_listing-Counted,
}
use ticketmirror.Polling.Poll.{
  PollResult, Polled, text_of, synced, fell_back, finish_cycle, released, skipped_result, poll_with,
  poll_gmail_once,
}

-- The lease is free, with the error of the cycle written to the row.
abbrev pub Written : Result Fault PollResult → SyncState → Type 0
Written (ok r) row = (row.last_error ≡ none) × (row.latest_history_id ≡ r.latest_history_id)
Written (err e) row = row.last_error ≡ some (text_of e)

-- The counts of what was returned add up, and are at most the limit.
abbrev pub CountsOf : Poll → Result Fault PollResult → Type 0
CountsOf p (ok r) = IsBalanced p.process r.counts × (r.counts.fetched ≤ pos_part p.limit)
CountsOf p (err e) = Unit

-- The poller did not get the lease: nothing changes. Or it got it, and has released it.
pub record IsPolled (p : Poll) (token : String) (db : Db) (row : Option SyncState) (r : Polled)
    : Type 0 where
  pub refused :
      (acquire_poll_lock token p.env.now row).0 ≡ none
      → (r.outcome ≡ ok (skipped_result p.mailbox))
        × (r.row ≡ get_or_create_state row)
        × (r.db ≡ db)
  pub freed :
      (acquire_poll_lock token p.env.now row).0 ≡ some token
      → (r.row.poll_lock_token ≡ none) × Written r.outcome r.row
  pub counts : CountsOf p r.outcome
  pub sound : IsSound r.db

length-take-le : (n : ℕ) (xs : List String) → length (take n xs) ≤ n
length-take-le zero xs = omega arith
length-take-le (suc n) [] = omega arith
length-take-le (suc n) (x ∷ xs) = omega (arith, length-take-le n xs)

-- A cycle, whatever its listing and its messages do.
pub record IsCycle (p : Poll) (row : SyncState) (r : Polled) : Type 0 where
  pub token : r.row.poll_lock_token ≡ row.poll_lock_token
  pub written : Written r.outcome r.row
  pub counts : CountsOf p r.outcome
  pub sound : IsSound r.db

module _ (p : Poll) where
  finish_cycle-IsCycle :
      (row : SyncState) (fallback : Bool) (n : ℕ) (round : Round)
      → n ≤ pos_part p.limit
      → Counted p.process n round
      → IsCycle p row (finish_cycle p row fallback round)
  unfolding finish_cycle synced
  finish_cycle-IsCycle row fallback n (going c) le h = record {
    token = refl;
    written = (refl, refl);
    counts = (h.1, omega (arith, h.2));
    sound = h.0;
  }
  finish_cycle-IsCycle row fallback n (stopped e db) le h = record {
    token = refl;
    written = refl;
    counts = tt;
    sound = h;
  }

  listed-IsCycle :
      (row : SyncState) (db : Db) (listing : Result Fault Listing)
      → IsSound db
      → IsCycle p row (finish_cycle p row (fell_back listing) (poll_listing p db listing))
  unfolding poll_listing
  listed-IsCycle row db (err e) sound =
      finish_cycle-IsCycle row false 0 (stopped e db) (omega arith) sound
  listed-IsCycle row db (ok l) sound =
      finish_cycle-IsCycle row l.fallback_used _ (poll_listing p db (ok l))
        (length-take-le (pos_part p.limit) l.message_ids) (poll_listing-Counted p db l sound)

released-freed :
    (p : Poll) (token : String) (row : SyncState) (r : Polled)
    → row.poll_lock_token ≡ some token
    → IsCycle p row r
    → ((released token r).row.poll_lock_token ≡ none) × Written r.outcome (released token r).row
unfolding release_poll_lock
released-freed p token row r e c =
    let held : r.row.poll_lock_token ≡ some token = c.token ∙ e in
    rw held (rw (eq_refl token) (refl, same_Written r.outcome c.written))
  where
    same_Written :
        (o : Result Fault PollResult)
        → Written o r.row
        → Written o (record (r.row) { poll_lock_token = none; poll_lock_acquired_at = none })
    same_Written (ok x) w = w
    same_Written (err x) w = w

module _ (p : Poll) (token : String) (db : Db) (o : Option SyncState) (sound : IsSound db) where
  poll_with-IsPolled :
      (taken : Option String) (row : SyncState)
      → acquire_poll_lock token p.env.now o ≡ (taken, row)
      → IsPolled p token db o (poll_with p db (taken, row))
  unfolding poll_with
  poll_with-IsPolled none row e = record {
    refused = λ h. (refl, not_acquired token p.env.now o row e, refl);
    freed = λ h. let q : none ≡ some token = sym (ap (λ x. x.0) e) ∙ h in cc;
    counts = (no_counts-IsBalanced p.process, omega arith);
    sound = sound;
  }
  poll_with-IsPolled (some t) row e =
      let listing = list_messages p row.latest_history_id in
      let c = listed-IsCycle p row db listing sound in
      record {
        refused = λ h. let q : some t ≡ none = sym (ap (λ x. x.0) e) ∙ h in cc;
        freed = λ h.
            let q : some t ≡ some token = sym (ap (λ x. x.0) e) ∙ h in
            let k : t ≡ token = cc in
            let (_, lease, _) = acquired token p.env.now o row (rw k at e) in
            released-freed p t row _ (lease ∙ ap some (sym k)) c;
        counts = c.counts;
        sound = c.sound;
      }

  -- On a table where an identity has one booking and a well-formed queue, whatever the Gmail API
  -- answers and whether or not the poll raises: a poller that does not get the lease changes nothing
  -- and says so; one that gets it has released it afterwards, and has written the error, or the absence
  -- of one and the cursor that it returns, to the row of the mailbox. In what it returns, each message
  -- fetched was stored, deduped or skipped, each stored one was processed where that was asked for, none
  -- failed, and no more were fetched than the limit. The table and the queue stay well formed.
  pub poll_gmail_once-IsPolled : IsPolled p token db o (poll_gmail_once p token db o)
  unfolding poll_gmail_once
  poll_gmail_once-IsPolled =
      let (taken, row) = acquire_poll_lock token p.env.now o in poll_with-IsPolled taken row refl
