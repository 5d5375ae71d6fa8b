-- ===== src/Polling/Counted.antt =====
-- What the loop of a poll keeps, and how its counts add up.
use ticketmirror.Base.{
  ℕ, ◌+◌, ◌≡◌, refl, sym, ◌∙◌, ap, String, Bool, true, false, Option, none, some, List, [], ◌∷◌,
  ◌==◌, ==_iff, ◌⊎◌, inl, inr, arith, if◌then◌else◌, find?, find?-some, find?-none, In, take,
  length, Bool-cases, Option-cases,
}
use ticketmirror.Base.Int.{pos_part}
use mathlib.Core.Path.{subst}
use ticketmirror.Base.Result.{Result, ok, err}
use ticketmirror.Data.{Db, RawEmail}
use ticketmirror.Bookings.Queue.OneOpen.{IsQueue}
use ticketmirror.Gmail.Client.{Fault}
use ticketmirror.Ingestion.Identity.Promotion.{IsTable}
use ticketmirror.Ingestion.Process.Finished.{process_raw_email-IsFinished}
use ticketmirror.Ingestion.Store.{
  Payload, with_payload, new_raw_email, is_message, awaits, store_found, store_raw_email,
}
use ticketmirror.Ingestion.Store.Once.{In-last, In-replaced}
use ticketmirror.Polling.Cycle.{Counts, Listing, Cycle, Poll, is_not_found}
use ticketmirror.Polling.Messages.{
  Round, going, stopped, after_processing, process_message, store_message, after_fetch, dedupe,
  after_lookup, poll_message, poll_messages, no_counts, poll_listing, count_fetched, count_stored,
  count_processed,
}

-- One booking for each identity, and one open review for each key.
pub record IsSound (db : Db) : Type 0 where
  pub table : IsTable db.bookings
  pub queue : IsQueue db.reviews

-- A fetched message was stored, deduped or skipped; a stored one was processed, if that was asked
-- for; none failed.
pub record IsBalanced (process : Bool) (c : Counts) : Type 0 where
  pub fetched : c.fetched ≡ c.stored + c.deduped + c.skipped
  pub processed : c.processed ≡ (if process then c.stored else 0)
  pub failed : c.failed ≡ 0

-- After `n` messages.
abbrev pub Counted : Bool → ℕ → Round → Type 0
Counted process n (going c) = IsSound c.db × IsBalanced process c.counts × (c.counts.fetched ≡ n)
Counted process n (stopped e db) = IsSound db

-- A row that is there is found by its id.
In-found :
    (x : RawEmail) (xs : List RawEmail)
    → In x xs
    → (row : RawEmail) × (find? (λ r. r.id == x.id) xs ≡ some row)
In-found x xs i = elim (Option-cases (find? (λ r. r.id == x.id) xs)) [
  | inr f ↦ f
  | inl n ↦
      let q : true ≡ false =
        sym ((==_iff x.id x.id).1 refl) ∙ find?-none (λ r. r.id == x.id) x xs n i in
      cc
]

store_raw_email-In :
    (db : Db) (payload : Payload)
    → In (store_raw_email db payload).row (store_raw_email db payload).db.raw_emails
unfolding store_raw_email
store_raw_email-In db payload =
    found (find? (is_message payload.gmail_message_id) db.raw_emails) refl
  where
    found :
        (o : Option RawEmail)
        → find? (is_message payload.gmail_message_id) db.raw_emails ≡ o
        → In (store_found db payload o).row (store_found db payload o).db.raw_emails
    found none e = In-last (new_raw_email db.next_id payload) db.raw_emails
    found (some old) e =
        In-replaced old (with_payload payload old) db.raw_emails
          (find?-some (is_message payload.gmail_message_id) old db.raw_emails e).0

store_raw_email-IsSound :
    (db : Db) (payload : Payload) → IsSound db → IsSound (store_raw_email db payload).db
unfolding store_raw_email
store_raw_email-IsSound db payload sound =
    found (find? (is_message payload.gmail_message_id) db.raw_emails)
  where
    found : (o : Option RawEmail) → IsSound (store_found db payload o).db
    found none = record { table = sound.table; queue = sound.queue }
    found (some old) = record { table = sound.table; queue = sound.queue }

-- The counts of a message that was fetched and stored, and processed if that was asked for.
stored-IsBalanced :
    (counts : Counts)
    → IsBalanced false counts
    → IsBalanced false (count_stored (count_fetched counts))
stored-IsBalanced counts b = record {
  fetched = omega (arith, b.fetched);
  processed = b.processed;
  failed = b.failed;
}

processed-IsBalanced :
    (counts : Counts)
    → IsBalanced true counts
    → IsBalanced true (count_processed (count_stored (count_fetched counts)))
processed-IsBalanced counts b = record {
  fetched = omega (arith, b.fetched);
  processed = omega (arith, b.processed);
  failed = b.failed;
}

pub no_counts-IsBalanced : (process : Bool) → IsBalanced process no_counts
no_counts-IsBalanced true = record { fetched = refl; processed = refl; failed = refl }
no_counts-IsBalanced false = record { fetched = refl; processed = refl; failed = refl }

module _ (p : Poll) where
  -- A message that was counted as fetched and as stored.
  process_message-Counted :
      (c : Cycle) (counts : Counts) (raw row : RawEmail)
      → c.counts ≡ count_stored (count_fetched counts)
      → IsSound c.db
      → IsBalanced p.process counts
      → find? (λ r. r.id == raw.id) c.db.raw_emails ≡ some row
      → Counted p.process (counts.fetched + 1) (process_message p c raw)
  unfolding process_message after_processing
  process_message-Counted c counts raw row e sound balanced found = elim (Bool-cases p.process) [
    | inr f ↦ rw (f, e) (sound, stored-IsBalanced counts (rw f at balanced), refl)
    | inl t ↦
        let (r, done, finished) =
          process_raw_email-IsFinished p.env p.reading c.db row raw.id found sound.table
            sound.queue in
        rw (t, done, e)
          (
            record { table = finished.table; queue = finished.queue },
            processed-IsBalanced counts (rw t at balanced),
            refl,
          )
  ]

  -- A message that was counted as fetched.
  after_fetch-Counted :
      (c : Cycle) (counts : Counts) (answer : Result Fault Payload)
      → c.counts ≡ count_fetched counts
      → IsSound c.db
      → IsBalanced p.process counts
      → Counted p.process (counts.fetched + 1) (after_fetch p c answer)
  unfolding after_fetch store_message
  after_fetch-Counted c counts (err fault) e sound b = elim (Bool-cases (is_not_found fault)) [
    | inr f ↦ rw f sound
    | inl t ↦
        rw (t, e)
          (
            sound,
            record {
              fetched = omega (arith, b.fetched);
              processed = b.processed;
              failed = b.failed;
            },
            refl,
          )
  ]
  after_fetch-Counted c counts (ok payload) e sound b =
      let s = store_raw_email c.db payload in
      let (row, found) = In-found s.row s.db.raw_emails (store_raw_email-In c.db payload) in
      process_message-Counted _ counts s.row row (ap count_stored e)
        (store_raw_email-IsSound c.db payload sound) b found

  after_lookup-Counted :
      (c : Cycle) (counts : Counts) (id : String) (o : Option RawEmail)
      → c.counts ≡ count_fetched counts
      → IsSound c.db
      → IsBalanced p.process counts
      → Counted p.process (counts.fetched + 1) (after_lookup p c id o)
  unfolding after_lookup dedupe
  after_lookup-Counted c counts id none e sound b =
      after_fetch-Counted c counts (p.client.fetch_message id) e sound b
  after_lookup-Counted c counts id (some old) e sound b =
      elim (Bool-cases (awaits old.parse_status)) [
        | inl t ↦ rw t (after_fetch-Counted c counts (p.client.fetch_message id) e sound b)
        | inr f ↦
            rw (f, e)
              (
                sound,
                record {
                  fetched = omega (arith, b.fetched);
                  processed = b.processed;
                  failed = b.failed;
                },
                refl,
              )
      ]

  poll_message-Counted :
      (c : Cycle) (id : String)
      → IsSound c.db
      → IsBalanced p.process c.counts
      → Counted p.process (c.counts.fetched + 1) (poll_message p c id)
  unfolding poll_message
  poll_message-Counted c id sound b =
      after_lookup-Counted (record c { counts = count_fetched c.counts }) c.counts id
        (find? (is_message id) c.db.raw_emails) refl sound b

  Round-cases :
      (r : Round) → ((c : Cycle) × (r ≡ going c)) ⊎ ((f : Fault) × (db : Db) × (r ≡ stopped f db))
  Round-cases (going c) = inl (c, refl)
  Round-cases (stopped f db) = inr (f, db, refl)

  poll_messages-Counted :
      (c : Cycle) (ids : List String)
      → IsSound c.db
      → IsBalanced p.process c.counts
      → Counted p.process (c.counts.fetched + length ids) (poll_messages p c ids)
  unfolding poll_messages
  poll_messages-Counted c [] sound b = (sound, b, omega arith)
  poll_messages-Counted c (id ∷ ids) sound b =
      let step = poll_message-Counted c id sound b in
      elim (Round-cases (poll_message p c id)) [
        | inr (f, db, e) ↦ rw e (rw e at step)
        | inl (c', e) ↦
            let (sound', b', n) = rw e at step in
            let m : c'.counts.fetched + length ids ≡ c.counts.fetched + length (id ∷ ids) =
              omega (arith, n) in
            rw e (
              subst (λ k. Counted p.process k (poll_messages p c' ids)) m
                (poll_messages-Counted c' ids sound' b'))
      ]

  -- After a listing, the loop has counted its messages up to the limit.
  pub poll_listing-Counted :
      (db : Db) (l : Listing)
      → IsSound db
      → Counted p.process
          (length (take (pos_part p.limit) l.message_ids))
          (poll_listing p db (ok l))
  unfolding poll_listing
  poll_listing-Counted db l sound =
      let ids = take (pos_part p.limit) l.message_ids in
      let m : 0 + length ids ≡ length ids = omega arith in
      let c : Cycle = record {
        counts = no_counts;
        latest_history_id = l.latest_history_id;
        db = db;
      } in
      subst (λ k. Counted p.process k (poll_messages p c ids)) m
        (poll_messages-Counted c ids sound (no_counts-IsBalanced p.process))
