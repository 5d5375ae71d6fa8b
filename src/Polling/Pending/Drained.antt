-- ===== src/Polling/Pending/Drained.antt =====
-- The loop over the waiting emails runs to its end.
use ticketmirror.Base.{
  sym, ◌∙◌, ap, false, find?-some, find?-none, ==_iff, Bool-cases, ℕ, zero, suc, ◌+◌, ◌≡◌, refl,
  true, Option, none, some, List, [], ◌∷◌, ◌==◌, filter, find?, In, In-filter, filter-In,
  Option-cases, arith, inl, inr, length,
}
use ticketmirror.Base.Membership.{In-take}
use ticketmirror.Base.Sort.{sort, In-sort}
use ticketmirror.Ingestion.Process.Kept.{is_pending}
use ticketmirror.Data.{Db, RawEmail, ParseStatus, pending}
use ticketmirror.Ingestion.Process.{process_raw_email}
use ticketmirror.Ingestion.Process.Finished.{process_raw_email-IsFinished}
use ticketmirror.Ingestion.Upsert.Reviewing.{Stay}
use ticketmirror.Ingestion.Store.{awaits}
use ticketmirror.Polling.Counted.{IsSound}
use ticketmirror.Polling.Pending.{
  Drain, drained, Worker, after_row, process_rows, pending_rows, process_pending_raw_emails, up_to,
  older,
}

-- No stored row of the id waits.
abbrev pub IsDoneAt : Db → ℕ → Type 0
IsDoneAt db id =
    (row : RawEmail) → In row db.raw_emails → row.id ≡ id → awaits row.parse_status ≡ false

-- Every row has a stored one under its id.
abbrev AreStored : Db → List RawEmail → Type 0
AreStored db rows =
    (r : RawEmail) → In r rows → (row : RawEmail) × In row db.raw_emails × (row.id ≡ r.id)

-- The rows that the loop took up were all processed, none of them waits any more, and the invariants
-- hold.
pub record IsDrained (rows : List RawEmail) (d : Drain) : Type 0 where
  pub db : Db
  pub same : d ≡ drained (length rows) db
  pub processed : (r : RawEmail) → In r rows → IsDoneAt db r.id
  pub sound : IsSound db

is_pending-awaits : (s : ParseStatus) → is_pending s ≡ false → awaits s ≡ false
is_pending-awaits pending h = cc
is_pending-awaits _ h = refl

awaits-is_pending : (s : ParseStatus) → awaits s ≡ false → is_pending s ≡ false
awaits-is_pending pending h = cc
awaits-is_pending _ h = refl

-- A step on one email.
record IsStep (db : Db) (id n : ℕ) (d : Drain) : Type 0 where
  pub db' : Db
  pub same : d ≡ drained (n + 1) db'
  pub done : IsDoneAt db' id
  pub emails : Stay id db db'
  pub sound : IsSound db'

row-IsStep :
    (w : Worker) (db : Db) (n : ℕ) (raw row : RawEmail)
    → In row db.raw_emails
    → row.id ≡ raw.id
    → IsSound db
    → IsStep db raw.id n (after_row w db n raw (process_raw_email w.env w.reading db raw.id))
unfolding after_row
row-IsStep w db n raw row i e sound =
    elim (Option-cases (find? (λ r. r.id == raw.id) db.raw_emails)) [
      | inl gone ↦
          let f : (row.id == raw.id) ≡ false =
            find?-none (λ r. r.id == raw.id) row db.raw_emails gone i in
          let c : true ≡ false = sym ((==_iff row.id raw.id).1 e) ∙ f in cc
      | inr (found_row, found) ↦
          let (_, t) = find?-some (λ r. r.id == raw.id) found_row db.raw_emails found in
          let q : found_row.id ≡ raw.id = (==_iff found_row.id raw.id).0 t in
          let (r, done, finished) =
            process_raw_email-IsFinished w.env w.reading db found_row raw.id found sound.table
              sound.queue in
          rw done (record {
            db' = r.1;
            same = refl;
            done = λ x j p. is_pending-awaits x.parse_status (finished.done x j (p ∙ sym q));
            emails = rw (← q) finished.emails;
            sound = record { table = finished.table; queue = finished.queue };
          })
    ]

stays_done :
    (db db' : Db) (id k : ℕ) → Stay id db db' → IsDoneAt db' id → IsDoneAt db k → IsDoneAt db' k
stays_done db db' id k stay done before x i e = elim (Bool-cases (x.id == id)) [
  | inl t ↦ done x i ((==_iff x.id id).0 t)
  | inr f ↦
      before x (stay.others x i (λ q. let c : true ≡ false = sym ((==_iff x.id id).1 q) ∙ f in cc))
        e
]

process_rows-IsDrained :
    (w : Worker) (db : Db) (n : ℕ) (rows : List RawEmail)
    → AreStored db rows
    → IsSound db
    → (db' : Db) × (process_rows w db n rows ≡ drained (n + length rows) db')
      × ((r : RawEmail) → In r rows → IsDoneAt db' r.id)
      × ((k : ℕ) → IsDoneAt db k → IsDoneAt db' k)
      × IsSound db'
unfolding process_rows
process_rows-IsDrained w db n [] stored sound =
    (db, ap (λ m. drained m db) (omega arith), (λ r i. absurd i), (λ k h. h), sound)
process_rows-IsDrained w db n (raw ∷ rows) stored sound =
    let (row, i, e) = stored raw (inl refl) in
    let step = row-IsStep w db n raw row i e sound in
    let rest =
      process_rows-IsDrained w step.db' (n + 1) rows
        (λ r j.
          let (x, k, p) = stored r (inr j) in
          let (y, l, q) = step.emails.present x k in (y, l, q ∙ p))
        step.sound in
    (
      rest.0,
      rw step.same (rest.1 ∙ ap (λ m. drained m rest.0) (omega arith)),
      (λ r j. elim j [ inl q ↦ rw q (rest.3 raw.id step.done) | inr k ↦ rest.2 r k ]),
      (λ k h. rest.3 k (stays_done db step.db' raw.id k step.emails step.done h)),
      rest.4,
    )

-- The rows that the loop takes up: the emails that wait, and all of them where there is no limit.
pub record AreWaiting (db : Db) (limit : Option ℕ) : Type 0 where
  pub wait :
      (r : RawEmail)
      → In r (pending_rows db limit)
      → In r db.raw_emails × (awaits r.parse_status ≡ true)
  pub all_of :
      (r : RawEmail)
      → In r db.raw_emails
      → awaits r.parse_status ≡ true
      → In r (pending_rows db none)

In-up_to :
    (r : RawEmail) (limit : Option ℕ) (rows : List RawEmail) → In r (up_to limit rows) → In r rows
In-up_to r none rows i = i
In-up_to r (some zero) rows i = i
In-up_to r (some (suc n)) rows i = In-take r (suc n) rows i

pending_rows-AreWaiting : (db : Db) (limit : Option ℕ) → AreWaiting db limit
unfolding pending_rows
pending_rows-AreWaiting db limit =
    let waiting = filter (λ r. awaits r.parse_status) db.raw_emails in
    record {
      wait = λ r i.
          In-filter (λ x. awaits x.parse_status) r db.raw_emails
            ((In-sort older r waiting).0 (In-up_to r limit (sort older waiting) i));
      all_of = λ r i h.
          (In-sort older r waiting).1 (filter-In (λ x. awaits x.parse_status) r db.raw_emails i h);
    }

-- On a table where an identity has one booking and a well-formed queue, the run over the pending
-- emails takes up only emails that wait, and all of them if there is no limit. It raises nothing and
-- processes every email that it took up, so that none of these waits afterwards; it counts each as
-- processed, and leaves the table and the queue well formed.
pub process_pending_raw_emails-IsDrained :
    (w : Worker) (db : Db) (limit : Option ℕ)
    → IsSound db
    → AreWaiting db limit
      × IsDrained (pending_rows db limit) (process_pending_raw_emails w db limit)
unfolding process_pending_raw_emails
process_pending_raw_emails-IsDrained w db limit sound =
    let waiting = pending_rows-AreWaiting db limit in
    let d =
      process_rows-IsDrained w db 0 (pending_rows db limit) (λ r i. (r, (waiting.wait r i).0, refl))
        sound in
    (
      waiting,
      record {
        db = d.0;
        same = d.1 ∙ ap (λ m. drained m d.0) (omega arith);
        processed = d.2;
        sound = d.4;
      },
    )
