-- ===== src/Ingestion/Upsert/Reviewing.antt =====
-- Opening reviews and saving an email run to their end.
use ticketmirror.Base.{
  ℕ, ◌≡◌, ◌≢◌, refl, sym, ap, ◌∙◌, ◌⊎◌, inl, inr, Bool, true, false, Option, some, List, [], ◌∷◌,
  ◌==◌, ==_iff, In, map, if◌then◌else◌, Bool-cases,
}
use ticketmirror.Base.Membership.{map-In}
use ticketmirror.Ingestion.Identity.Promotion.{In-map}
use ticketmirror.Base.Result.{Result, ok}
use ticketmirror.Data.{Db, RawEmail, parsed, needs_review}
use ticketmirror.Bookings.Errors.{ServiceError}
use ticketmirror.Bookings.Queue.OneOpen.{IsQueue, create_review_item-IsStored}
use ticketmirror.Ingestion.Ignored.{save_raw_email}
use ticketmirror.Ingestion.Followup.{Concern, create_reviews}
use ticketmirror.Ingestion.Upsert.{status_if_review}

-- A step that succeeds, leaves a well-formed queue and does not touch the emails and bookings.
pub record Runs (db : Db) (r : Result ServiceError Db) : Type 0 where
  pub value : Db
  pub done : r ≡ ok value
  pub queue : IsQueue value.reviews
  pub raw_emails : value.raw_emails ≡ db.raw_emails
  pub bookings : value.bookings ≡ db.bookings

pub create_reviews-Runs :
    (db : Db) (raw : RawEmail) (booking : Option ℕ) (cs : List Concern)
    → IsQueue db.reviews
    → Runs db (create_reviews db raw booking cs)
unfolding create_reviews
create_reviews-Runs db raw booking [] q = record {
  value = db;
  done = refl;
  queue = q;
  raw_emails = refl;
  bookings = refl;
}
create_reviews-Runs db raw booking (c ∷ cs) q =
    let stored =
      create_review_item-IsStored db
        (record { raw_email = some raw.id; booking = booking; issue_type = c.issue_type }) c.title
        c.details q in
    let rest = create_reviews-Runs stored.db raw booking cs stored.queue in
    record {
      value = rest.value;
      done = rw stored.stored rest.done;
      queue = rest.queue;
      raw_emails = rest.raw_emails ∙ stored.raw_emails;
      bookings = rest.bookings ∙ stored.bookings;
    }

-- The email has a status that is final.
abbrev pub IsFinal : RawEmail → Type 0
IsFinal raw = (raw.parse_status ≡ parsed) ⊎ (raw.parse_status ≡ needs_review)

-- Every stored row of the email has such a status.
abbrev pub IsProcessed : Db → ℕ → Type 0
IsProcessed db id = (row : RawEmail) → In row db.raw_emails → row.id ≡ id → IsFinal row

-- What holds of a saved email holds of its rows.
pub save_raw_email-rows :
    (P : RawEmail → Type 0) (db : Db) (raw : RawEmail)
    → P raw
    → (row : RawEmail) → In row (save_raw_email db raw).raw_emails
    → row.id ≡ raw.id
    → P row
unfolding save_raw_email
save_raw_email-rows P db raw holds = found db.raw_emails
  where
    found :
        (rows : List RawEmail) (row : RawEmail)
        → In row (map (λ x. if x.id == raw.id then raw else x) rows)
        → row.id ≡ raw.id
        → P row
    found [] row i e = absurd i
    found (x ∷ rows) row (inr i) e = found rows row i e
    found (x ∷ rows) row (inl q) e = elim (Bool-cases (x.id == raw.id)) [
      | inl t ↦ let r : row ≡ raw = q ∙ rw t refl in rw r holds
      | inr f ↦
          let r : row ≡ x = q ∙ rw f refl in
          let s : x.id ≡ raw.id = sym (ap (λ z. z.id) r) ∙ e in
          let t : true ≡ false = sym ((==_iff x.id raw.id).1 s) ∙ f in cc
    ]

-- What a step on the email with the id leaves of the stored emails: the others as they were, and a
-- row under every id that had one.
pub record Stay (id : ℕ) (db db' : Db) : Type 0 where
  pub others : (row : RawEmail) → In row db'.raw_emails → row.id ≢ id → In row db.raw_emails
  pub present :
      (row : RawEmail)
      → In row db.raw_emails
      → (row' : RawEmail) × In row' db'.raw_emails × (row'.id ≡ row.id)

pub same-Stay : (id : ℕ) (db db' : Db) → db'.raw_emails ≡ db.raw_emails → Stay id db db'
same-Stay id db db' e = record {
  others = λ row i n. rw (← e) i;
  present = λ row i. (row, rw e i, refl);
}

pub Stay-trans : (id : ℕ) (x y z : Db) → Stay id x y → Stay id y z → Stay id x z
Stay-trans id x y z f g = record {
  others = λ row i n. f.others row (g.others row i n) n;
  present =
      λ row i. let (r, j, e) = f.present row i in let (s, k, q) = g.present r j in (s, k, q ∙ e);
}

-- Saving rows in place of those with the id of `raw`, each under that id.
pub replaced-Stay :
    (id : ℕ) (f : RawEmail → RawEmail) (db : Db)
    → ((x : RawEmail) → (f x).id ≡ x.id)
    → ((x : RawEmail) → x.id ≢ id → f x ≡ x)
    → Stay id db (record db { raw_emails = map f db.raw_emails })
replaced-Stay id f db same kept = record {
  others = λ row i n.
      let (x, j, e) = In-map f row db.raw_emails i in
      let other : x.id ≢ id = λ q. n (ap (λ z. z.id) e ∙ (same x ∙ q)) in
      let q : row ≡ x = e ∙ kept x other in rw q j;
  present = λ row i. (f row, map-In f row db.raw_emails i, same row);
}

pub save_raw_email-Stay : (db : Db) (raw : RawEmail) → Stay raw.id db (save_raw_email db raw)
unfolding save_raw_email
save_raw_email-Stay db raw =
    replaced-Stay raw.id (λ x. if x.id == raw.id then raw else x) db same kept
  where
    same : (x : RawEmail) → (if x.id == raw.id then raw else x).id ≡ x.id
    same x = elim (Bool-cases (x.id == raw.id)) [
      | inl t ↦ rw t (sym ((==_iff x.id raw.id).0 t))
      | inr f ↦ rw f refl
    ]

    kept : (x : RawEmail) → x.id ≢ raw.id → (if x.id == raw.id then raw else x) ≡ x
    kept x n = elim (Bool-cases (x.id == raw.id)) [
      | inl t ↦ absurd (n ((==_iff x.id raw.id).0 t))
      | inr f ↦ rw f refl
    ]

pub status-final : (b : Bool) → (status_if_review b ≡ parsed) ⊎ (status_if_review b ≡ needs_review)
status-final true = inr refl
status-final false = inl refl
