-- ===== src/Ingestion/Process/Kept.antt =====
-- What cancelling false bookings keeps, and what it means to be finished with an email.
use ticketmirror.Base.{
  ℕ, String, ◌≡◌, refl, sym, ap, ◌∙◌, inl, inr, Bool, true, false, Option, List, [], ◌∷◌, ◌==◌, In,
  map, Bool-cases,
}
use ticketmirror.Base.Result.{ok}
use ticketmirror.Data.{Db, Booking, RawEmail, ParseStatus, pending}
use ticketmirror.Bookings.Overrides.{set_column}
use ticketmirror.Bookings.Queue.OneOpen.{IsQueue}
use ticketmirror.Ingestion.Update.{create_booking_event}
use ticketmirror.Ingestion.Identity.Promotion.{IsTable, In-map}
use ticketmirror.Ingestion.Ignored.{
  cancel_row, cancel_false_booking, cancel_each, safe_to_cancel_ignored_raw_email_booking,
}
use ticketmirror.Ingestion.Process.{Outcome}
use ticketmirror.Ingestion.Upsert.Reviewing.{Stay, Stay-trans}

abbrev pub is_pending : ParseStatus → Bool
is_pending pending = true
is_pending _ = false

abbrev pub IsDone : RawEmail → Type 0
IsDone raw = is_pending raw.parse_status ≡ false

-- What processing an email leaves: no row of it is pending, the other emails are as they were, and the
-- invariants hold.
pub record IsFinished (db : Db) (id : ℕ) (r : Option Booking × Db) : Type 0 where
  pub done :
      (row : RawEmail) → In row r.1.raw_emails → row.id ≡ id → is_pending row.parse_status ≡ false
  pub emails : Stay id db r.1
  pub queue : IsQueue r.1.reviews
  pub table : IsTable r.1.bookings

abbrev pub Finishes : Db → ℕ → Outcome → Type 0
Finishes db id o = (r : Option Booking × Db) × (o ≡ ok r) × IsFinished db id r

pub Finishes-after :
    (db db' : Db) (id : ℕ) (o : Outcome) → Stay id db db' → Finishes db' id o → Finishes db id o
Finishes-after db db' id o stay (r, done, f) = (
  r,
  done,
  record {
    done = f.done;
    emails = Stay-trans id db db' r.1 stay f.emails;
    queue = f.queue;
    table = f.table;
  },
)

-- The cancelled rows keep their identity.
pub same_cancelled :
    (id : ℕ) (x : Booking)
    → ((cancel_row id x).id ≡ x.id)
      × ((cancel_row id x).provider ≡ x.provider)
      × ((cancel_row id x).provider_booking_reference ≡ x.provider_booking_reference)
unfolding cancel_row set_column
same_cancelled id x = elim (Bool-cases (x.id == id)) [
  | inl e ↦ rw e (refl, refl, refl)
  | inr e ↦ rw e (refl, refl, refl)
]

pub cancelled-IsTable : (id : ℕ) (bs : List Booking) → IsTable bs → IsTable (map (cancel_row id) bs)
cancelled-IsTable id bs table = record {
  one_row = λ v w i j p r.
      let (x, k, e) = In-map (cancel_row id) v bs i in
      let (y, l, f) = In-map (cancel_row id) w bs j in
      let (a, b, c) = same_cancelled id x in
      let (a', b', c') = same_cancelled id y in
      ap (λ z. z.id) e
      ∙ (a
          ∙ (table.one_row x y k l
                (sym b ∙ (sym (ap (λ z. z.provider) e) ∙ (p ∙ (ap (λ z. z.provider) f ∙ b'))))
                (sym c
                  ∙ (sym (ap (λ z. z.provider_booking_reference) e)
                      ∙ (r ∙ (ap (λ z. z.provider_booking_reference) f ∙ c'))))
              ∙ sym (ap (λ z. z.id) f ∙ a')));
}

-- What the cancelling loop keeps.
pub record IsKept (db db' : Db) : Type 0 where
  pub raw_emails : db'.raw_emails ≡ db.raw_emails
  pub reviews : db'.reviews ≡ db.reviews
  pub table : IsTable db.bookings → IsTable db'.bookings

pub cancel_each-IsKept :
    (db : Db) (bs : List Booking) (raw : RawEmail) (reason : String)
    → IsKept db (cancel_each db bs raw reason)
unfolding cancel_each cancel_false_booking create_booking_event
cancel_each-IsKept db [] raw reason = record { raw_emails = refl; reviews = refl; table = λ t. t }
cancel_each-IsKept db (b ∷ bs) raw reason =
    elim (Bool-cases (safe_to_cancel_ignored_raw_email_booking db b raw)) [
      | inr e ↦ rw e (cancel_each-IsKept db bs raw reason)
      | inl e ↦
          let k = cancel_each-IsKept (cancel_false_booking db b raw reason) bs raw reason in
          rw e (record {
            raw_emails = k.raw_emails;
            reviews = k.reviews;
            table = λ t. k.table (cancelled-IsTable b.id db.bookings t);
          })
    ]
