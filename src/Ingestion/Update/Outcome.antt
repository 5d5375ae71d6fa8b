-- ===== src/Ingestion/Update/Outcome.antt =====
-- What `_update_booking` does with the booking and the queue as a whole.
use ticketmirror.Base.{
  String, ◌≡◌, refl, sym, ◌∙◌, ◌⊎◌, inl, inr, true, Option, some, List, [], ◌∷◌, ◌++◌,
}
use ticketmirror.Base.Result.{Result, ok}
use ticketmirror.Data.{
  Db, Booking, ProviderAlias, RawEmail, Conflict, SameIdentity, manual_override_conflict,
  conflict_details, conflicts, conflict_detected, values,
}
use ticketmirror.Bookings.Errors.{ServiceError}
use ticketmirror.Bookings.Queue.{Key}
use ticketmirror.Bookings.Queue.OneOpen.{IsQueue, count, create_review_item-IsStored}
use ticketmirror.Base.Names.{member}
use ticketmirror.Bookings.Overrides.{Values, is_manually_overridden, provider_update_conflicts}
use ticketmirror.Ingestion.Parsed.{ParsedBooking, provider_values_from_parsed, payload}
use ticketmirror.Ingestion.Slots.{alias_values}
use ticketmirror.Ingestion.Update.{
  merge_values, touch_thread, save_booking, report_conflicts, create_booking_event, update_booking,
  update_event_type,
}
use ticketmirror.Ingestion.Update.Loops.{frame-merge_values}
use ticketmirror.Ingestion.Update.Conflicts.{
  Disagreement, disagreement-conflict, conflict-disagreement,
}
use ticketmirror.Ingestion.Update.Guarded.{Guarded, name_of, merge_values-kept}

abbrev pub conflict_key : RawEmail → Booking → Key
conflict_key raw b = record {
  raw_email = some raw.id;
  booking = some b.id;
  issue_type = manual_override_conflict;
}

-- The reporting of conflicts succeeds, keeps the queue and the bookings, and where there is a
-- conflict there is one open review of it.
pub record IsReported (db : Db) (b : Booking) (raw : RawEmail) (cs : List (String × Conflict))
    (r : Result ServiceError Db) : Type 0 where
  pub db' : Db
  pub succeeds : r ≡ ok db'
  pub queue : IsQueue db'.reviews
  pub bookings : db'.bookings ≡ db.bookings
  pub raw_emails : db'.raw_emails ≡ db.raw_emails
  pub reported : (cs ≡ []) ⊎ (count (conflict_key raw b) db'.reviews ≡ 1)
  pub silent : cs ≡ [] → db'.reviews ≡ db.reviews

report_conflicts-IsReported :
    (db : Db) (b : Booking) (raw : RawEmail) (cs : List (String × Conflict))
    → IsQueue db.reviews
    → IsReported db b raw cs (report_conflicts db b raw cs)
unfolding report_conflicts create_booking_event
report_conflicts-IsReported db b raw [] q = record {
  db' = db;
  succeeds = refl;
  queue = q;
  bookings = refl;
  raw_emails = refl;
  reported = inl refl;
  silent = λ e. refl;
}
report_conflicts-IsReported db b raw (c ∷ cs) q =
    let s =
      create_review_item-IsStored db (conflict_key raw b)
        "Provider update conflicts with manual override" (conflict_details (c ∷ cs)) q in
    let entries = ("manual_override_conflicts", conflicts (c ∷ cs)) ∷ [] in
    record {
      db' = create_booking_event s.db b raw conflict_detected [] entries;
      succeeds = rw s.stored;
      queue = s.queue;
      bookings = s.bookings;
      raw_emails = s.raw_emails;
      reported = inr s.once;
      silent = λ e. cc;
    }

-- A booking that keeps the edits of another disagrees with the same values.
module _ {b c : Booking} {vs : Values} (held : c.manual_override_fields ≡ b.manual_override_fields)
    (kept : (g : Guarded)
      → is_manually_overridden b (name_of g) ≡ true
      → c.columns (name_of g) ≡ b.columns (name_of g)) where
  carried : Disagreement b vs → Disagreement c vs
  unfolding is_manually_overridden
  carried d = record {
    field = d.field;
    column = d.column;
    stated = d.stated;
    of_field = d.of_field;
    given = d.given;
    edited = rw held d.edited;
    differs = λ e. d.differs (sym (kept d.field d.edited) ∙ e);
  }

  carried_back : Disagreement c vs → Disagreement b vs
  unfolding is_manually_overridden
  carried_back d =
      let edited : member (name_of d.field) b.manual_override_fields ≡ true =
        rw (← held) d.edited in
      record {
        field = d.field;
        column = d.column;
        stated = d.stated;
        of_field = d.of_field;
        given = d.given;
        edited = edited;
        differs = λ e. d.differs (kept d.field edited ∙ e);
      }

-- What an update gives, in the database `r.1`.
pub record IsUpdated (db : Db) (b : Booking) (raw : RawEmail) (p : ParsedBooking)
    (alias : Option ProviderAlias) (r : Booking × Db) : Type 0 where
  -- The booking is the merge of the email's values, under the same identity and overrides.
  pub merged :
      r.0
      ≡ touch_thread
          (merge_values b (provider_values_from_parsed p) (alias_values db alias p)).booking
          raw
  pub identity : SameIdentity r.0 b
  pub overrides : r.0.manual_override_fields ≡ b.manual_override_fields
  -- A guarded field that was edited by hand is kept.
  pub kept :
      (g : Guarded)
      → is_manually_overridden b (name_of g) ≡ true
      → r.0.columns (name_of g) ≡ b.columns (name_of g)
  pub saved : r.1.bookings ≡ (save_booking db r.0).bookings
  pub queue : IsQueue r.1.reviews
  pub raw_emails : r.1.raw_emails ≡ db.raw_emails
  -- Where the email disagrees with an edit, one open review says so; where it does not, the queue is
  -- as it was.
  pub reported :
      Disagreement b (provider_values_from_parsed p) → count (conflict_key raw r.0) r.1.reviews ≡ 1
  pub silent : ¬ Disagreement b (provider_values_from_parsed p) → r.1.reviews ≡ db.reviews

-- On a well-formed queue a provider update of a booking succeeds. It keeps the booking's identity and
-- its overridden fields' names, and of the status, the slot and the active fields it changes none
-- that was edited by hand; where the email states another value than such an edit, exactly one open
-- review reports it, and where it states none, the queue is as it was; the booking is saved, and the queue stays well formed.
pub update_booking-IsUpdated :
    (db : Db) (b : Booking) (raw : RawEmail) (p : ParsedBooking) (alias : Option ProviderAlias)
    → IsQueue db.reviews
    → (r : Booking × Db) × (update_booking db b raw p alias ≡ ok r) × IsUpdated db b raw p alias r
unfolding update_booking touch_thread create_booking_event save_booking
update_booking-IsUpdated db b raw p alias q =
    let vs = provider_values_from_parsed p in
    let us = alias_values db alias p in
    let c = touch_thread (merge_values b vs us).booking raw in
    let s =
      report_conflicts-IsReported (save_booking db c) c raw (provider_update_conflicts c vs) q in
    let kept = λ (g : Guarded) (h : is_manually_overridden b (name_of g) ≡ true).
      merge_values-kept g db p alias b h in
    let (same, held) = frame-merge_values b vs us in
    (
      (
        c,
        create_booking_event s.db' c raw (update_event_type p.event_type)
            (merge_values b vs us).old_values
            (payload p ++ ("changed_values", values (merge_values b vs us).new_values) ∷ []),
      ),
      rw s.succeeds,
      record {
        merged = refl;
        identity = same;
        overrides = held;
        kept = kept;
        saved = s.bookings;
        queue = s.queue;
        raw_emails = s.raw_emails;
        reported = λ d. elim s.reported [
          | inl e ↦ absurd (disagreement-conflict c vs (carried held kept d) e)
          | inr n ↦ n
        ];
        silent = λ n. s.silent (conflict-disagreement c vs (λ d. n (carried_back held kept d)));
      },
    )
