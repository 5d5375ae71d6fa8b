-- ===== src/Ingestion/Upsert/Running.antt =====
-- The handling of a parsed email runs to its end.
use ticketmirror.Base.{
  String, ◌≡◌, refl, sym, ◌∙◌, inl, inr, Bool, true, false, ◌||◌, Option, none, some, [], ◌∷◌, In,
  str_eq, is_some, find?, Bool-cases,
}
use ticketmirror.Base.Result.{ok}
use ticketmirror.Data.{
  Db, Provider, Booking, SameIdentity, RawEmail, needs_review, reference_missing, fixed,
}
use ticketmirror.Bookings.Queue.OneOpen.{IsQueue, resolve_items-IsQueue}
use ticketmirror.Bookings.Reviews.{has_text}
use ticketmirror.Bookings.Warnings.Reported.{warn_if_capacity_overbooked-IsWarned}
use ticketmirror.Ingestion.Environment.{Environment}
use ticketmirror.Ingestion.Parsed.{ParsedBooking}
use ticketmirror.Ingestion.Providers.{
  get_or_create_provider, found_or_added, canonical_provider, add_provider, provider_display_name,
}
use ticketmirror.Ingestion.Aliases.{ProviderAliasMatch, match_product_alias}
use ticketmirror.Ingestion.Create.Created.{create_booking-IsCreated}
use ticketmirror.Ingestion.Update.Outcome.{update_booking-IsUpdated}
use ticketmirror.Ingestion.Identity.Table.{append-IsTable, save_booking-IsTable}
use ticketmirror.Ingestion.Identity.{find_exact, find_booking_for_parsed}
use ticketmirror.Ingestion.Identity.Finding.{
  IsFound, exact, provisional, absent, HasNone-find_exact, find_booking_for_parsed-IsFound,
}
use ticketmirror.Ingestion.Identity.Promotion.{
  IsTable, promote_booking_identity_if_needed-IsPromoted,
}
use ticketmirror.Ingestion.Ignored.{save_raw_email}
use ticketmirror.Ingestion.Followup.{
  Concern, completeness_concerns, is_cancellation, low_confidence_concerns,
  stray_cancellation_concerns, slot_concerns, product_concerns, resolve_obsolete_review_items,
  resolve_obsolete_booking_review_items,
}
use ticketmirror.Ingestion.Upsert.{
  write_booking, is_nonempty, settle, status_if_review, follow_up, refuse_without_reference,
  upsert_with_reference, upsert_if, detected, upsert_booking_from_parsed, concerns_unless,
}
use ticketmirror.Ingestion.Upsert.Reviewing.{
  Stay, same-Stay, Stay-trans, save_raw_email-Stay, create_reviews-Runs, IsFinal, IsProcessed,
  save_raw_email-rows, status-final,
}

-- What handling an email gives, in the database `r.1`.
pub record IsUpserted (db : Db) (raw : RawEmail) (p : ParsedBooking) (r : Option Booking × Db)
    : Type 0 where
  -- A booking is answered exactly where the email has a reference.
  pub answer : is_some r.0 ≡ has_text p.provider_booking_reference
  pub processed : IsProcessed r.1 raw.id
  pub emails : Stay raw.id db r.1
  pub queue : IsQueue r.1.reviews
  pub table : IsTable r.1.bookings

pub same-IsQueue :
    (db : Db) (raw : RawEmail) → IsQueue db.reviews → IsQueue (save_raw_email db raw).reviews
unfolding save_raw_email
same-IsQueue db raw q = q

pub same-IsTable :
    (db : Db) (raw : RawEmail) → IsTable db.bookings → IsTable (save_raw_email db raw).bookings
unfolding save_raw_email
same-IsTable db raw table = table

module _ (env : Environment) (raw : RawEmail) (p : ParsedBooking) where
  settle-Runs :
      (db : Db) (b : Booking) (unsettled : Bool)
      → IsQueue db.reviews
      → IsQueue (settle env db raw b unsettled).1.reviews
        × IsProcessed (settle env db raw b unsettled).1 raw.id
        × ((settle env db raw b unsettled).1.bookings ≡ db.bookings)
        × Stay raw.id db (settle env db raw b unsettled).1
  unfolding settle resolve_obsolete_review_items resolve_obsolete_booking_review_items
      save_raw_email
  settle-Runs db b unsettled q =
      let settled = record raw { parse_status = status_if_review unsettled } in
      let closed = resolve_obsolete_review_items env db settled b in
      (
        resolve_items-IsQueue closed _ env.now (resolve_items-IsQueue db _ env.now q),
        save_raw_email-rows IsFinal (resolve_obsolete_booking_review_items env closed b) settled
            (status-final unsettled),
        refl,
        Stay-trans raw.id db (resolve_obsolete_booking_review_items env closed b) _
            (same-Stay raw.id db _ refl)
            (save_raw_email-Stay (resolve_obsolete_booking_review_items env closed b) settled),
      )

  follow_up-Runs :
      (db : Db) (m : ProviderAliasMatch) (b : Booking)
      → IsQueue db.reviews
      → (r : Booking × Db) × (follow_up env db raw p m b ≡ ok r)
        × IsQueue r.1.reviews
        × IsProcessed r.1 raw.id
        × (r.1.bookings ≡ db.bookings)
        × Stay raw.id db r.1
  unfolding follow_up
  follow_up-Runs db m b q =
      let doubts = low_confidence_concerns p b in
      let products = product_concerns p b m in
      let s1 = create_reviews-Runs db raw (some b.id) doubts q in
      let s2 =
        create_reviews-Runs s1.value raw (some b.id) (stray_cancellation_concerns s1.value raw p b)
          s1.queue in
      let missing = concerns_unless (is_cancellation p b) (completeness_concerns s2.value raw b) in
      let s3 = create_reviews-Runs s2.value raw (some b.id) missing s2.queue in
      let slots = slot_concerns s3.value p b m in
      let s4 = create_reviews-Runs s3.value raw (some b.id) slots s3.queue in
      let s5 = create_reviews-Runs s4.value raw (some b.id) products s4.queue in
      let (warned, done, w) =
        warn_if_capacity_overbooked-IsWarned s5.value b (some raw.id) s5.queue in
      let unsettled : Bool =
        is_nonempty doubts
        || (is_nonempty missing || (is_nonempty products || (is_nonempty slots || warned.0))) in
      let (queue, processed, same, stay) = settle-Runs warned.1 b unsettled w.queue in
      (
        settle env warned.1 raw b unsettled,
        rw s1.done (rw s2.done (rw s3.done (rw s4.done (rw s5.done (rw done refl))))),
        queue,
        processed,
        same
            ∙ (w.bookings
                ∙ (s5.bookings ∙ (s4.bookings ∙ (s3.bookings ∙ (s2.bookings ∙ s1.bookings))))),
        Stay-trans raw.id db warned.1 _
            (same-Stay raw.id db warned.1 (
              w.raw_emails
              ∙ (s5.raw_emails
                  ∙ (s4.raw_emails ∙ (s3.raw_emails ∙ (s2.raw_emails ∙ s1.raw_emails))))))
            stay,
      )

  write_booking-Runs :
      (db : Db) (provider : Provider) (m : ProviderAliasMatch) (o : Option Booking)
      → IsFound env db provider p o
      → IsTable db.bookings
      → IsQueue db.reviews
      → (r : Booking × Db) × (write_booking db provider raw p m o ≡ ok r)
        × IsQueue r.1.reviews
        × IsTable r.1.bookings
        × (r.1.raw_emails ≡ db.raw_emails)
  unfolding write_booking
  write_booking-Runs db provider m none (absent unknown _) table q =
      let none_yet = HasNone-find_exact db provider p unknown in
      let (r, done, created) = create_booking-IsCreated db provider raw p m.alias none_yet in
      let none_there : find_exact db r.0.provider r.0.provider_booking_reference ≡ none =
        rw (created.identity.0, created.identity.1) none_yet in
      (
        r,
        done,
        rw created.reviews q,
        rw created.stored (append-IsTable db r.0 none_there table),
        created.raw_emails,
      )
  write_booking-Runs db provider m (some b) found table q =
      let (promoted, done, kept) =
        promote_booking_identity_if_needed-IsPromoted db b provider p raw table q in
      let (r, then_done, updated) =
        update_booking-IsUpdated promoted.1 promoted.0 raw p m.alias kept.queue in
      let (x, i, same) = kept.present (found_row db provider b found) in
      (
        r,
        rw done then_done,
        updated.queue,
        rw updated.saved (
            save_booking-IsTable promoted.1 r.0 x kept.table i
              (same_identity x promoted.0 r.0 same updated.identity)),
        updated.raw_emails ∙ kept.raw_emails,
      )
    where
      found_row :
          (db : Db) (provider : Provider) (b : Booking)
          → IsFound env db provider p (some b)
          → In b db.bookings
      found_row db provider b (exact _ i _ _) = i
      found_row db provider b (provisional _ i _ _) = i

      same_identity : (x y z : Booking) → SameIdentity x y → SameIdentity z y → SameIdentity x z
      same_identity x y z (a, c, e) (f, g, h) = (a ∙ sym f, c ∙ sym g, e ∙ sym h)

  upsert_with_reference-Runs :
      (db : Db) (provider : Provider)
      → IsTable db.bookings
      → IsQueue db.reviews
      → (r : Option Booking × Db) × (upsert_with_reference env db provider raw p ≡ ok r)
        × (is_some r.0 ≡ true)
        × IsProcessed r.1 raw.id
        × IsQueue r.1.reviews
        × IsTable r.1.bookings
        × Stay raw.id db r.1
  unfolding upsert_with_reference
  upsert_with_reference-Runs db provider table q =
      let m = match_product_alias env db provider.id p in
      let (w, written, wq, wt, we) =
        write_booking-Runs db provider m (find_booking_for_parsed env db provider p)
          (find_booking_for_parsed-IsFound env db provider p) table q in
      let (f, followed, fq, processed, same, stay) = follow_up-Runs w.1 m w.0 wq in
      (
        (some f.0, f.1),
        rw written (rw followed refl),
        refl,
        processed,
        fq,
        rw same wt,
        Stay-trans raw.id db w.1 f.1 (same-Stay raw.id db w.1 we) stay,
      )

  refuse_without_reference-Runs :
      (db : Db)
      → IsTable db.bookings
      → IsQueue db.reviews
      → (r : Option Booking × Db) × (refuse_without_reference db raw ≡ ok r)
        × (is_some r.0 ≡ false)
        × IsProcessed r.1 raw.id
        × IsQueue r.1.reviews
        × IsTable r.1.bookings
        × Stay raw.id db r.1
  unfolding refuse_without_reference
  refuse_without_reference-Runs db table q =
      let saved = save_raw_email db (record raw { parse_status = needs_review }) in
      let s =
        create_reviews-Runs saved raw none (no_reference ∷ [])
          (same-IsQueue db (record raw { parse_status = needs_review }) q) in
      (
        (none, s.value),
        rw s.done refl,
        refl,
        rw s.raw_emails (
            save_raw_email-rows IsFinal db (record raw { parse_status = needs_review }) (inr refl)),
        s.queue,
        rw s.bookings (same-IsTable db (record raw { parse_status = needs_review }) table),
        Stay-trans raw.id db saved s.value
            (save_raw_email-Stay db (record raw { parse_status = needs_review }))
            (same-Stay raw.id saved s.value s.raw_emails),
      )
    where
      no_reference : Concern
      no_reference = record {
        issue_type = reference_missing;
        title = "Booking reference missing";
        details = fixed "Parser could not find a stable provider booking reference.";
      }

  upsert_if-Runs :
      (t : Bool) (db : Db) (provider : Provider)
      → IsTable db.bookings
      → IsQueue db.reviews
      → (r : Option Booking × Db) × (upsert_if t env db provider raw p ≡ ok r)
        × (is_some r.0 ≡ t)
        × IsProcessed r.1 raw.id
        × IsQueue r.1.reviews
        × IsTable r.1.bookings
        × Stay raw.id db r.1
  unfolding upsert_if
  upsert_if-Runs true db provider table q = upsert_with_reference-Runs db provider table q
  upsert_if-Runs false db provider table q = refuse_without_reference-Runs db table q

pub found_or_added-kept :
    (db : Db) (code name : String) (o : Option Provider)
    → ((found_or_added db code name o).1.bookings ≡ db.bookings)
      × ((found_or_added db code name o).1.reviews ≡ db.reviews)
      × ((found_or_added db code name o).1.raw_emails ≡ db.raw_emails)
unfolding found_or_added canonical_provider add_provider
found_or_added-kept db code name none = (refl, refl, refl)
found_or_added-kept db code name (some p) = elim (Bool-cases (str_eq p.name name)) [
  | inl e ↦ rw e (refl, refl, refl)
  | inr e ↦ rw e (refl, refl, refl)
]

-- On a table where an identity has one booking, and a well-formed queue, the handling of a parsed
-- email succeeds. It answers a booking exactly where the email has a booking reference; the email is
-- then parsed or waits for review, so it is not taken up again as pending; the other stored
-- emails are as they were; the queue stays well formed, and every identity keeps to one booking.
pub upsert_booking_from_parsed-IsUpserted :
    (env : Environment) (db : Db) (raw : RawEmail) (p : ParsedBooking)
    → IsTable db.bookings
    → IsQueue db.reviews
    → (r : Option Booking × Db) × (upsert_booking_from_parsed env db raw p ≡ ok r)
      × IsUpserted db raw p r
unfolding upsert_booking_from_parsed get_or_create_provider
upsert_booking_from_parsed-IsUpserted env db raw p table q =
    let o = find? (λ x. str_eq x.code p.provider_code) db.providers in
    let name = provider_display_name env p.provider_code in
    let (same_bookings, same_reviews, same_emails) =
      found_or_added-kept db p.provider_code name o in
    let found = found_or_added db p.provider_code name o in
    let (r, done, answer, processed, queue, one_row, stay) =
      upsert_if-Runs env (detected raw found.0) p (has_text p.provider_booking_reference) found.1
        found.0 (rw same_bookings table) (rw same_reviews q) in
    (
      r,
      done,
      record {
        answer = answer;
        processed = processed;
        emails = Stay-trans raw.id db found.1 r.1 (same-Stay raw.id db found.1 same_emails) stay;
        queue = queue;
        table = one_row;
      },
    )
