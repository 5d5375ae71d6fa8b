-- ===== src/Commands/Stale/Same.antt =====
-- The command ignores an email as the pipeline does: it has its own copy of the code.
use ticketmirror.Base.{
  ℕ, ◌+◌, ◌≡◌, refl, ◌∙◌, ap, String, true, false, Option, none, some, List, [], ◌∷◌, ◌==◌,
  if◌then◌else◌, find?, arith, length, length-append, Bool-cases, inl, inr,
}
use ticketmirror.Base.Result.{ok}
use ticketmirror.Data.{Db, Booking, Status, as_status, RawEmail, ReviewQueueItem, opt_eq}
use ticketmirror.Bookings.Capacity.{status_in, test_status}
use ticketmirror.Bookings.Overrides.{set_column}
use ticketmirror.Bookings.Queue.{resolve_if, resolve_items}
use ticketmirror.Bookings.Reviews.{has_text}
use ticketmirror.Ingestion.Environment.{Environment}
use ticketmirror.Ingestion.Ignored.{
  is_settled, other_thread, is_event_of, has_other_events, safe_to_cancel_ignored_raw_email_booking,
  cancel_row, cancel_false_booking, cancel_each, bookings_of_email,
  cancel_false_bookings_for_ignored_raw_email, resolve_reviews_for_ignored_raw_email, as_ignored,
  save_raw_email, mark_raw_email_ignored,
}
use ticketmirror.Ingestion.Ignored.Hits.{map_cong}
use ticketmirror.Ingestion.Process.{Reading}
use ticketmirror.Ingestion.Update.{create_booking_event}
use ticketmirror.Commands.Stale.{
  Reclassified, not_ignored, save_status, is_open_of, closed, close_reviews, is_over, differs,
  has_event_elsewhere, safe_to_cancel_non_booking, cancel_non_booking, cancel_non_bookings,
  bookings_with_event, ignore_row, reclassify_row, reclassify_non_booking_email,
}

is_over-eq : (s : Option Status) → test_status is_over s ≡ test_status is_settled s
is_over-eq none = refl
is_over-eq (some Status.confirmed) = refl
is_over-eq (some s) = refl

differs-eq : (m t : Option String) → differs m t ≡ other_thread m t
differs-eq none t = refl
differs-eq (some m) none = refl
differs-eq (some m) (some t) = ground arith

safe-eq :
    (db : Db) (b : Booking) (raw : RawEmail)
    → safe_to_cancel_non_booking db b raw ≡ safe_to_cancel_ignored_raw_email_booking db b raw
unfolding safe_to_cancel_non_booking safe_to_cancel_ignored_raw_email_booking status_in
    has_event_elsewhere has_other_events is_event_of
safe-eq db b raw =
    rw
      (
        is_over-eq (as_status (b.columns "status")),
        differs-eq raw.gmail_thread_id b.source_thread_id,
      )
      refl

cancel-eq :
    (db : Db) (b : Booking) (raw : RawEmail) (reason : String)
    → cancel_non_booking db b raw reason ≡ cancel_false_booking db b raw reason
unfolding cancel_non_booking cancel_false_booking cancel_row create_booking_event set_column
cancel-eq db b raw reason = refl

-- The loops do the same, and the number is that of the events.
cancel_non_bookings-eq :
    (db : Db) (n : ℕ) (bs : List Booking) (raw : RawEmail) (reason : String)
    → (cancel_non_bookings db n bs raw reason).1 ≡ cancel_each db bs raw reason
unfolding cancel_non_bookings cancel_each
cancel_non_bookings-eq db n [] raw reason = refl
cancel_non_bookings-eq db n (b ∷ bs) raw reason =
    elim (Bool-cases (safe_to_cancel_ignored_raw_email_booking db b raw)) [
      | inl t ↦
          let u = safe-eq db b raw ∙ t in
          rw (t, u, ← cancel-eq db b raw reason)
            (cancel_non_bookings-eq (cancel_non_booking db b raw reason) (n + 1) bs raw reason)
      | inr f ↦
          let u = safe-eq db b raw ∙ f in rw (f, u) (cancel_non_bookings-eq db n bs raw reason)
    ]

cancel_non_bookings-events :
    (db : Db) (n : ℕ) (bs : List Booking) (raw : RawEmail) (reason : String)
    → length (cancel_non_bookings db n bs raw reason).1.events + n
      ≡ length db.events + (cancel_non_bookings db n bs raw reason).0
unfolding cancel_non_bookings cancel_non_booking
cancel_non_bookings-events db n [] raw reason = refl
cancel_non_bookings-events db n (b ∷ bs) raw reason =
    elim (Bool-cases (safe_to_cancel_non_booking db b raw)) [
      | inl t ↦ rw t (
          omega (
            arith,
            cancel_non_bookings-events (cancel_non_booking db b raw reason) (n + 1) bs raw reason,
            length-append {0} db.events _,
          ))
      | inr f ↦ rw f (cancel_non_bookings-events db n bs raw reason)
    ]

close_reviews-eq :
    (env : Environment) (db : Db) (raw : RawEmail)
    → close_reviews db raw env.now ≡ resolve_reviews_for_ignored_raw_email env db raw
unfolding close_reviews resolve_reviews_for_ignored_raw_email resolve_items
close_reviews-eq env db raw =
    ap (λ reviews. record db { reviews = reviews }) (map_cong _ _ db.reviews (λ r i. same r))
  where
    same :
        (r : ReviewQueueItem)
        → (if is_open_of raw r then closed env.now r else r)
          ≡ resolve_if (λ x. opt_eq x.raw_email (some raw.id)) env.now r
    same r = ground arith

-- What ignoring an email leaves: what the pipeline leaves, and as many events as bookings cancelled.
pub record IsSame (env : Environment) (db : Db) (raw : RawEmail) (reason : String)
    (r : Reclassified × Db) : Type 0 where
  pub same : r.1 ≡ mark_raw_email_ignored env db raw reason
  pub ignored : r.0.ignored ≡ true
  pub counted : length r.1.events ≡ length db.events + r.0.cancelled_bookings

bookings_with_event-eq :
    (db : Db) (raw : RawEmail) → bookings_with_event db raw ≡ bookings_of_email db raw
unfolding bookings_with_event bookings_of_email is_event_of
bookings_with_event-eq db raw = refl

ignored-eq :
    (env : Environment) (db : Db) (raw : RawEmail) (reason : String)
    → (ignore_row env db raw reason).1 ≡ mark_raw_email_ignored env db raw reason
unfolding ignore_row mark_raw_email_ignored cancel_false_bookings_for_ignored_raw_email save_status
    save_raw_email
ignored-eq env db raw reason =
    let marked = as_ignored raw reason in
    let saved = save_raw_email db marked in
    let swept = close_reviews saved marked env.now in
    cancel_non_bookings-eq swept 0 (bookings_with_event swept marked) marked reason
    ∙ ap (λ bs. cancel_each swept bs marked reason) (bookings_with_event-eq swept marked)
    ∙ ap (λ x. cancel_each x (bookings_of_email x marked) marked reason)
        (close_reviews-eq env saved marked)

ignore_row-IsSame :
    (env : Environment) (db : Db) (raw : RawEmail) (reason : String)
    → IsSame env db raw reason (ignore_row env db raw reason)
unfolding ignore_row close_reviews save_status
ignore_row-IsSame env db raw reason =
    let marked = as_ignored raw reason in
    let swept = close_reviews (save_status db marked) marked env.now in
    record {
      same = ignored-eq env db raw reason;
      ignored = refl;
      counted = omega (
        arith,
        cancel_non_bookings-events swept 0 (bookings_with_event swept marked) marked reason,
      );
    }

-- Reclassifying a stored email does nothing where there is no reason to ignore it. Where there is one, it
-- leaves the database exactly as `mark_raw_email_ignored` of the pipeline does, though the code is a copy,
-- and reports as many cancelled bookings as it left events.
pub reclassify_non_booking_email-IsSame :
    (env : Environment) (reading : Reading) (db : Db) (id : ℕ) (raw : RawEmail)
    → find? (λ r. r.id == id) db.raw_emails ≡ some raw
    → let reason = reading.ignore_reason (reading.translated raw) in
      (r : Reclassified × Db) × (reclassify_non_booking_email env reading db id ≡ ok r)
      × (has_text reason ≡ false → r ≡ (not_ignored, db))
      × (has_text reason ≡ true → IsSame env db raw reason r)
unfolding reclassify_non_booking_email reclassify_row
reclassify_non_booking_email-IsSame env reading db id raw e =
    let reason = reading.ignore_reason (reading.translated raw) in
    elim (Bool-cases (has_text reason)) [
      | inl t ↦ (
        ignore_row env db raw reason,
        rw (e, t) refl,
        (λ f. cc),
        (λ u. ignore_row-IsSame env db raw reason),
      )
      | inr f ↦ ((not_ignored, db), rw (e, f) refl, (λ g. refl), (λ t. cc))
    ]
