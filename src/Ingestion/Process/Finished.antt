-- ===== src/Ingestion/Process/Finished.antt =====
-- Every stored email that is processed is finished with.
use Prim.Native.String.{◌++◌ as join}
use ticketmirror.Base.{
  ℕ, String, ◌≡◌, refl, inl, inr, false, Option, none, some, [], ◌∷◌, ◌==◌, str_eq, find?,
  Bool-cases,
}
use ticketmirror.Base.Result.{Result, ok, err}
use ticketmirror.Data.{
  Db, Provider, Booking, RawEmail, ParseStatus, failed, needs_review, provider_not_detected, fixed,
}
use ticketmirror.Bookings.Queue.{resolve_items}
use ticketmirror.Bookings.Queue.OneOpen.{IsQueue, resolve_items-IsQueue}
use ticketmirror.Bookings.Reviews.{has_text}
use ticketmirror.Ingestion.Environment.{Environment}
use ticketmirror.Ingestion.Parsed.{ParsedBooking}
use ticketmirror.Ingestion.Providers.{get_or_create_provider, found_or_added, provider_display_name}
use ticketmirror.Ingestion.Identity.Promotion.{IsTable}
use ticketmirror.Ingestion.Ignored.{
  save_raw_email, mark_raw_email_ignored, bookings_of_email,
  cancel_false_bookings_for_ignored_raw_email, resolve_reviews_for_ignored_raw_email, as_ignored,
}
use ticketmirror.Ingestion.Followup.{Concern}
use ticketmirror.Ingestion.Upsert.Running.{
  same-IsQueue, same-IsTable, found_or_added-kept, upsert_booking_from_parsed-IsUpserted,
}
use ticketmirror.Ingestion.Upsert.Reviewing.{
  Stay-trans, same-Stay, save_raw_email-Stay, create_reviews-Runs, save_raw_email-rows, IsFinal,
}
use ticketmirror.Ingestion.Process.{
  Reading, parser_concern, give_up, undetected, unregistered, finish_parse, ignore, parser_key,
  run_parser, with_provider, read_as, read_provider, process_row, process_raw_email,
}
use ticketmirror.Ingestion.Process.Kept.{
  is_pending, IsDone, IsFinished, Finishes, Finishes-after, cancel_each-IsKept,
}

module _ (db : Db) (raw : RawEmail) (table : IsTable db.bookings) (queue : IsQueue db.reviews) where
  ignore-Finishes :
      (env : Environment) (reason : String) → Finishes db raw.id (ignore env db raw reason)
  unfolding ignore mark_raw_email_ignored cancel_false_bookings_for_ignored_raw_email
      resolve_reviews_for_ignored_raw_email resolve_items save_raw_email
  ignore-Finishes env reason =
      let ignored_raw = as_ignored raw reason in
      let db' =
        resolve_reviews_for_ignored_raw_email env (save_raw_email db ignored_raw) ignored_raw in
      let k = cancel_each-IsKept db' (bookings_of_email db' ignored_raw) ignored_raw reason in
      (
        _,
        refl,
        record {
          done = rw k.raw_emails (save_raw_email-rows IsDone db ignored_raw refl);
          emails =
              Stay-trans raw.id db (save_raw_email db ignored_raw) _
                (save_raw_email-Stay db ignored_raw)
                (same-Stay raw.id (save_raw_email db ignored_raw) _ k.raw_emails);
          queue = rw k.reviews (resolve_items-IsQueue db _ env.now queue);
          table = k.table table;
        },
      )

  give_up-Finishes :
      (status : ParseStatus) (message : String) (c : Concern)
      → is_pending status ≡ false
      → Finishes db raw.id (give_up db raw status message c)
  unfolding give_up
  give_up-Finishes status message c h =
      let marked = record raw { parse_status = status; parse_error = some message } in
      let s =
        create_reviews-Runs (save_raw_email db marked) raw none (c ∷ [])
          (same-IsQueue db marked queue) in
      (
        (none, s.value),
        rw s.done refl,
        record {
          done = rw s.raw_emails (save_raw_email-rows IsDone db marked h);
          emails =
              Stay-trans raw.id db (save_raw_email db marked) s.value
                (save_raw_email-Stay db marked)
                (same-Stay raw.id (save_raw_email db marked) s.value s.raw_emails);
          queue = s.queue;
          table = rw s.bookings (same-IsTable db marked table);
        },
      )

  final-done : (row : RawEmail) → IsFinal row → is_pending row.parse_status ≡ false
  final-done row (inl e) = rw e refl
  final-done row (inr e) = rw e refl

  finish_parse-Finishes :
      (env : Environment) (o : Result String ParsedBooking)
      → Finishes db raw.id (finish_parse env db raw o)
  unfolding finish_parse
  finish_parse-Finishes env (err message) =
      give_up-Finishes failed message (parser_concern "Parser error" message) refl
  finish_parse-Finishes env (ok p) =
      let (r, done, u) = upsert_booking_from_parsed-IsUpserted env db raw p table queue in
      (
        r,
        done,
        record {
          done = λ row i e. final-done row (u.processed row i e);
          emails = u.emails;
          queue = u.queue;
          table = u.table;
        },
      )

  run_parser-Finishes :
      (env : Environment) (reading : Reading) (view : RawEmail) (provider : Provider)
      → Finishes db raw.id (run_parser env reading db raw view provider)
  unfolding run_parser unregistered
  run_parser-Finishes env reading view provider =
      elim (Bool-cases (reading.has_parser (parser_key provider))) [
        | inl t ↦ rw t (finish_parse-Finishes env (reading.parse (parser_key provider) view))
        | inr f ↦
            let message = join "No parser registered for " (join provider.code ".") in
            rw f (
              give_up-Finishes failed message (parser_concern "Parser not registered" message) refl)
      ]

  undetected-Finishes : Finishes db raw.id (undetected db raw)
  unfolding undetected
  undetected-Finishes =
      give_up-Finishes needs_review "Provider could not be detected."
        (record {
          issue_type = provider_not_detected;
          title = "Provider not detected";
          details = fixed "No deterministic provider pattern matched this email.";
        })
        refl

module _ (env : Environment) (reading : Reading) where
  read_as-Finishes :
      (db : Db) (raw view : RawEmail) (provider : Provider)
      → IsTable db.bookings
      → IsQueue db.reviews
      → Finishes db raw.id (read_as env reading db raw view provider)
  unfolding read_as
  read_as-Finishes db raw view provider table queue =
      let raw' = with_provider raw provider in
      let db' = save_raw_email db raw' in
      let t' = same-IsTable db raw' table in
      let q' = same-IsQueue db raw' queue in
      Finishes-after db db' raw.id _ (save_raw_email-Stay db raw')
        (elim (Bool-cases (has_text (reading.ignore_reason view))) [
          | inl t ↦ rw t (ignore-Finishes db' raw' t' q' env (reading.ignore_reason view))
          | inr f ↦ rw f (run_parser-Finishes db' raw' t' q' env reading view provider)
        ])

  read_provider-Finishes :
      (db : Db) (raw view : RawEmail) (o : Option String)
      → IsTable db.bookings
      → IsQueue db.reviews
      → Finishes db raw.id (read_provider env reading db raw view o)
  unfolding read_provider get_or_create_provider
  read_provider-Finishes db raw view none table queue =
      elim (Bool-cases (has_text (reading.ignore_reason view))) [
        | inl t ↦ rw t (ignore-Finishes db raw table queue env (reading.ignore_reason view))
        | inr f ↦ rw f (undetected-Finishes db raw table queue)
      ]
  read_provider-Finishes db raw view (some code) table queue =
      let o = find? (λ x. str_eq x.code code) db.providers in
      let name = provider_display_name env code in
      let (same_bookings, same_reviews, same_emails) = found_or_added-kept db code name o in
      let found = found_or_added db code name o in
      Finishes-after db found.1 raw.id _ (same-Stay raw.id db found.1 same_emails)
        (read_as-Finishes found.1 raw view found.0 (rw same_bookings table) (rw same_reviews queue))

  process_row-Finishes :
      (db : Db) (raw : RawEmail)
      → IsTable db.bookings
      → IsQueue db.reviews
      → Finishes db raw.id (process_row env reading db raw)
  unfolding process_row
  process_row-Finishes db raw table queue =
      let view = reading.translated raw in
      elim (Bool-cases (has_text (reading.ignore_reason view))) [
        | inl t ↦ rw t (ignore-Finishes db raw table queue env (reading.ignore_reason view))
        | inr f ↦
            rw f (read_provider-Finishes db raw view (reading.detect_provider view) table queue)
      ]

  -- Whatever the texts are read as, on a table where an identity has one booking and a well-formed
  -- queue the processing of a stored email succeeds. The email is not pending afterwards, the
  -- other stored emails are as they were, every identity keeps to one booking, and the queue stays well formed.
  pub process_raw_email-IsFinished :
      (db : Db) (raw : RawEmail) (id : ℕ)
      → find? (λ r. r.id == id) db.raw_emails ≡ some raw
      → IsTable db.bookings
      → IsQueue db.reviews
      → (r : Option Booking × Db) × (process_raw_email env reading db id ≡ ok r)
        × IsFinished db raw.id r
  unfolding process_raw_email
  process_raw_email-IsFinished db raw id e table queue =
      let (r, done, finished) = process_row-Finishes db raw table queue in (r, rw e done, finished)
