-- ===== src/Ingestion/Tests.antt =====
-- The theorems on ingestion, tried on the sample database and email.
use ticketmirror.Base.{◌≡◌, refl, sym, ◌∙◌, inl, inr, Option, none, some, [], ◌∷◌, In, arith}
use ticketmirror.Base.Result.{ok}
use ticketmirror.Data.{Db, Booking, RawEmail, Value, email_cancellation}
use ticketmirror.Bookings.Overrides.{is_manually_overridden}
use ticketmirror.Bookings.Queue.OneOpen.{IsQueue}
use ticketmirror.Ingestion.Parsed.{ParsedBooking, provider_values_from_parsed}
use ticketmirror.Ingestion.Slots.{alias_values}
use ticketmirror.Ingestion.Update.{update_booking, merge_values}
use ticketmirror.Ingestion.Update.Outcome.{IsUpdated, update_booking-IsUpdated}
use ticketmirror.Ingestion.Update.Cancelled.{IsCancelled, merge_values-IsCancelled}
use ticketmirror.Ingestion.Update.Active.{travel_date, merge_values-follows}
use ticketmirror.Ingestion.Identity.{find_exact, promote_booking_identity_if_needed}
use ticketmirror.Ingestion.Identity.Promotion.{
  IsTable, IsPromoted, promote_booking_identity_if_needed-IsPromoted,
}
use ticketmirror.Ingestion.Create.{create_booking}
use ticketmirror.Ingestion.Create.Created.{IsCreated, create_booking-IsCreated}
use ticketmirror.Ingestion.Ignored.{mark_raw_email_ignored}
use ticketmirror.Ingestion.Ignored.Cancelling.{IsIgnored, mark_raw_email_ignored-IsIgnored}
use ticketmirror.Ingestion.Upsert.{upsert_booking_from_parsed}
use ticketmirror.Ingestion.Upsert.Running.{IsUpserted, upsert_booking_from_parsed-IsUpserted}
use ticketmirror.Ingestion.Process.{process_raw_email}
use ticketmirror.Ingestion.Process.Kept.{IsFinished}
use ticketmirror.Ingestion.Ignored.Hits.{HasIds}
use ticketmirror.Ingestion.Process.Finished.{process_raw_email-IsFinished}
use ticketmirror.Ingestion.Store.{Stored, store_raw_email, process_gmail_message}
use ticketmirror.Ingestion.Store.Once.{
  IsStoredOnce, store_raw_email-IsStoredOnce, process_gmail_message-settled,
}
use ticketmirror.Samples.{
  settled_db, settled_raw, message, reading, db, booking, cancelled_booking, provider, alias, raw,
  env, parsed,
}

empty-IsQueue : IsQueue []
empty-IsQueue = record { one_open = λ k. omega arith }

only_one : (b c : Booking) → In b (booking ∷ []) → In c (booking ∷ []) → b ≡ c
only_one b c (inl p) (inl q) = p ∙ sym q
only_one b c (inl p) (inr x) = absurd x
only_one b c (inr x) j = absurd x

ids : HasIds db.bookings
ids = record { one_row = λ b c i j e. only_one b c i j }

table : IsTable db.bookings
table = record { one_row = λ b c i j p q. λ k. (only_one b c i j k).id }

update_booking-IsUpdated_example :
    (r : Booking × Db) × (update_booking db booking raw parsed (some alias) ≡ ok r)
    × IsUpdated db booking raw parsed (some alias) r
update_booking-IsUpdated_example =
    update_booking-IsUpdated db booking raw parsed (some alias) empty-IsQueue

merge_values-IsCancelled_example :
    IsCancelled
      (merge_values cancelled_booking
        (provider_values_from_parsed parsed)
        (alias_values db (some alias) parsed)).booking
merge_values-IsCancelled_example =
    merge_values-IsCancelled cancelled_booking (provider_values_from_parsed parsed) db (some alias)
      parsed refl

-- A cancellation that states no date.
abbrev dateless : ParsedBooking
dateless = record (parsed) { event_type = email_cancellation; travel_date = none }

merge_values-follows_example :
    (merge_values booking
        (provider_values_from_parsed dateless)
        (alias_values db none dateless)).booking.columns
      "active_travel_date"
    ≡ Value.null
unfolding is_manually_overridden
merge_values-follows_example = merge_values-follows travel_date booking dateless db none refl

promote_booking_identity_if_needed-IsPromoted_example :
    (r : Booking × Db) × (promote_booking_identity_if_needed db booking provider parsed raw ≡ ok r)
    × IsPromoted db booking provider "GYG2" raw r
promote_booking_identity_if_needed-IsPromoted_example =
    promote_booking_identity_if_needed-IsPromoted db booking provider parsed raw table empty-IsQueue

create_booking-IsCreated_example :
    (r : Booking × Db) × (create_booking db provider raw parsed (some alias) ≡ ok r)
    × IsCreated db provider raw parsed r
unfolding find_exact
create_booking-IsCreated_example = create_booking-IsCreated db provider raw parsed (some alias) refl

mark_raw_email_ignored-IsIgnored_example :
    IsIgnored db (mark_raw_email_ignored env db raw "GetYourGuide newsletter sender") raw
mark_raw_email_ignored-IsIgnored_example =
    mark_raw_email_ignored-IsIgnored env db raw "GetYourGuide newsletter sender" ids

upsert_booking_from_parsed-IsUpserted_example :
    (r : Option Booking × Db) × (upsert_booking_from_parsed env db raw parsed ≡ ok r)
    × IsUpserted db raw parsed r
upsert_booking_from_parsed-IsUpserted_example =
    upsert_booking_from_parsed-IsUpserted env db raw parsed table empty-IsQueue

process_raw_email-IsFinished_example :
    (r : Option Booking × Db) × (process_raw_email env reading db 20 ≡ ok r) × IsFinished db 20 r
process_raw_email-IsFinished_example =
    process_raw_email-IsFinished env reading db raw 20 refl table empty-IsQueue

one_message :
    (r x y : RawEmail)
    → In x (r ∷ [])
    → In y (r ∷ [])
    → x.gmail_message_id ≡ y.gmail_message_id
    → x ≡ y
one_message r x y (inl p) (inl q) e = p ∙ sym q
one_message r x y (inl p) (inr j) e = absurd j
one_message r x y (inr i) j e = absurd i

store_raw_email-IsStoredOnce_example : IsStoredOnce db message (store_raw_email db message)
store_raw_email-IsStoredOnce_example =
    store_raw_email-IsStoredOnce db message (record { one_row = one_message raw })

process_gmail_message-settled_example :
    (s : Stored) × (process_gmail_message env reading settled_db message ≡ ok (some s.row, s.db))
    × (s.row.parse_status ≡ settled_raw.parse_status)
    × IsStoredOnce settled_db message s
process_gmail_message-settled_example =
    process_gmail_message-settled env reading settled_db message settled_raw
      (record { one_row = one_message settled_raw }) refl refl
