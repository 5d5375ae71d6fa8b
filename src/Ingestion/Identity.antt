-- ===== src/Ingestion/Identity.antt =====
-- Which booking an email is about, and under which provider and reference it goes on:
-- `_find_booking_for_parsed`, `_find_bookeo_provisional_booking`,
-- `_promote_booking_identity_if_needed`.
pub mod Tied
pub mod Finding
pub mod Promotion
pub mod Table
use Prim.Native.String.{◌++◌ as join}
use ticketmirror.Base.{
  ℕ, String, Bool, true, false, not, ◌&&◌, ◌||◌, Option, none, some, List, [], ◌∷◌, ◌++◌, ◌==◌, ltb,
  str_eq, if◌then◌else◌, filter, find?, head?, is_some, or_else, map,
}
use ticketmirror.Base.Order.{lex}
use ticketmirror.Base.Sort.{sort}
use ticketmirror.Base.Result.{Result, ok, err, ◌>>=◌}
use ticketmirror.Data.{
  Db, Provider, Booking, Value, null, text, num, date, time, value_eq, truthy, cancelled, rejected,
  Status, RawEmail, email_update, possible_duplicate, duplicate_of, Entry, flag, values,
}
use ticketmirror.Bookings.Errors.{ServiceError}
use ticketmirror.Bookings.Overrides.{Values}
use ticketmirror.Bookings.Queue.{create_review_item}
use ticketmirror.Bookings.Reviews.{has_text, provider_code}
use ticketmirror.Bookings.Capacity.{status_in}
use ticketmirror.Bookings.Rows.{has_identity}
use ticketmirror.Ingestion.Environment.{Environment}
use ticketmirror.Ingestion.Parsed.{ParsedBooking, opt_date, opt_time, opt_num}
use ticketmirror.Ingestion.Update.{create_booking_event}

-- `.order_by("-last_email_received_at", "-id")`; PostgreSQL puts NULL first in a descending order.
abbrev pub later : Option ℕ → Option ℕ → Bool
later none none = true
later none (some n) = true
later (some m) none = false
later (some m) (some n) = not (ltb m n)

unfoldable pub newer_first : Booking → Booking → Bool
newer_first b c =
    if later b.last_email_received_at c.last_email_received_at
    then (if later c.last_email_received_at b.last_email_received_at
        then not (ltb b.id c.id)
        else true)
    else false

unfoldable pub newest : List Booking → Option Booking
unfolding newer_first
newest bs = head? (sort newer_first bs)

-- The bookings of Bookeo that bear a Bookeo number.
unfoldable pub has_bookeo_number : String → Booking → Bool
has_bookeo_number number b =
    str_eq b.provider_booking_reference number
    || value_eq (b.columns "provider_order_reference") (text (join "Bookeo " number))

unfoldable pub by_bookeo_number : Db → ℕ → Option String → Option Booking
unfolding newest has_bookeo_number
by_bookeo_number db bookeo none = none
by_bookeo_number db bookeo (some number) =
    if has_text number
    then newest (filter (λ b. b.provider == bookeo && has_bookeo_number number b) db.bookings)
    else none

abbrev pub text_test : (String → Bool) → Value → Bool
text_test test (text s) = test s
text_test test _ = false

abbrev pub is_closed : Status → Bool
is_closed cancelled = true
is_closed rejected = true
is_closed _ = false

abbrev pub opt_truthy : Option String → Bool
opt_truthy none = false
opt_truthy (some s) = has_text s

-- The fields that tie a provisional booking to an email, where the email has them all.
unfoldable pub has_match_fields : ParsedBooking → Bool
has_match_fields p =
    is_some p.travel_date
    && (is_some p.start_time && (is_some p.traveler_count && opt_truthy p.lead_traveler_name))

unfoldable pub same_name : Environment → Option String → Value → Bool
same_name env none v = false
same_name env (some name) v = text_test (λ s. env.iexact s name) v

unfoldable pub is_candidate : Environment → ℕ → ParsedBooking → Booking → Bool
unfolding same_name status_in
is_candidate env bookeo p b =
    b.provider == bookeo
    && (value_eq (b.columns "provider_travel_date") (opt_date p.travel_date)
        && (value_eq (b.columns "provider_start_time") (opt_time p.start_time)
            && (value_eq (b.columns "provider_traveler_count") (opt_num p.traveler_count)
                && (same_name env p.lead_traveler_name (b.columns "lead_traveler_name")
                    && not (status_in is_closed b)))))

-- `icontains` takes the text searched first.
unfoldable pub has_same_product : Environment → ParsedBooking → Booking → Bool
has_same_product env p b =
    text_test
      (λ s.
        env.iexact s p.raw_product_name
        || (env.icontains s p.raw_product_name || (env.icontains s p.provider_code || str_eq s "")))
      (b.columns "raw_product_name")

unfoldable pub by_details : Environment → Db → ℕ → ParsedBooking → Option Booking
unfolding has_match_fields is_candidate has_same_product newest
by_details env db bookeo p =
    if has_match_fields p
    then newest (
        filter
          (λ b.
            is_candidate env bookeo p b
            && (not (has_text p.raw_product_name) || has_same_product env p b))
          db.bookings)
    else none

unfoldable pub provisional_of : Environment → Db → ParsedBooking → Option Provider → Option Booking
unfolding by_bookeo_number by_details
provisional_of env db p none = none
provisional_of env db p (some bookeo) =
    or_else (by_bookeo_number db bookeo.id p.bookeo_booking_number) (by_details env db bookeo.id p)

unfoldable pub find_bookeo_provisional_booking : Environment → Db → ParsedBooking → Option Booking
unfolding provisional_of
find_bookeo_provisional_booking env db p =
    if str_eq p.provider_code "bookeo"
    then none
    else provisional_of env db p (find? (λ x. str_eq x.code "bookeo") db.providers)

unfoldable pub find_exact : Db → ℕ → String → Option Booking
unfolding has_identity
find_exact db provider reference = find? (has_identity provider reference) db.bookings

unfoldable pub find_booking_for_parsed :
    Environment → Db → Provider → ParsedBooking → Option Booking
unfolding find_exact find_bookeo_provisional_booking
find_booking_for_parsed env db provider p =
    or_else (find_exact db provider.id p.provider_booking_reference)
      (find_bookeo_provisional_booking env db p)

-- What differs of the identity, as (name, old, new).
unfoldable pub identity_changes : Db → Booking → Provider → String → List (String × (Value × Value))
unfolding provider_code
identity_changes db b provider reference =
    (if b.provider == provider.id
      then []
      else ("provider", (text (provider_code db b.provider), text provider.code)) ∷ [])
    ++ (if str_eq b.provider_booking_reference reference
        then []
        else ("provider_booking_reference", (text b.provider_booking_reference, text reference))
          ∷ [])

abbrev pub old_of : List (String × (Value × Value)) → Values
old_of = map (λ c. (c.0, c.1.0))

abbrev pub new_of : List (String × (Value × Value)) → Values
new_of = map (λ c. (c.0, c.1.1))

-- `booking.save(update_fields=["provider", "provider_booking_reference", "updated_at"])`
unfoldable pub save_identity : Booking → Booking → Booking
save_identity b row =
    if row.id == b.id
    then record row {
      provider = b.provider;
      provider_booking_reference = b.provider_booking_reference;
    }
    else row

unfoldable pub move_identity :
    Db → Booking → Provider → String → RawEmail → List (String × (Value × Value)) → Booking × Db
unfolding save_identity create_booking_event
move_identity db b provider reference raw changes =
    let c = record b { provider = provider.id; provider_booking_reference = reference } in
    (
      c,
      create_booking_event (record db { bookings = map (save_identity c) db.bookings }) c raw
          email_update (old_of changes)
          (("cross_channel_identity_merge", flag true)
            ∷ ("changed_values", values (new_of changes))
            ∷ []),
    )

unfoldable pub promote_or_report :
    Db
    → Booking
    → Provider
    → String
    → RawEmail
    → List (String × (Value × Value))
    → Option Booking
    → Result ServiceError (Booking × Db)
unfolding create_review_item move_identity provider_code
promote_or_report db b provider reference raw changes none =
    ok (move_identity db b provider reference raw changes)
promote_or_report db b provider reference raw changes (some conflict) = do
  db' ←
      create_review_item db
        (record { raw_email = some raw.id; booking = some b.id; issue_type = possible_duplicate })
        "Cross-channel duplicate candidate"
        (duplicate_of (provider_code db conflict.provider) conflict.provider_booking_reference)
  ok (b, db')

unfoldable pub promote_changes :
    Db
    → Booking
    → Provider
    → String
    → RawEmail
    → List (String × (Value × Value))
    → Result ServiceError (Booking × Db)
unfolding promote_or_report has_identity
promote_changes db b provider reference raw [] = ok (b, db)
promote_changes db b provider reference raw (c ∷ cs) =
    promote_or_report db b provider reference raw (c ∷ cs)
      (find? (λ x. has_identity provider.id reference x && not (x.id == b.id)) db.bookings)

unfoldable pub promote_booking_identity_if_needed :
    Db → Booking → Provider → ParsedBooking → RawEmail → Result ServiceError (Booking × Db)
unfolding promote_changes identity_changes
promote_booking_identity_if_needed db b provider p raw =
    promote_changes db b provider p.provider_booking_reference raw
      (identity_changes db b provider p.provider_booking_reference)
