-- ===== src/Bookings/Rows.antt =====
-- `Booking.objects.create(…)`: the defaults of the columns, the unique constraint on provider and
-- reference, and the new id (Booking of apps/bookings/models.py).
use ticketmirror.Base.{
  ℕ, ◌+◌, String, Bool, ◌&&◌, Option, none, some, [], ◌∷◌, ◌++◌, ◌==◌, str_eq, any,
}
use ticketmirror.Base.Result.{Result, ok, ◌>>◌, raise_if}
use ticketmirror.Base.Names.{lookup}
use ticketmirror.Data.{Db, Booking, Value, null, text, json, status, pending_provider_acceptance}
use ticketmirror.Bookings.Errors.{ServiceError, integrity_error}
use ticketmirror.Bookings.Overrides.{Values, set_column}

abbrev pub defaults : Values
defaults =
    ("status", status pending_provider_acceptance)
    ∷ ("attendance_status", text "")
    ∷ ("raw_product_name", text "")
    ∷ ("provider_slot_type", text "")
    ∷ ("active_slot_type", text "")
    ∷ ("traveler_names", json "[]")
    ∷ ("ticket_breakdown", json "{}")
    ∷ ("price", json "{}")
    ∷ []

abbrev pub default_or_null : Option Value → Value
default_or_null none = null
default_or_null (some v) = v

unfoldable pub new_booking : ℕ → ℕ → String → Booking
new_booking id provider reference = record {
  id = id;
  provider = provider;
  provider_booking_reference = reference;
  source_thread_id = none;
  last_email_received_at = none;
  manual_override_fields = [];
  columns = λ name. default_or_null (lookup name defaults);
}

unfoldable pub set_columns : Booking → Values → Booking
unfolding set_column
set_columns b [] = b
set_columns b ((name, v) ∷ values) = set_columns (set_column b name v) values

unfoldable pub has_identity : ℕ → String → Booking → Bool
has_identity provider reference b =
    b.provider == provider && str_eq b.provider_booking_reference reference

-- The row `b` gets the next id.
unfoldable pub create_row : Db → Booking → Result ServiceError Db
unfolding has_identity
create_row db b = do
  raise_if (any (has_identity b.provider b.provider_booking_reference) db.bookings) integrity_error
  ok (record db { bookings = db.bookings ++ b ∷ []; next_id = db.next_id + 1 })
