-- ===== src/Bookings/Overrides.antt =====
-- Manual edits and what protects them, of apps/bookings/services.py: `apply_manual_override`, the
-- comparison of provider values with a booking, the conflicts and the active updates.
pub mod Edits
use ticketmirror.Base.{
  ℕ, ◌+◌, String, Bool, true, false, not, Option, none, some, List, [], ◌∷◌, ◌++◌, ◌==◌, str_eq,
  if◌then◌else◌, filter, map,
}
use ticketmirror.Base.Result.{Result, ok, err, ◌>>=◌, ◌>>◌, raise_if}
use ticketmirror.Base.Names.{member, add_name, sorted_names, lookup, update, keys}
use ticketmirror.Data.{
  Db, Booking, Value, text, value_eq, truthy, BookingEvent, EventType, manual_edit,
  manual_status_change, manual, Entry, value, Conflict,
}

abbrev pub Values : Type 0
Values = List (String × Value)

-- PROVIDER_TO_ACTIVE_FIELD_MAP
abbrev pub provider_to_active_field_map : List (String × String)
provider_to_active_field_map =
    ("provider_travel_date", "active_travel_date")
    ∷ ("provider_start_time", "active_start_time")
    ∷ ("provider_end_time", "active_end_time")
    ∷ ("provider_slot_type", "active_slot_type")
    ∷ ("provider_traveler_count", "active_traveler_count")
    ∷ ("status", "status")
    ∷ []

abbrev pub manual_edit_blocklist : List String
manual_edit_blocklist = "provider" ∷ "provider_id" ∷ "provider_booking_reference" ∷ []

unfoldable pub is_manually_overridden : Booking → String → Bool
is_manually_overridden b field_name = member field_name b.manual_override_fields

unfoldable pub set_column : Booking → String → Value → Booking
set_column b name v = record b { columns = update b.columns name v }

-- `str(value or "")`, kept as the value that is printed.
abbrev pub or_blank : Value → Value
or_blank v = if truthy v then v else text ""

-- The variables of the loop of `apply_manual_override`.
pub record Edit : Type 0 where
  pub booking : Booking
  pub old_values : Values
  pub new_values : Values
  pub changed_fields : List String
  pub overrides : List String

-- One round: an equal value is skipped.
unfoldable pub edit_field : Edit → String → Value → Edit
unfolding set_column
edit_field e name v = if value_eq (e.booking.columns name) v then e else record {
  booking = set_column e.booking name v;
  old_values = e.old_values ++ (name, or_blank (e.booking.columns name)) ∷ [];
  new_values = e.new_values ++ (name, or_blank v) ∷ [];
  changed_fields = e.changed_fields ++ name ∷ [];
  overrides = add_name name e.overrides;
}

unfoldable pub edit_fields : Edit → Values → Edit
unfolding edit_field
edit_fields e [] = e
edit_fields e ((name, v) ∷ changes) = edit_fields (edit_field e name v) changes

-- `set(booking.manual_override_fields or [])`
abbrev pub as_set : List String → List String
as_set [] = []
as_set (name ∷ names) = add_name name (as_set names)

unfoldable pub start_edit : Booking → Edit
start_edit b = record {
  booking = b;
  old_values = [];
  new_values = [];
  changed_fields = [];
  overrides = as_set b.manual_override_fields;
}

abbrev pub copy_columns : Booking → List String → (String → Value) → String → Value
copy_columns b names columns name = if member name names then b.columns name else columns name

-- `booking.save(update_fields=[*names, "manual_override_fields", …])`: only these columns of the
-- stored row are written.
unfoldable pub save_fields : Booking → List String → List Booking → List Booking
save_fields b names rows =
    map
      (λ row.
        if row.id == b.id
        then record row {
          manual_override_fields = b.manual_override_fields;
          columns = copy_columns b names row.columns;
        }
        else row)
      rows

abbrev pub as_entries : Values → List (String × Entry)
as_entries [] = []
as_entries ((name, v) ∷ rest) = (name, value v) ∷ as_entries rest

-- The event of an edit that changed something.
unfoldable pub edit_event : Edit → Option ℕ → String → BookingEvent
edit_event e user reason = record {
  booking = some e.booking.id;
  event_type = if member "status" e.changed_fields then manual_status_change else manual_edit;
  source = manual;
  old_values = e.old_values;
  new_values = as_entries e.new_values ++ ("reason", value (text reason)) ∷ [];
  raw_email = none;
  created_by = user;
}

-- `if changed_fields: …`
unfoldable pub finish_edit : Db → Edit → List String → Option ℕ → String → Booking × Db
unfolding save_fields edit_event sorted_names
finish_edit db e [] user reason = (e.booking, db)
finish_edit db e (f ∷ fs) user reason =
    let b = record (e.booking) { manual_override_fields = sorted_names e.overrides } in
    (
      b,
      record db {
        bookings = save_fields b (f ∷ fs) db.bookings;
        events = db.events ++ edit_event e user reason ∷ [];
      },
    )

-- `ValueError("Manual edits are not allowed for: …")`, with the names.
pub data OverrideError : Type 0 where
  not_allowed : List String → OverrideError

abbrev pub blocked_fields : Values → List String
blocked_fields changes = filter (λ name. member name (keys changes)) manual_edit_blocklist

abbrev pub refuse_blocked : List String → Result OverrideError (Unit {0})
refuse_blocked [] = ok tt
refuse_blocked (f ∷ fs) = err (not_allowed (f ∷ fs))

unfoldable pub apply_manual_override :
    Db → Booking → Values → Option ℕ → String → Result OverrideError (Booking × Db)
unfolding edit_fields start_edit finish_edit sorted_names
apply_manual_override db b changes user reason = do
  refuse_blocked (sorted_names (blocked_fields changes))
  let e = edit_fields (start_edit b) changes
  ok (finish_edit db e e.changed_fields user reason)

unfoldable pub active_field_for_provider_field : String → Option String
active_field_for_provider_field field_name = lookup field_name provider_to_active_field_map

pub record Diff : Type 0 where
  pub field_name : String
  pub old : Value
  pub new : Value

unfoldable pub diff_field_values : Booking → Values → List Diff
diff_field_values b [] = []
diff_field_values b ((name, v) ∷ values) =
    let rest = diff_field_values b values in
    if value_eq (b.columns name) v
    then rest
    else record { field_name = name; old = b.columns name; new = v } ∷ rest

-- The active field that a provider field updates, unless that was edited by hand.
abbrev pub free_active_field : Booking → Option String → Option String
free_active_field b none = none
free_active_field b (some active) = if is_manually_overridden b active then none else some active

abbrev pub with_value : Option String → Value → Values → Values
with_value none v rest = rest
with_value (some active) v rest = (active, v) ∷ rest

unfoldable pub active_updates_from_provider_values : Booking → Values → Values
unfolding active_field_for_provider_field is_manually_overridden
active_updates_from_provider_values b [] = []
active_updates_from_provider_values b ((name, v) ∷ values) =
    with_value (free_active_field b (active_field_for_provider_field name)) v
      (active_updates_from_provider_values b values)

abbrev pub held_active_field : Booking → Option String → Option String
held_active_field b none = none
held_active_field b (some active) = if is_manually_overridden b active then some active else none

abbrev pub with_conflict :
    Booking → Option String → String → Value → List (String × Conflict) → List (String × Conflict)
with_conflict b none name v rest = rest
with_conflict b (some active) name v rest =
    if value_eq (b.columns active) v
    then rest
    else (
      active,
      record { provider_field = name; provider_value = v; active_value = b.columns active },
    )
      ∷ rest

unfoldable pub provider_update_conflicts : Booking → Values → List (String × Conflict)
unfolding active_field_for_provider_field is_manually_overridden
provider_update_conflicts b [] = []
provider_update_conflicts b ((name, v) ∷ values) =
    with_conflict b (held_active_field b (active_field_for_provider_field name)) name v
      (provider_update_conflicts b values)
