-- ===== src/Ingestion/Slots.antt =====
-- The activity, slot and times that a matched alias gives a booking.
use ticketmirror.Base.{String, Option, none, some, [], ◌∷◌, str_eq, if◌then◌else◌, or_else}
use ticketmirror.Base.Names.{member, keys, lookup}
use ticketmirror.Data.{
  Db, Value, null, ref, time, slot_type, truthy, ActivityScheduleSlot, ProviderAlias,
}
use ticketmirror.Bookings.Schedules.{resolve_schedule_slot_details, ScheduleSlotResolution}
use ticketmirror.Bookings.Overrides.{Values}
use ticketmirror.Ingestion.Parsed.{ParsedBooking, opt_time}

unfoldable pub resolution_for_parsed : Db → ProviderAlias → ParsedBooking → ScheduleSlotResolution
unfolding resolve_schedule_slot_details
resolution_for_parsed db a p =
    resolve_schedule_slot_details db (some a.linked_activity) p.travel_date p.start_time p.slot_type
      a.linked_slot

unfoldable pub slot_for_parsed_time :
    Db → ProviderAlias → ParsedBooking → Option ActivityScheduleSlot
unfolding resolution_for_parsed
slot_for_parsed_time db a p = (resolution_for_parsed db a p).slot

abbrev pub opt_slot : Option ActivityScheduleSlot → Value
opt_slot none = null
opt_slot (some s) = ref s.id

-- `values[name] = v`
abbrev pub put : String → Value → Values → Values
put name v [] = (name, v) ∷ []
put name v ((k, w) ∷ rest) = if str_eq k name then (name, v) ∷ rest else (k, w) ∷ put name v rest

abbrev pub value_or_null : Option Value → Value
value_or_null none = null
value_or_null (some v) = v

-- `values.setdefault(name, v)` and then `if not values.get(name): values[name] = v`
unfoldable pub fill : String → Value → Values → Values
fill name v values =
    let d = if member name (keys values) then values else put name v values in
    if truthy (value_or_null (lookup name d)) then d else put name v d

unfoldable pub fill_from_slot : Option ActivityScheduleSlot → Values → Values
unfolding fill
fill_from_slot none values = values
fill_from_slot (some s) values = fill "active_slot_type" (slot_type s.slot_type) (
    fill "active_end_time" (opt_time s.end_time)
      (fill "active_start_time" (time s.start_time) values))

unfoldable pub apply_alias_slot_values :
    Values → ProviderAlias → Option ActivityScheduleSlot → Values
unfolding fill_from_slot
apply_alias_slot_values values a slot = fill_from_slot (or_else slot a.linked_slot) values

unfoldable pub values_of_alias : Db → ProviderAlias → ParsedBooking → Values
unfolding slot_for_parsed_time apply_alias_slot_values
values_of_alias db a p =
    let slot = slot_for_parsed_time db a p in
    apply_alias_slot_values
      (("activity", ref a.linked_activity) ∷ ("schedule_slot", opt_slot slot) ∷ []) a slot

unfoldable pub alias_values : Db → Option ProviderAlias → ParsedBooking → Values
unfolding values_of_alias
alias_values db none p = []
alias_values db (some a) p = values_of_alias db a p
