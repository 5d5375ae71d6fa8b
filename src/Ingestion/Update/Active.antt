-- ===== src/Ingestion/Update/Active.antt =====
-- Which provider values reach the active fields, and which manual edits they replace.
use ticketmirror.Base.{
  String, ◌≡◌, refl, ◌∙◌, false, Option, none, some, [], ◌∷◌, or_else, str_eq, ◌||◌,
}
use ticketmirror.Base.Names.{member, keys}
use ticketmirror.Data.{Db, Booking, Value, ProviderAlias, ActivityScheduleSlot, ref}
use ticketmirror.Bookings.Overrides.{
  Values, Diff, is_manually_overridden, with_value, free_active_field,
  active_field_for_provider_field, active_updates_from_provider_values,
}
use ticketmirror.Ingestion.Parsed.{
  ParsedBooking, provider_values_with, provider_values_from_parsed, opt_date, opt_time,
  opt_slot_type, opt_num, stated_status,
}
use ticketmirror.Ingestion.Slots.{
  alias_values, values_of_alias, apply_alias_slot_values, fill_from_slot, slot_for_parsed_time,
  opt_slot,
}
use ticketmirror.Ingestion.Update.{
  merge_values, merge_provider, merge_active, merge_alias, skips_active, skips_alias,
  preserve_cancelled_status,
}
use ticketmirror.Ingestion.Update.Loops.{frame-merge_provider}
use ticketmirror.Ingestion.Update.Guarded.{member-fill}
use ticketmirror.Ingestion.Update.Given.{
  GivesOnce, column-merge_diffs_given, no_entry, gives-with_value_ne, member-with_value_ne,
  gives-with_value_self,
}

-- The fields that no alias fills.
pub record NotOfAlias (f : String) : Type 0 where
  pub start : str_eq "active_start_time" f ≡ false
  pub end : str_eq "active_end_time" f ≡ false
  pub slot : str_eq "active_slot_type" f ≡ false
  pub values : (str_eq "activity" f || (str_eq "schedule_slot" f || false)) ≡ false

pub member-fill_from_slot :
    (f : String) (o : Option ActivityScheduleSlot) (vs : Values)
    → NotOfAlias f
    → member f (keys vs) ≡ false
    → member f (keys (fill_from_slot o vs)) ≡ false
unfolding fill_from_slot
member-fill_from_slot f none vs n h = h
member-fill_from_slot f (some s) vs n h = rw (member-fill f "active_slot_type") (
    rw n.slot (
      rw (member-fill f "active_end_time")
        (rw n.end (rw (member-fill f "active_start_time") (rw n.start h)))))

no_alias :
    (f : String) (db : Db) (o : Option ProviderAlias) (p : ParsedBooking)
    → NotOfAlias f
    → member f (keys (alias_values db o p)) ≡ false
unfolding alias_values values_of_alias apply_alias_slot_values
no_alias f db none p n = refl
no_alias f db (some a) p n =
    let slot = slot_for_parsed_time db a p in
    member-fill_from_slot f (or_else slot a.linked_slot)
      (("activity", ref a.linked_activity) ∷ ("schedule_slot", opt_slot slot) ∷ []) n n.values

-- The active fields that only a provider value sets, and the value that an email has for each.
pub data Followed : Type 0 where
  travel_date traveler_count : Followed

abbrev pub active_name : Followed → String
active_name travel_date = "active_travel_date"
active_name traveler_count = "active_traveler_count"

abbrev pub stated : Followed → ParsedBooking → Value
stated travel_date p = opt_date p.travel_date
stated traveler_count p = opt_num p.traveler_count

pub followed-NotOfAlias : (f : Followed) → NotOfAlias (active_name f)
followed-NotOfAlias travel_date = record { start = refl; end = refl; slot = refl; values = refl }
followed-NotOfAlias traveler_count = record { start = refl; end = refl; slot = refl; values = refl }

not_provider :
    (f : Followed) (p : ParsedBooking)
    → member (active_name f) (keys (provider_values_from_parsed p)) ≡ false
unfolding provider_values_from_parsed provider_values_with
not_provider travel_date p = refl
not_provider traveler_count p = refl

the_updates :
    (b : Booking) (p : ParsedBooking)
    → active_updates_from_provider_values b (provider_values_from_parsed p)
      ≡ with_value
          (free_active_field b (some "status"))
          (Value.status (stated_status p.event_type p.status))
          (with_value (free_active_field b (some "active_travel_date")) (opt_date p.travel_date) (
            with_value (free_active_field b (some "active_start_time")) (opt_time p.start_time) (
              with_value (free_active_field b (some "active_end_time")) (opt_time p.end_time) (
                with_value
                  (free_active_field b (some "active_slot_type"))
                  (opt_slot_type p.slot_type)
                  (with_value
                    (free_active_field b (some "active_traveler_count"))
                    (opt_num p.traveler_count)
                    [])))))
unfolding provider_values_from_parsed provider_values_with active_updates_from_provider_values
    active_field_for_provider_field
the_updates b p = refl

gives :
    (f : Followed) (b : Booking) (p : ParsedBooking)
    → is_manually_overridden b (active_name f) ≡ false
    → GivesOnce
        (active_name f)
        (stated f p)
        (active_updates_from_provider_values b (provider_values_from_parsed p))
gives travel_date b p h = rw (the_updates b p) (
    gives-with_value_ne b _ _ "status" "active_travel_date" _ refl (
      gives-with_value_self b (opt_date p.travel_date) _ "active_travel_date" h (
        member-with_value_ne b _ _ "active_start_time" "active_travel_date" refl (
          member-with_value_ne b _ _ "active_end_time" "active_travel_date" refl (
            member-with_value_ne b _ _ "active_slot_type" "active_travel_date" refl (
              member-with_value_ne b _ _ "active_traveler_count" "active_travel_date" refl
                refl))))))
gives traveler_count b p h = rw (the_updates b p) (
    gives-with_value_ne b _ _ "status" "active_traveler_count" _ refl (
      gives-with_value_ne b _ _ "active_travel_date" "active_traveler_count" _ refl (
        gives-with_value_ne b _ _ "active_start_time" "active_traveler_count" _ refl (
          gives-with_value_ne b _ _ "active_end_time" "active_traveler_count" _ refl (
            gives-with_value_ne b _ _ "active_slot_type" "active_traveler_count" _ refl (
              gives-with_value_self b (opt_num p.traveler_count) [] "active_traveler_count" h
                refl))))))

active_passes :
    (f : Followed) (b : Booking) (d : Diff)
    → d.field_name ≡ active_name f
    → skips_active b d ≡ false
unfolding skips_active preserve_cancelled_status
active_passes travel_date b d e = rw e refl
active_passes traveler_count b d e = rw e refl

-- An update sets the active travel date and the active traveler count, where they were not edited by
-- hand, to what the email states, and to null where the email states none.
pub merge_values-follows :
    (f : Followed) (b : Booking) (p : ParsedBooking) (db : Db) (o : Option ProviderAlias)
    → is_manually_overridden b (active_name f) ≡ false
    → (merge_values b (provider_values_from_parsed p) (alias_values db o p)).booking.columns
        (active_name f)
      ≡ stated f p
unfolding merge_values merge_provider merge_active merge_alias is_manually_overridden
merge_values-follows f b p db o h =
    let vs = provider_values_from_parsed p in
    let m = merge_provider b vs in
    let n = merge_active m vs in
    let hm : is_manually_overridden m.booking (active_name f) ≡ false =
      rw (frame-merge_provider b vs).1 h in
    no_entry skips_alias n n.booking (alias_values db o p) (active_name f)
      (no_alias (active_name f) db o p (followed-NotOfAlias f))
    ∙ column-merge_diffs_given skips_active m m.booking (active_name f) (stated f p)
        (active_updates_from_provider_values m.booking vs) (gives f m.booking p hm) refl
        (λ c _ d e _. active_passes f c d e)
