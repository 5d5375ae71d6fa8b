-- ===== src/Ingestion/Update/Guarded.antt =====
-- Manual edits of the guarded fields survive every provider email.
use ticketmirror.Base.{
  String, ◌≡◌, refl, sym, ◌∙◌, inl, inr, Bool, true, false, ◌||◌, Option, none, some, [], ◌∷◌,
  arith, str_eq, eq_iff, Bool-cases, or_else,
}
use ticketmirror.Base.Names.{member, keys, lookup}
use ticketmirror.Data.{Db, Booking, Value, ref, ProviderAlias, ActivityScheduleSlot, truthy}
use ticketmirror.Bookings.Overrides.{
  Values, Diff, diff_field_values, is_manually_overridden, active_updates_from_provider_values,
}
use ticketmirror.Ingestion.Parsed.{ParsedBooking, provider_values_from_parsed}
use ticketmirror.Ingestion.Slots.{
  put, fill, value_or_null, fill_from_slot, apply_alias_slot_values, alias_values, values_of_alias,
  slot_for_parsed_time, opt_slot,
}
use ticketmirror.Ingestion.Update.{
  Merge, merge_values, merge_provider, merge_active, merge_alias, skips_provider, skips_active,
  skips_alias,
}
use ticketmirror.Ingestion.Update.Loops.{
  frame-merge_provider, frame-merge_active, Skipped, column-merge_diffs_kept, diff-keys,
  active_updates-free,
}

-- The status, the slot and the active fields.
pub data Guarded : Type 0 where
  status schedule_slot active_travel_date active_start_time active_end_time : Guarded
  active_slot_type active_traveler_count : Guarded

abbrev pub name_of : Guarded → String
name_of status = "status"
name_of schedule_slot = "schedule_slot"
name_of active_travel_date = "active_travel_date"
name_of active_start_time = "active_start_time"
name_of active_end_time = "active_end_time"
name_of active_slot_type = "active_slot_type"
name_of active_traveler_count = "active_traveler_count"

-- The loop over provider values: only the status is among its fields, and that is skipped.
provider_skips :
    (g : Guarded) (p : ParsedBooking) (b : Booking) (d : Diff)
    → is_manually_overridden b (name_of g) ≡ true
    → member d.field_name (keys (provider_values_from_parsed p)) ≡ true
    → d.field_name ≡ name_of g
    → skips_provider b d ≡ true
unfolding skips_provider provider_values_from_parsed
provider_skips status p b d o k e =
    let named : str_eq d.field_name "status" ≡ true = rw e in
    let held : is_manually_overridden b "status" ≡ true = o in ground arith
provider_skips schedule_slot p b d o k e = cc (rw e at k)
provider_skips _ p b d o k e = cc (rw e at k)

alias_skips :
    (g : Guarded) (b : Booking) (d : Diff)
    → is_manually_overridden b (name_of g) ≡ true
    → str_eq d.field_name "status" ≡ false
    → d.field_name ≡ name_of g
    → skips_alias b d ≡ true
unfolding skips_alias
alias_skips status b d o k e = cc (rw e at k)
alias_skips schedule_slot b d o k e = rw e (rw o refl)
alias_skips _ b d o k e = rw e o

or_twice : (x y : Bool) → (x || y) ≡ (x || (x || y))
or_twice x y = ground arith

or_swap : (x y z : Bool) → (x || (y || z)) ≡ (y || (x || z))
or_swap x y z = ground arith

pub member-put :
    (j name : String) (v : Value) (vs : Values)
    → member j (keys (put name v vs)) ≡ (str_eq name j || member j (keys vs))
member-put j name v [] = refl
member-put j name v ((k, w) ∷ vs) = elim (Bool-cases (str_eq k name)) [
  | inl e ↦ rw e (
      let q : k ≡ name = (eq_iff k name).0 e in
      rw q (or_twice (str_eq name j) (member j (keys vs))))
  | inr e ↦
      rw e (rw (member-put j name v vs) (or_swap (str_eq k j) (str_eq name j) (member j (keys vs))))
]

pub member-fill :
    (j name : String) (v : Value) (vs : Values)
    → member j (keys (fill name v vs)) ≡ (str_eq name j || member j (keys vs))
unfolding fill
member-fill j name v vs = elim (Bool-cases (member name (keys vs))) [
  | inl e ↦ rw e (elim (Bool-cases (truthy (value_or_null (lookup name vs)))) [
    | inl t ↦ rw t (elim (Bool-cases (str_eq name j)) [
      | inl p ↦ rw p (rw (← (eq_iff name j).0 p) e)
      | inr p ↦ rw p
    ])
    | inr t ↦ rw t (member-put j name v vs)
  ])
  | inr e ↦ rw e (elim (Bool-cases (truthy (value_or_null (lookup name (put name v vs))))) [
    | inl t ↦ rw t (member-put j name v vs)
    | inr t ↦ rw t (
        rw (member-put j name v (put name v vs))
          (rw (member-put j name v vs) (sym (or_twice (str_eq name j) (member j (keys vs))))))
  ])
]

-- An alias never gives a status.
member-fill_from_slot :
    (o : Option ActivityScheduleSlot) (vs : Values)
    → member "status" (keys vs) ≡ false
    → member "status" (keys (fill_from_slot o vs)) ≡ false
unfolding fill_from_slot
member-fill_from_slot none vs h = h
member-fill_from_slot (some s) vs h =
    rw (member-fill "status" "active_slot_type") (
      rw (member-fill "status" "active_end_time") (rw (member-fill "status" "active_start_time") h))

pub alias_values-no_status :
    (db : Db) (o : Option ProviderAlias) (p : ParsedBooking)
    → member "status" (keys (alias_values db o p)) ≡ false
unfolding alias_values values_of_alias apply_alias_slot_values
alias_values-no_status db none p = refl
alias_values-no_status db (some a) p =
    let slot = slot_for_parsed_time db a p in
    member-fill_from_slot (or_else slot a.linked_slot)
      (("activity", ref a.linked_activity) ∷ ("schedule_slot", opt_slot slot) ∷ []) refl

not_status :
    (db : Db) (o : Option ProviderAlias) (p : ParsedBooking) (name : String)
    → member name (keys (alias_values db o p)) ≡ true
    → str_eq name "status" ≡ false
not_status db o p name h = elim (Bool-cases (str_eq name "status")) [
  | inl e ↦
      let n : name ≡ "status" = (eq_iff name "status").0 e in
      let q : member "status" (keys (alias_values db o p)) ≡ true = rw n at h in
      cc (alias_values-no_status db o p)
  | inr e ↦ e
]

-- The loop over the active updates meets no overridden field.
active_phase :
    (m : Merge) (vs : Values) (f : String)
    → is_manually_overridden m.booking f ≡ true
    → Skipped skips_active m
        (diff_field_values m.booking (active_updates_from_provider_values m.booking vs))
        f
active_phase m vs f o b e c d i n =
    let k = diff-keys m.booking _ d i in
    let q : member f (keys (active_updates_from_provider_values m.booking vs)) ≡ true = rw n at k in
    let r = active_updates-free m.booking vs f q in cc

pub same_override :
    (b c : Booking) (f : String)
    → b.manual_override_fields ≡ c.manual_override_fields
    → is_manually_overridden c f ≡ true
    → is_manually_overridden b f ≡ true
unfolding is_manually_overridden
same_override b c f e o = rw e o

module _ (g : Guarded) (db : Db) (p : ParsedBooking) (o : Option ProviderAlias) where
  provider_phase :
      (m : Merge)
      → is_manually_overridden m.booking (name_of g) ≡ true
      → Skipped skips_provider m
          (diff_field_values m.booking (provider_values_from_parsed p))
          (name_of g)
  provider_phase m h b e c d i n =
      provider_skips g p b d (same_override b m.booking (name_of g) e h) (diff-keys m.booking _ d i)
        n

  alias_phase :
      (m : Merge)
      → is_manually_overridden m.booking (name_of g) ≡ true
      → Skipped skips_alias m (diff_field_values m.booking (alias_values db o p)) (name_of g)
  alias_phase m h b e c d i n =
      alias_skips g b d (same_override b m.booking (name_of g) e h)
        (not_status db o p d.field_name (diff-keys m.booking _ d i)) n

  pub merge_values-kept :
      (b : Booking)
      → is_manually_overridden b (name_of g) ≡ true
      → (merge_values b (provider_values_from_parsed p) (alias_values db o p)).booking.columns
          (name_of g)
        ≡ b.columns (name_of g)
  unfolding merge_values merge_provider merge_active merge_alias
  merge_values-kept b h =
      let vs = provider_values_from_parsed p in
      let start : Merge = record { booking = b; old_values = []; new_values = [] } in
      let m = merge_provider b vs in
      let n = merge_active m vs in
      let hm = same_override m.booking b (name_of g) (frame-merge_provider b vs).1 h in
      let hn = same_override n.booking m.booking (name_of g) (frame-merge_active m vs).1 hm in
      column-merge_diffs_kept skips_alias n _ (name_of g) (alias_phase n hn)
      ∙ (column-merge_diffs_kept skips_active m _ (name_of g) (active_phase m vs (name_of g) hm)
          ∙ column-merge_diffs_kept skips_provider start _ (name_of g) (provider_phase start h))
