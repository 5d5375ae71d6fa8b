-- ===== src/Ingestion/Update/Cancelled.antt =====
-- A cancelled booking stays cancelled.
use ticketmirror.Base.{◌≡◌, ◌∙◌, true, false, Option, [], In, Bool-cases, inl, inr}
use ticketmirror.Base.Names.{member, keys}
use ticketmirror.Data.{Db, Booking, Value, status, cancelled, value_eq, value_eq→eq, ProviderAlias}
use ticketmirror.Bookings.Overrides.{
  Values, Diff, diff_field_values, active_updates_from_provider_values,
}
use ticketmirror.Ingestion.Parsed.{ParsedBooking}
use ticketmirror.Ingestion.Slots.{alias_values}
use ticketmirror.Ingestion.Update.{
  Merge, merge_values, merge_provider, merge_active, merge_alias, preserve_cancelled_status,
  skips_provider, skips_active, skips_alias, is_cancelled_value,
}
use ticketmirror.Ingestion.Update.Loops.{Skipped, column-merge_diffs_kept, diff-keys, diff-new}
use ticketmirror.Ingestion.Update.Guarded.{alias_values-no_status}

abbrev pub IsCancelled : Booking → Type 0
IsCancelled b = b.columns "status" ≡ status cancelled

other_status : (v : Value) → value_eq (status cancelled) v ≡ false → is_cancelled_value v ≡ false
other_status v h = elim (Bool-cases (is_cancelled_value v)) [
  | inr e ↦ e
  | inl e ↦
      let p : v ≡ status cancelled = value_eq→eq v (status cancelled) e in
      let q : value_eq (status cancelled) (status cancelled) ≡ false = rw p at h in cc
]

-- A diff of the status of a cancelled booking is of another status, and is skipped.
preserved :
    (b c : Booking) (vs : Values) (d : Diff)
    → IsCancelled c
    → b.columns "status" ≡ c.columns "status"
    → In d (diff_field_values c vs)
    → d.field_name ≡ "status"
    → preserve_cancelled_status b d.field_name d.new ≡ true
unfolding preserve_cancelled_status
preserved b c vs d h e i n =
    let k : value_eq (c.columns d.field_name) d.new ≡ false = (diff-new c vs d i).1 in
    let k' : value_eq (c.columns "status") d.new ≡ false = rw n at k in
    let k'' : value_eq (status cancelled) d.new ≡ false = rw h at k' in
    rw (n, e ∙ h) (rw (other_status d.new k''))

provider_phase :
    (m : Merge) (vs : Values)
    → IsCancelled m.booking
    → Skipped skips_provider m (diff_field_values m.booking vs) "status"
unfolding skips_provider
provider_phase m vs h b e c d i n = rw (preserved b m.booking vs d h c i n)

active_phase :
    (m : Merge) (vs : Values)
    → IsCancelled m.booking
    → Skipped skips_active m (diff_field_values m.booking vs) "status"
unfolding skips_active
active_phase m vs h b e c d i n = preserved b m.booking vs d h c i n

alias_phase :
    (m : Merge) (db : Db) (o : Option ProviderAlias) (p : ParsedBooking)
    → Skipped skips_alias m (diff_field_values m.booking (alias_values db o p)) "status"
alias_phase m db o p b e c d i n =
    let k = diff-keys m.booking (alias_values db o p) d i in
    let q : member "status" (keys (alias_values db o p)) ≡ true = rw n at k in
    cc (alias_values-no_status db o p)

-- Whatever a later email says, the merge leaves a cancelled booking cancelled.
pub merge_values-IsCancelled :
    (b : Booking) (vs : Values) (db : Db) (o : Option ProviderAlias) (p : ParsedBooking)
    → IsCancelled b
    → IsCancelled (merge_values b vs (alias_values db o p)).booking
unfolding merge_values merge_provider merge_active merge_alias
merge_values-IsCancelled b vs db o p h =
    let start : Merge = record { booking = b; old_values = []; new_values = [] } in
    let m = merge_provider b vs in
    let n = merge_active m vs in
    let us = active_updates_from_provider_values m.booking vs in
    let hm : IsCancelled m.booking =
      column-merge_diffs_kept skips_provider start (diff_field_values b vs) "status"
        (provider_phase start vs h)
      ∙ h in
    let hn : IsCancelled n.booking =
      column-merge_diffs_kept skips_active m (diff_field_values m.booking us) "status"
        (active_phase m us hm)
      ∙ hm in
    column-merge_diffs_kept skips_alias n (diff_field_values n.booking (alias_values db o p))
      "status" (alias_phase n db o p)
    ∙ hn
