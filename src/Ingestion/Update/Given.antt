-- ===== src/Ingestion/Update/Given.antt =====
-- What a loop of `_update_booking` sets: a field that a dictionary gives once takes that value,
-- unless the loop's test skips it.
use ticketmirror.Base.{
  String, ◌≡◌, refl, ◌∙◌, Bool, true, false, some, [], ◌∷◌, str_eq, eq_refl, Bool-cases, inl, inr,
}
use ticketmirror.Base.Names.{member, keys}
use ticketmirror.Data.{Booking, Value, value_eq, value_eq→eq}
use ticketmirror.Bookings.Overrides.{
  Values, Diff, diff_field_values, is_manually_overridden, free_active_field, with_value,
}
use ticketmirror.Ingestion.Update.{Merge, merge_diff, merge_diffs}
use ticketmirror.Ingestion.Update.Loops.{
  frame-merge_diff, column-merge_diff, column-merge_diffs_kept, diff-keys,
}

-- The dictionary gives the field `f` the value `v`, and has no other entry for it.
pub data GivesOnce (f : String) (v : Value) : Values → Type 0 where
  here : {rest : Values} → member f (keys rest) ≡ false → GivesOnce f v ((f, v) ∷ rest)
  there :
      {k : String} {w : Value} {rest : Values}
      → str_eq k f ≡ false
      → GivesOnce f v rest
      → GivesOnce f v ((k, w) ∷ rest)

module _ (skips : Booking → Diff → Bool) where
  -- The loop's test lets the change of `f` to `v` pass.
  abbrev pub Passes : Merge → String → Value → Type 0
  Passes m f v =
      (b : Booking)
      → b.manual_override_fields ≡ m.booking.manual_override_fields
      → (d : Diff) → d.field_name ≡ f
      → d.new ≡ v
      → skips b d ≡ false

  -- With no entry for the field the loop keeps it.
  pub no_entry :
      (m : Merge) (b : Booking) (vs : Values) (f : String)
      → member f (keys vs) ≡ false
      → (merge_diffs skips m (diff_field_values b vs)).booking.columns f ≡ m.booking.columns f
  no_entry m b vs f h = column-merge_diffs_kept skips m (diff_field_values b vs) f λ c e k d i n.
      let p = diff-keys b vs d i in let q : member f (keys vs) ≡ true = rw n at p in cc

  pub column-merge_diffs_given :
      (m : Merge) (b : Booking) (f : String) (v : Value) (vs : Values)
      → GivesOnce f v vs
      → m.booking.columns f ≡ b.columns f
      → Passes m f v
      → (merge_diffs skips m (diff_field_values b vs)).booking.columns f ≡ v
  unfolding diff_field_values merge_diffs
  column-merge_diffs_given m b f v [] x e pass = elim x [ ]
  column-merge_diffs_given m b f v ((_, _) ∷ rest) (here absent) e pass =
      elim (Bool-cases (value_eq (b.columns f) v)) [
        | inl same ↦ rw same (no_entry m b rest f absent ∙ (e ∙ value_eq→eq (b.columns f) v same))
        | inr new ↦
            let d : Diff = record { field_name = f; old = b.columns f; new = v } in
            rw new (
              no_entry (merge_diff skips m d) b rest f absent
              ∙ (column-merge_diff skips m d f ∙ rw (pass m.booking refl d refl refl) (rw eq_refl)))
      ]
  column-merge_diffs_given m b f v ((k, w) ∷ rest) (there ne h) e pass =
      elim (Bool-cases (value_eq (b.columns k) w)) [
        | inl same ↦ rw same (column-merge_diffs_given m b f v rest h e pass)
        | inr new ↦
            let d : Diff = record { field_name = k; old = b.columns k; new = w } in
            rw new (
              column-merge_diffs_given (merge_diff skips m d) b f v rest h
                (column-merge_diff skips m d f ∙ (elim (Bool-cases (skips m.booking d)) [
                  | inl s ↦ rw s e
                  | inr s ↦ rw s (rw ne e)
                ]))
                (λ c p x n q. pass c (p ∙ (frame-merge_diff skips m d).1) x n q))
      ]

-- The entries of the active updates.
module _ (b : Booking) (w : Value) (rest : Values) (a f : String) where
  pub gives-with_value_ne :
      (v : Value)
      → str_eq a f ≡ false
      → GivesOnce f v rest
      → GivesOnce f v (with_value (free_active_field b (some a)) w rest)
  gives-with_value_ne v ne h = elim (Bool-cases (is_manually_overridden b a)) [
    | inl e ↦ rw (e, with_value) h
    | inr e ↦ rw (e, with_value) (there ne h)
  ]

  pub member-with_value_ne :
      str_eq a f ≡ false
      → member f (keys rest) ≡ false
      → member f (keys (with_value (free_active_field b (some a)) w rest)) ≡ false
  member-with_value_ne ne h = elim (Bool-cases (is_manually_overridden b a)) [
    | inl e ↦ rw (e, with_value) h
    | inr e ↦ rw (e, with_value) (rw ne h)
  ]

pub gives-with_value_self :
    (b : Booking) (v : Value) (rest : Values) (a : String)
    → is_manually_overridden b a ≡ false
    → member a (keys rest) ≡ false
    → GivesOnce a v (with_value (free_active_field b (some a)) v rest)
gives-with_value_self b v rest a e h = rw (e, with_value) (here h)
