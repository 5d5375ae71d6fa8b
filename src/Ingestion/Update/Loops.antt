-- ===== src/Ingestion/Update/Loops.antt =====
-- What the loops of `_update_booking` leave alone, whatever their test skips.
use ticketmirror.Base.{
  String, ◌≡◌, refl, sym, ◌∙◌, ◌⊎◌, inl, inr, Bool, true, false, ◌||◌, Option, none, some, List, [],
  ◌∷◌, In, arith, str_eq, eq_iff, eq_refl, if◌then◌else◌, Bool-cases,
}
use ticketmirror.Base.Names.{member, keys}
use ticketmirror.Data.{Booking, Value, value_eq, SameIdentity}
use ticketmirror.Bookings.Overrides.{
  Values, Diff, diff_field_values, is_manually_overridden, active_updates_from_provider_values,
  active_field_for_provider_field, free_active_field, with_value,
}
use ticketmirror.Ingestion.Update.{
  Merge, merge_diff, merge_diffs, merge_provider, merge_active, merge_alias, merge_values,
  skips_provider, skips_active, skips_alias,
}

-- The overrides and the identity of a booking.
abbrev pub SameFrame : Booking → Booking → Type 0
SameFrame b c = SameIdentity b c × (b.manual_override_fields ≡ c.manual_override_fields)

module _ (skips : Booking → Diff → Bool) where
  pub frame-merge_diff : (m : Merge) (d : Diff) → SameFrame (merge_diff skips m d).booking m.booking
  unfolding merge_diff
  frame-merge_diff m d = elim (Bool-cases (skips m.booking d)) [
    | inl e ↦ rw e ((refl, refl, refl), refl)
    | inr e ↦ rw e ((refl, refl, refl), refl)
  ]

  pub frame-merge_diffs :
      (m : Merge) (ds : List Diff) → SameFrame (merge_diffs skips m ds).booking m.booking
  unfolding merge_diffs
  frame-merge_diffs m [] = ((refl, refl, refl), refl)
  frame-merge_diffs m (d ∷ ds) =
      let ((p, q, r), s) = frame-merge_diffs (merge_diff skips m d) ds in
      let ((p', q', r'), s') = frame-merge_diff m d in ((p ∙ p', q ∙ q', r ∙ r'), s ∙ s')

  -- A field that no diff names keeps its value, and so does one whose diffs are skipped.
  pub column-merge_diff :
      (m : Merge) (d : Diff) (f : String)
      → (merge_diff skips m d).booking.columns f ≡ (
          if skips m.booking d
          then m.booking.columns f
          else if str_eq d.field_name f
          then d.new
          else m.booking.columns f)
  unfolding merge_diff
  column-merge_diff m d f = elim (Bool-cases (skips m.booking d)) [ inl e ↦ rw e | inr e ↦ rw e ]

  -- What a test must do for the field `f` to keep its value through the loop.
  abbrev pub Skipped : Merge → List Diff → String → Type 0
  Skipped m ds f =
      (b : Booking)
      → b.manual_override_fields ≡ m.booking.manual_override_fields
      → b.columns f ≡ m.booking.columns f
      → (d : Diff) → In d ds
      → d.field_name ≡ f
      → skips b d ≡ true

  column-merge_diff_kept :
      (m : Merge) (d : Diff) (ds : List Diff) (f : String)
      → Skipped m (d ∷ ds) f
      → (merge_diff skips m d).booking.columns f ≡ m.booking.columns f
  column-merge_diff_kept m d ds f h =
      column-merge_diff m d f ∙ elim (Bool-cases (skips m.booking d)) [
        | inl e ↦ rw e
        | inr e ↦ rw e (elim (Bool-cases (str_eq d.field_name f)) [
          | inr n ↦ rw n
          | inl n ↦
              let p = h m.booking refl refl d (inl refl) ((eq_iff d.field_name f).0 n) in
              let q : true ≡ false = sym p ∙ e in cc
        ])
      ]

  pub column-merge_diffs_kept :
      (m : Merge) (ds : List Diff) (f : String)
      → Skipped m ds f
      → (merge_diffs skips m ds).booking.columns f ≡ m.booking.columns f
  unfolding merge_diffs
  column-merge_diffs_kept m [] f h = refl
  column-merge_diffs_kept m (d ∷ ds) f h =
      let k = column-merge_diff_kept m d ds f h in
      column-merge_diffs_kept (merge_diff skips m d) ds f
        (λ b e c x i n. h b (e ∙ (frame-merge_diff m d).1) (c ∙ k) x (inr i) n)
      ∙ k

-- Every diff is of a field that the dictionary names.
pub diff-keys :
    (b : Booking) (vs : Values) (d : Diff)
    → In d (diff_field_values b vs)
    → member d.field_name (keys vs) ≡ true
unfolding diff_field_values
diff-keys b [] d h = absurd h
diff-keys b ((name, v) ∷ vs) d h = elim (Bool-cases (value_eq (b.columns name) v)) [
  | inl e ↦ rw (diff-keys b vs d (rw e at h)) (or_true (str_eq name d.field_name))
  | inr e ↦ elim (rest e) [
    | inl p ↦ rw p (rw eq_refl)
    | inr i ↦ rw (diff-keys b vs d i) (or_true (str_eq name d.field_name))
  ]
]
  where
    or_true : (x : Bool) → (x || true) ≡ true
    or_true x = ground arith

    rest :
        value_eq (b.columns name) v ≡ false
        → (d ≡ record { field_name = name; old = b.columns name; new = v })
          ⊎ In d (diff_field_values b vs)
    rest e = rw e at h

-- A diff has the old value, and a new one that differs.
pub diff-new :
    (b : Booking) (vs : Values) (d : Diff)
    → In d (diff_field_values b vs)
    → (d.old ≡ b.columns d.field_name) × (value_eq (b.columns d.field_name) d.new ≡ false)
unfolding diff_field_values
diff-new b [] d h = absurd h
diff-new b ((name, v) ∷ vs) d h = elim (Bool-cases (value_eq (b.columns name) v)) [
  | inl e ↦ diff-new b vs d (rw e at h)
  | inr e ↦ elim (rest e) [ inl p ↦ rw p (refl, e) | inr i ↦ diff-new b vs d i ]
]
  where
    rest :
        value_eq (b.columns name) v ≡ false
        → (d ≡ record { field_name = name; old = b.columns name; new = v })
          ⊎ In d (diff_field_values b vs)
    rest e = rw e at h

with_value-free :
    (b : Booking) (o : Option String) (v : Value) (rest : Values) (f : String)
    → (member f (keys rest) ≡ true → is_manually_overridden b f ≡ false)
    → member f (keys (with_value (free_active_field b o) v rest)) ≡ true
    → is_manually_overridden b f ≡ false
with_value-free b none v rest f ih h = ih h
with_value-free b (some a) v rest f ih h = elim (Bool-cases (is_manually_overridden b a)) [
  | inl e ↦ ih (rw (e, with_value) at h)
  | inr e ↦ elim (Bool-cases (str_eq a f)) [
    | inl p ↦ let q : a ≡ f = (eq_iff a f).0 p in rw (← q) e
    | inr p ↦
        let k : (str_eq a f || member f (keys rest)) ≡ true = rw (e, with_value) at h in
        ih (rw p at k)
  ]
]

-- The active updates name no overridden field.
pub active_updates-free :
    (b : Booking) (vs : Values) (f : String)
    → member f (keys (active_updates_from_provider_values b vs)) ≡ true
    → is_manually_overridden b f ≡ false
unfolding active_updates_from_provider_values
active_updates-free b [] f h = cc
active_updates-free b ((name, v) ∷ vs) f h =
    with_value-free b (active_field_for_provider_field name) v _ f (active_updates-free b vs f) h

-- The same for the three loops together.
pub frame-merge_provider : (b : Booking) (vs : Values) → SameFrame (merge_provider b vs).booking b
unfolding merge_provider
frame-merge_provider b vs = frame-merge_diffs skips_provider _ (diff_field_values b vs)

pub frame-merge_active : (m : Merge) (vs : Values) → SameFrame (merge_active m vs).booking m.booking
unfolding merge_active
frame-merge_active m vs =
    frame-merge_diffs skips_active m
      (diff_field_values m.booking (active_updates_from_provider_values m.booking vs))

pub frame-merge_alias : (m : Merge) (us : Values) → SameFrame (merge_alias m us).booking m.booking
unfolding merge_alias
frame-merge_alias m us = frame-merge_diffs skips_alias m (diff_field_values m.booking us)

pub frame-merge_values : (b : Booking) (vs us : Values) → SameFrame (merge_values b vs us).booking b
unfolding merge_values
frame-merge_values b vs us =
    let m = merge_provider b vs in
    let n = merge_active m vs in
    let ((p, q, r), s) = frame-merge_alias n us in
    let ((p', q', r'), s') = frame-merge_active m vs in
    let ((p'', q'', r''), s'') = frame-merge_provider b vs in
    ((p ∙ (p' ∙ p''), q ∙ (q' ∙ q''), r ∙ (r' ∙ r'')), s ∙ (s' ∙ s''))
