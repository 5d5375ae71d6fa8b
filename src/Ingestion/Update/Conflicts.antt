-- ===== src/Ingestion/Update/Conflicts.antt =====
-- Where an email disagrees with an edit of the staff, and the conflicts that an update reports.
use ticketmirror.Base.{
  String, ◌≡◌, ◌≢◌, refl, sym, ◌∙◌, ap, inl, inr, true, false, Option, none, some, List, [], ◌∷◌,
  In, str_eq, eq_iff, Bool-cases,
}
use ticketmirror.Base.Names.{member, lookup}
use ticketmirror.Data.{Booking, Value, value_eq, value_eq→eq, value_eq_refl, Conflict}
use ticketmirror.Bookings.Overrides.{
  Values, provider_to_active_field_map, is_manually_overridden, active_field_for_provider_field,
  held_active_field, with_conflict, provider_update_conflicts,
}
use ticketmirror.Ingestion.Update.Guarded.{
  Guarded, status, schedule_slot, active_travel_date, active_start_time, active_end_time,
  active_slot_type, active_traveler_count, name_of,
}

-- The column in which an email states a guarded field.
abbrev pub stated_in : Guarded → Option String
stated_in status = some "status"
stated_in schedule_slot = none
stated_in active_travel_date = some "provider_travel_date"
stated_in active_start_time = some "provider_start_time"
stated_in active_end_time = some "provider_end_time"
stated_in active_slot_type = some "provider_slot_type"
stated_in active_traveler_count = some "provider_traveler_count"

-- The values state another value of a field than the one that the staff gave the booking.
pub record Disagreement (b : Booking) (vs : Values) : Type 0 where
  pub field : Guarded
  pub column : String
  pub stated : Value
  pub of_field : stated_in field ≡ some column
  pub given : In (column, stated) vs
  pub edited : member (name_of field) b.manual_override_fields ≡ true
  pub differs : b.columns (name_of field) ≢ stated

mapped :
    (g : Guarded) (column : String)
    → stated_in g ≡ some column
    → active_field_for_provider_field column ≡ some (name_of g)
unfolding active_field_for_provider_field
mapped schedule_slot column e = cc
mapped status column e = let q : column ≡ "status" = cc in rw q refl
mapped active_travel_date column e = let q : column ≡ "provider_travel_date" = cc in rw q refl
mapped active_start_time column e = let q : column ≡ "provider_start_time" = cc in rw q refl
mapped active_end_time column e = let q : column ≡ "provider_end_time" = cc in rw q refl
mapped active_slot_type column e = let q : column ≡ "provider_slot_type" = cc in rw q refl
mapped active_traveler_count column e = let q : column ≡ "provider_traveler_count" = cc in rw q refl

lookup-In :
    {V : Type 0} (name : String) (d : List (String × V)) (v : V)
    → lookup name d ≡ some v
    → In (name, v) d
lookup-In name [] v e = cc
lookup-In name ((k, w) ∷ d) v e = elim (Bool-cases (str_eq k name)) [
  | inl t ↦
      let p : some w ≡ some v = rw t at e in
      let q : w ≡ v = cc in let r : k ≡ name = (eq_iff k name).0 t in inl (rw (q, r) refl)
  | inr f ↦ inr (lookup-In name d v (rw f at e))
]

abbrev OfField : String → String → Type 0
OfField column active = (g : Guarded) × (stated_in g ≡ some column) × (active ≡ name_of g)

-- The table of the source pairs just these.
paired : (x : String × String) → In x provider_to_active_field_map → OfField (x.0) (x.1)
paired x (inl e) = (active_travel_date, rw e refl, rw e refl)
paired x (inr (inl e)) = (active_start_time, rw e refl, rw e refl)
paired x (inr (inr (inl e))) = (active_end_time, rw e refl, rw e refl)
paired x (inr (inr (inr (inl e)))) = (active_slot_type, rw e refl, rw e refl)
paired x (inr (inr (inr (inr (inl e))))) = (active_traveler_count, rw e refl, rw e refl)
paired x (inr (inr (inr (inr (inr (inl e)))))) = (status, rw e refl, rw e refl)
paired x (inr (inr (inr (inr (inr (inr i)))))) = absurd i

field_of :
    (column active : String)
    → active_field_for_provider_field column ≡ some active
    → OfField column active
unfolding active_field_for_provider_field
field_of column active e =
    paired (column, active) (lookup-In column provider_to_active_field_map active e)

differs-value_eq : (v w : Value) → v ≢ w → value_eq v w ≡ false
differs-value_eq v w n = elim (Bool-cases (value_eq v w)) [
  | inl t ↦ absurd (n (value_eq→eq v w t))
  | inr f ↦ f
]

module _ (b : Booking) (name : String) (v : Value) (rest : List (String × Conflict)) where
  conflict_hit :
      (active : String)
      → is_manually_overridden b active ≡ true
      → value_eq (b.columns active) v ≡ false
      → with_conflict b (held_active_field b (some active)) name v rest ≢ []
  conflict_hit active o f e = cc (rw (o, f) at e)

  conflict_passed : (held : Option String) → with_conflict b held name v rest ≡ [] → rest ≡ []
  conflict_passed none e = e
  conflict_passed (some active) e = elim (Bool-cases (value_eq (b.columns active) v)) [
    | inl t ↦ rw t at e
    | inr f ↦ cc (rw f at e)
  ]

  conflict_missed :
      (o : Option String)
      → ((active : String)
          → o ≡ some active
          → is_manually_overridden b active ≡ true
          → value_eq (b.columns active) v ≡ true)
      → with_conflict b (held_active_field b o) name v rest ≡ rest
  conflict_missed none h = refl
  conflict_missed (some active) h = elim (Bool-cases (is_manually_overridden b active)) [
    | inr f ↦ rw f refl
    | inl t ↦ rw (t, h active refl t) refl
  ]

conflicts-cons :
    (b : Booking) (name : String) (v : Value) (vs : Values)
    → provider_update_conflicts b ((name, v) ∷ vs)
      ≡ with_conflict b
          (held_active_field b (active_field_for_provider_field name))
          name
          v
          (provider_update_conflicts b vs)
unfolding provider_update_conflicts
conflicts-cons b name v vs = refl

later :
    (b : Booking) (x : String × Value) (vs : Values) → Disagreement b vs → Disagreement b (x ∷ vs)
later b x vs d = record {
  field = d.field;
  column = d.column;
  stated = d.stated;
  of_field = d.of_field;
  given = inr d.given;
  edited = d.edited;
  differs = d.differs;
}

-- A disagreement makes a conflict.
pub disagreement-conflict :
    (b : Booking) (vs : Values) → Disagreement b vs → provider_update_conflicts b vs ≢ []
unfolding is_manually_overridden
disagreement-conflict b [] d e = absurd d.given
disagreement-conflict b ((name, v) ∷ vs) d e =
    let k = sym (conflicts-cons b name v vs) ∙ e in
    elim d.given [
      | inr i ↦
          disagreement-conflict b vs
            (record {
              field = d.field;
              column = d.column;
              stated = d.stated;
              of_field = d.of_field;
              given = i;
              edited = d.edited;
              differs = d.differs;
            })
            (conflict_passed b name v (provider_update_conflicts b vs)
              (held_active_field b (active_field_for_provider_field name)) k)
      | inl q ↦
          let same : d.column ≡ name = ap (λ x. x.0) q in
          let to : active_field_for_provider_field name ≡ some (name_of d.field) =
            mapped d.field name (d.of_field ∙ ap some same) in
          conflict_hit b name v (provider_update_conflicts b vs) (name_of d.field) d.edited
            (differs-value_eq (b.columns (name_of d.field)) v
              (λ r. d.differs (r ∙ sym (ap (λ x. x.1) q))))
            (rw to at k)
    ]

-- Without one there is none.
pub conflict-disagreement :
    (b : Booking) (vs : Values) → ¬ (Disagreement b vs) → provider_update_conflicts b vs ≡ []
unfolding is_manually_overridden
conflict-disagreement b [] n = (unfold provider_update_conflicts in refl)
conflict-disagreement b ((name, v) ∷ vs) n =
    conflicts-cons b name v vs
    ∙ (conflict_missed b name v (provider_update_conflicts b vs)
          (active_field_for_provider_field name) agrees
        ∙ conflict-disagreement b vs (λ d. n (later b (name, v) vs d)))
  where
    agrees :
        (active : String)
        → active_field_for_provider_field name ≡ some active
        → is_manually_overridden b active ≡ true
        → value_eq (b.columns active) v ≡ true
    agrees active e o = elim (Bool-cases (value_eq (b.columns active) v)) [
      | inl t ↦ t
      | inr f ↦
          let (g, p, q) = field_of name active e in
          absurd (
            n (record {
              field = g;
              column = name;
              stated = v;
              of_field = p;
              given = inl refl;
              edited = rw q at o;
              differs = λ r.
                  let same : b.columns active ≡ v = ap b.columns q ∙ r in
                  let t : value_eq (b.columns active) v ≡ true = rw same (value_eq_refl v) in
                  let c : true ≡ false = sym t ∙ f in cc;
            }))
    ]
