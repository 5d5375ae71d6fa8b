-- ===== src/Bookings/Overrides/Edits.antt =====
-- What a manual edit does to the booking, to its list of overridden fields and to the audit trail.
use ticketmirror.Base.{
  ℕ, String, ◌≡◌, refl, sym, ap, ◌∙◌, ◌⊎◌, inl, inr, Bool, true, false, not, ◌||◌, Option, none,
  some, List, [], ◌∷◌, ◌++◌, In, arith, str_eq, eq_iff, eq_refl, ==_iff, if◌then◌else◌, Bool-cases,
}
use ticketmirror.Base.Result.{ok}
use ticketmirror.Base.Names.{
  member, lookup, IsDict, lookup-not_member, member-add_name, member-sorted_names, member-append,
  sorted_names,
}
use ticketmirror.Data.{
  Db, Booking, SameIdentity, SameThread, Booking-ext, Value, value_eq, value_eq→eq, BookingEvent,
}
use ticketmirror.Bookings.Overrides.{
  Values, is_manually_overridden, Edit, edit_field, edit_fields, as_set, start_edit, save_fields,
  edit_event, finish_edit, blocked_fields, apply_manual_override, copy_columns,
}

-- The value that a dictionary of changes gives a field, and whether that differs from the old.
abbrev pub given : Option Value → Value → Value
given none old = old
given (some v) old = v

abbrev pub differs : Option Value → Value → Bool
differs none old = false
differs (some v) old = not (value_eq old v)

columns-edit_field :
    (e : Edit) (name : String) (v : Value) (j : String)
    → (edit_field e name v).booking.columns j ≡ (if str_eq name j then v else e.booking.columns j)
unfolding edit_field
columns-edit_field e name v j = elim (Bool-cases (value_eq (e.booking.columns name) v)) [
  | inl same ↦ rw same (elim (Bool-cases (str_eq name j)) [
    | inl p ↦ rw p (rw (← (eq_iff name j).0 p) (value_eq→eq (e.booking.columns name) v same))
    | inr p ↦ rw p
  ])
  | inr new ↦ rw new
]

overrides-edit_field :
    (e : Edit) (name : String) (v : Value) (j : String)
    → member j (edit_field e name v).overrides ≡ (
        if str_eq name j
        then not (value_eq (e.booking.columns name) v) || member j e.overrides
        else member j e.overrides)
unfolding edit_field
overrides-edit_field e name v j = elim (Bool-cases (value_eq (e.booking.columns name) v)) [
  | inl same ↦ rw same (elim (Bool-cases (str_eq name j)) [ inl p ↦ rw p | inr p ↦ rw p ])
  | inr new ↦
      rw new
        (rw member-add_name (elim (Bool-cases (str_eq name j)) [ inl p ↦ rw p | inr p ↦ rw p ]))
]

columns-edit_fields :
    (e : Edit) (changes : Values) (j : String)
    → IsDict changes
    → (edit_fields e changes).booking.columns j ≡ given (lookup j changes) (e.booking.columns j)
unfolding edit_fields
columns-edit_fields e [] j d = refl
columns-edit_fields e ((name, v) ∷ rest) j d = elim (Bool-cases (str_eq name j)) [
  | inl p ↦
      let absent : lookup j rest ≡ none =
        rw (← (eq_iff name j).0 p) (lookup-not_member name rest d.0) in
      rw p (
        columns-edit_fields (edit_field e name v) rest j d.1
        ∙ rw absent (rw columns-edit_field (rw p)))
  | inr p ↦
      rw p (columns-edit_fields (edit_field e name v) rest j d.1 ∙ rw columns-edit_field (rw p))
]

overrides-edit_fields :
    (e : Edit) (changes : Values) (j : String)
    → IsDict changes
    → member j (edit_fields e changes).overrides
      ≡ (differs (lookup j changes) (e.booking.columns j) || member j e.overrides)
unfolding edit_fields
overrides-edit_fields e [] j d = refl
overrides-edit_fields e ((name, v) ∷ rest) j d = elim (Bool-cases (str_eq name j)) [
  | inl p ↦
      let absent : lookup j rest ≡ none =
        rw (← (eq_iff name j).0 p) (lookup-not_member name rest d.0) in
      let q : name ≡ j = (eq_iff name j).0 p in
      rw p (
        overrides-edit_fields (edit_field e name v) rest j d.1
        ∙ rw absent (overrides-edit_field e name v j ∙ rw p (rw q)))
  | inr p ↦ rw p (
      overrides-edit_fields (edit_field e name v) rest j d.1
      ∙ rw (columns-edit_field e name v j) (rw p (rw (overrides-edit_field e name v j) (rw p))))
]

changed-edit_field :
    (e : Edit) (name : String) (v : Value) (j : String)
    → member j (edit_field e name v).changed_fields ≡ (
        if str_eq name j
        then not (value_eq (e.booking.columns name) v) || member j e.changed_fields
        else member j e.changed_fields)
unfolding edit_field
changed-edit_field e name v j = elim (Bool-cases (value_eq (e.booking.columns name) v)) [
  | inl same ↦ rw same (elim (Bool-cases (str_eq name j)) [ inl p ↦ rw p | inr p ↦ rw p ])
  | inr new ↦
      rw new (rw member-append (elim (Bool-cases (str_eq name j)) [ inl p ↦ rw p | inr p ↦ rw p ]))
]

changed-edit_fields :
    (e : Edit) (changes : Values) (j : String)
    → IsDict changes
    → member j (edit_fields e changes).changed_fields
      ≡ (differs (lookup j changes) (e.booking.columns j) || member j e.changed_fields)
unfolding edit_fields
changed-edit_fields e [] j d = refl
changed-edit_fields e ((name, v) ∷ rest) j d = elim (Bool-cases (str_eq name j)) [
  | inl p ↦
      let absent : lookup j rest ≡ none =
        rw (← (eq_iff name j).0 p) (lookup-not_member name rest d.0) in
      let q : name ≡ j = (eq_iff name j).0 p in
      rw p (
        changed-edit_fields (edit_field e name v) rest j d.1
        ∙ rw absent (changed-edit_field e name v j ∙ rw p (rw q)))
  | inr p ↦ rw p (
      changed-edit_fields (edit_field e name v) rest j d.1
      ∙ rw (columns-edit_field e name v j) (rw p (rw (changed-edit_field e name v j) (rw p))))
]

member-as_set : (j : String) (names : List String) → member j (as_set names) ≡ member j names
member-as_set j [] = refl
member-as_set j (k ∷ names) = rw member-add_name (rw (member-as_set j names))

-- The rounds of an edit leave the row's identity and its stored overrides alone.
identity-edit_field :
    (e : Edit) (name : String) (v : Value)
    → SameIdentity (edit_field e name v).booking e.booking
      × ((edit_field e name v).booking.manual_override_fields ≡ e.booking.manual_override_fields)
      × SameThread (edit_field e name v).booking e.booking
unfolding edit_field
identity-edit_field e name v = elim (Bool-cases (value_eq (e.booking.columns name) v)) [
  | inl same ↦ rw same ((refl, refl, refl), refl, (refl, refl))
  | inr new ↦ rw new ((refl, refl, refl), refl, (refl, refl))
]

identity-edit_fields :
    (e : Edit) (changes : Values)
    → SameIdentity (edit_fields e changes).booking e.booking
      × ((edit_fields e changes).booking.manual_override_fields ≡ e.booking.manual_override_fields)
      × SameThread (edit_fields e changes).booking e.booking
unfolding edit_fields
identity-edit_fields e [] = ((refl, refl, refl), refl, (refl, refl))
identity-edit_fields e ((name, v) ∷ rest) =
    let ((p, q, r), s, (t, u)) = identity-edit_fields (edit_field e name v) rest in
    let ((p', q', r'), s', (t', u')) = identity-edit_field e name v in
    ((p ∙ p', q ∙ q', r ∙ r'), s ∙ s', (t ∙ t', u ∙ u'))

-- What an accepted edit of `b` in `db` gives.
pub record IsEdited (db : Db) (b : Booking) (changes : Values) (r : Booking × Db) : Type 0 where
  -- Each field has the value that was sent, or its old one.
  pub columns : (j : String) → r.0.columns j ≡ given (lookup j changes) (b.columns j)
  -- The overridden fields are those of before and those that changed.
  pub overridden :
      (j : String)
      → is_manually_overridden r.0 j
        ≡ (differs (lookup j changes) (b.columns j) || is_manually_overridden b j)
  -- The identity of the booking is untouched.
  pub identity : SameIdentity r.0 b
  -- A stored row that was read unchanged is stored as it now stands.
  pub stored : In b db.bookings → In r.0 r.1.bookings
  -- Nothing is written where no field differs; otherwise one event is recorded.
  pub audited :
      ((r.1 ≡ db) × ((j : String) → differs (lookup j changes) (b.columns j) ≡ false))
      ⊎ ((event : BookingEvent) × (r.1.events ≡ db.events ++ event ∷ [])
          × (event.booking ≡ some b.id)
          × ((j : String) × (differs (lookup j changes) (b.columns j) ≡ true)))

no_change :
    (b : Booking) (changes : Values) (j : String)
    → IsDict changes
    → (edit_fields (start_edit b) changes).changed_fields ≡ []
    → differs (lookup j changes) (b.columns j) ≡ false
unfolding start_edit
no_change b changes j d eq =
    let p = changed-edit_fields (start_edit b) changes j d in
    let q = ap (member j) eq in ground arith

a_change :
    (b : Booking) (changes : Values) (f : String) {fs : List String}
    → IsDict changes
    → (edit_fields (start_edit b) changes).changed_fields ≡ f ∷ fs
    → differs (lookup f changes) (b.columns f) ≡ true
unfolding start_edit
a_change b changes f {fs} d eq =
    let p = changed-edit_fields (start_edit b) changes f d in
    let q : member f (edit_fields (start_edit b) changes).changed_fields ≡ true =
      ap (member f) eq ∙ rw eq_refl in
    ground arith

given-same : (o : Option Value) (old : Value) → differs o old ≡ false → given o old ≡ old
given-same none old h = refl
given-same (some v) old h = sym (value_eq→eq old v (ground arith))

-- Saving the changed columns saves them all.
copy_columns_lem :
    (b : Booking) (changes : Values) (names : List String)
    → IsDict changes
    → (edit_fields (start_edit b) changes).changed_fields ≡ names
    → (j : String)
    → copy_columns (edit_fields (start_edit b) changes).booking names b.columns j
      ≡ (edit_fields (start_edit b) changes).booking.columns j
unfolding start_edit
copy_columns_lem b changes names d eq j = elim (Bool-cases (member j names)) [
  | inl e ↦ rw e
  | inr e ↦
      let p = changed-edit_fields (start_edit b) changes j d in
      let q : differs (lookup j changes) (b.columns j) ≡ false = ground (arith, ap (member j) eq) in
      rw e
        (sym (columns-edit_fields (start_edit b) changes j d ∙ given-same (lookup j changes) _ q))
]

In-save_fields :
    (b c : Booking) (names : List String) (rows : List Booking)
    → c.id ≡ b.id
    → In b rows
    → In
        (record b {
          manual_override_fields = c.manual_override_fields;
          columns = copy_columns c names b.columns;
        })
        (save_fields c names rows)
unfolding save_fields
In-save_fields b c names [] e h = absurd h
In-save_fields b c names (row ∷ rows) e (inl p) = inl (rw (← p) (rw ((==_iff _ _).1 (sym e)) refl))
In-save_fields b c names (row ∷ rows) e (inr h) = inr (In-save_fields b c names rows e h)

finish_edit-IsEdited :
    (db : Db) (b : Booking) (changes : Values) (user : Option ℕ) (reason : String)
    → IsDict changes
    → let e = edit_fields (start_edit b) changes in
      (names : List String)
      → e.changed_fields ≡ names
      → IsEdited db b changes (finish_edit db e names user reason)
unfolding finish_edit start_edit is_manually_overridden
finish_edit-IsEdited db b changes user reason d [] eq =
    let e = edit_fields (start_edit b) changes in
    let (same, kept, thread) = identity-edit_fields (start_edit b) changes in
    let none_differs = λ (j : String). no_change b changes j d eq in
    record {
      columns = λ j. columns-edit_fields (start_edit b) changes j d;
      overridden = λ j. rw (none_differs j) (ap (member j) kept);
      identity = same;
      stored = λ h.
          let p : e.booking ≡ b = Booking-ext e.booking b same thread kept (λ j.
            columns-edit_fields (start_edit b) changes j d
            ∙ given-same (lookup j changes) _ (none_differs j)) in
          rw p h;
      audited = inl (refl, none_differs);
    }
finish_edit-IsEdited db b changes user reason d (f ∷ fs) eq =
    let e = edit_fields (start_edit b) changes in
    let (same, kept, thread) = identity-edit_fields (start_edit b) changes in
    record {
      columns = λ j. columns-edit_fields (start_edit b) changes j d;
      overridden = λ j.
          member-sorted_names j e.overrides
          ∙ (overrides-edit_fields (start_edit b) changes j d ∙ rw (member-as_set j));
      identity = same;
      stored = λ h.
          let c : Booking = record (e.booking) {
            manual_override_fields = sorted_names e.overrides;
          } in
          let row : Booking = record b {
            manual_override_fields = c.manual_override_fields;
            columns = copy_columns c (f ∷ fs) b.columns;
          } in
          let p : row ≡ c =
            Booking-ext row c (sym same.0, sym same.1, sym same.2) (sym thread.0, sym thread.1) refl
              (copy_columns_lem b changes (f ∷ fs) d eq) in
          rw p at (In-save_fields b c (f ∷ fs) db.bookings same.0 h);
      audited =
          inr (edit_event e user reason, refl, ap some same.0, (f, a_change b changes f d eq));
    }

-- Unless a change names the provider or the reference, a manual edit is accepted: each field gets
-- the value sent, exactly the fields that differ join the overridden ones, the identity stays, and
-- one event is recorded where a field differs, while nothing at all is written where none does.
pub apply_manual_override-IsEdited :
    (db : Db) (b : Booking) (changes : Values) (user : Option ℕ) (reason : String)
    → IsDict changes
    → sorted_names (blocked_fields changes) ≡ []
    → (r : Booking × Db) × (apply_manual_override db b changes user reason ≡ ok r)
      × IsEdited db b changes r
unfolding apply_manual_override
apply_manual_override-IsEdited db b changes user reason d free =
    let e = edit_fields (start_edit b) changes in
    (
      finish_edit db e e.changed_fields user reason,
      rw free,
      finish_edit-IsEdited db b changes user reason d e.changed_fields refl,
    )
