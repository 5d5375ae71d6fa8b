-- ===== src/Ingestion/Create/Created.antt =====
-- The booking that a first email makes.
use ticketmirror.Base.{
  ◌+◌, String, ◌≡◌, refl, sym, ◌∙◌, inl, inr, Bool, true, false, Option, none, some, List, [], ◌∷◌,
  ◌++◌, any, str_eq, eq_iff, eq_refl, find?, or_else, Bool-cases,
}
use ticketmirror.Base.Result.{ok}
use ticketmirror.Base.Names.{member, keys, lookup}
use ticketmirror.Data.{
  Db, Provider, Booking, Value, ref, time, slot_type, truthy, ProviderAlias, RawEmail,
  ActivityScheduleSlot, values,
}
use ticketmirror.Bookings.Overrides.{Values, set_column}
use ticketmirror.Bookings.Rows.{new_booking, set_columns, has_identity, create_row}
use ticketmirror.Ingestion.Parsed.{
  ParsedBooking, provider_values_with, provider_values_from_parsed, stated_status, payload,
  opt_time,
}
use ticketmirror.Ingestion.Slots.{
  put, fill, value_or_null, fill_from_slot, apply_alias_slot_values, slot_for_parsed_time, opt_slot,
}
use ticketmirror.Ingestion.Update.{create_booking_event}
use ticketmirror.Ingestion.Update.Guarded.{member-put}
use ticketmirror.Ingestion.Update.Given.{GivesOnce, here, there}
use ticketmirror.Ingestion.Update.Active.{
  Followed, travel_date, traveler_count, active_name, stated, NotOfAlias, followed-NotOfAlias,
  member-fill_from_slot,
}
use ticketmirror.Ingestion.Identity.{find_exact}
use ticketmirror.Ingestion.Create.{
  starting_active_values, starting_values, starting_booking, create_booking,
}

-- A field that is given once has the given value.
column-set_columns_kept :
    (b : Booking) (vs : Values) (f : String)
    → member f (keys vs) ≡ false
    → (set_columns b vs).columns f ≡ b.columns f
unfolding set_columns set_column
column-set_columns_kept b [] f h = refl
column-set_columns_kept b ((k, v) ∷ vs) f h = elim (Bool-cases (str_eq k f)) [
  | inl e ↦ let q : true ≡ false = rw e at h in cc
  | inr e ↦ column-set_columns_kept (set_column b k v) vs f (rw e at h) ∙ rw e refl
]

column-set_columns_given :
    (b : Booking) (vs : Values) (f : String) (v : Value)
    → GivesOnce f v vs
    → (set_columns b vs).columns f ≡ v
unfolding set_columns set_column
column-set_columns_given b [] f v x = elim x [ ]
column-set_columns_given b ((_, _) ∷ vs) f v (here absent) =
    column-set_columns_kept (set_column b f v) vs f absent ∙ rw eq_refl refl
column-set_columns_given b ((k, w) ∷ vs) f v (there ne h) =
    column-set_columns_given (set_column b k w) vs f v h

module _ (f : String) (v : Value) where
  gives-put :
      (name : String) (w : Value) (vs : Values)
      → str_eq name f ≡ false
      → GivesOnce f v vs
      → GivesOnce f v (put name w vs)
  gives-put name w [] ne x = elim x [ ]
  gives-put name w ((_, _) ∷ vs) ne (here absent) = elim (Bool-cases (str_eq f name)) [
    | inl e ↦
        let q : f ≡ name = (eq_iff f name).0 e in
        let r : str_eq name name ≡ false = rw q at ne in
        absurd (true_ne_false (sym (eq_refl name) ∙ r))
    | inr e ↦ rw e (here (member-put f name w vs ∙ rw (ne, absent) refl))
  ]
    where
      true_ne_false : true ≡ false → ⊥
      true_ne_false h = cc
  gives-put name w ((k, u) ∷ vs) ne (there nk h) = elim (Bool-cases (str_eq k name)) [
    | inl e ↦ rw e (there ne h)
    | inr e ↦ rw e (there nk (gives-put name w vs ne h))
  ]

  gives-fill :
      (name : String) (w : Value) (vs : Values)
      → str_eq name f ≡ false
      → GivesOnce f v vs
      → GivesOnce f v (fill name w vs)
  unfolding fill
  gives-fill name w vs ne h = elim (Bool-cases (member name (keys vs))) [
    | inl e ↦ rw e (elim (Bool-cases (truthy (value_or_null (lookup name vs)))) [
      | inl t ↦ rw t h
      | inr t ↦ rw t (gives-put name w vs ne h)
    ])
    | inr e ↦ rw e (elim (Bool-cases (truthy (value_or_null (lookup name (put name w vs))))) [
      | inl t ↦ rw t (gives-put name w vs ne h)
      | inr t ↦ rw t (gives-put name w (put name w vs) ne (gives-put name w vs ne h))
    ])
  ]

  gives-fill_from_slot :
      (o : Option ActivityScheduleSlot) (vs : Values)
      → NotOfAlias f
      → GivesOnce f v vs
      → GivesOnce f v (fill_from_slot o vs)
  unfolding fill_from_slot
  gives-fill_from_slot none vs n h = h
  gives-fill_from_slot (some s) vs n h =
      gives-fill "active_slot_type" (slot_type s.slot_type) _ n.slot (
        gives-fill "active_end_time" (opt_time s.end_time) _ n.end
          (gives-fill "active_start_time" (time s.start_time) vs n.start h))

  gives-append_right :
      (vs us : Values) → member f (keys vs) ≡ false → GivesOnce f v us → GivesOnce f v (vs ++ us)
  gives-append_right [] us h g = g
  gives-append_right ((k, w) ∷ vs) us h g = elim (Bool-cases (str_eq k f)) [
    | inl e ↦ let q : true ≡ false = rw e at h in cc
    | inr e ↦ there e (gives-append_right vs us (rw e at h) g)
  ]

column-set_columns_append :
    (b : Booking) (vs us : Values) (f : String)
    → member f (keys us) ≡ false
    → (set_columns b (vs ++ us)).columns f ≡ (set_columns b vs).columns f
unfolding set_columns
column-set_columns_append b [] us f h = column-set_columns_kept b us f h
column-set_columns_append b ((k, v) ∷ vs) us f h =
    column-set_columns_append (set_column b k v) vs us f h

frame-set_columns :
    (b : Booking) (vs : Values)
    → ((set_columns b vs).id ≡ b.id)
      × ((set_columns b vs).provider ≡ b.provider)
      × ((set_columns b vs).provider_booking_reference ≡ b.provider_booking_reference)
      × ((set_columns b vs).manual_override_fields ≡ b.manual_override_fields)
unfolding set_columns set_column
frame-set_columns b [] = (refl, refl, refl, refl)
frame-set_columns b ((k, v) ∷ vs) = frame-set_columns (set_column b k v) vs

gives_active :
    (f : Followed) (p : ParsedBooking)
    → GivesOnce
        (active_name f)
        (stated f p)
        (starting_active_values (provider_values_from_parsed p))
unfolding starting_active_values provider_values_from_parsed provider_values_with
gives_active travel_date p = here refl
gives_active traveler_count p = there refl (there refl (there refl (there refl (here refl))))

started :
    (f : Followed) (db : Db) (o : Option ProviderAlias) (p : ParsedBooking)
    → GivesOnce
        (active_name f)
        (stated f p)
        (starting_values db (provider_values_from_parsed p) o p)
unfolding starting_values provider_values_from_parsed provider_values_with apply_alias_slot_values
started travel_date db none p =
    gives-append_right _ _ (provider_values_from_parsed p) _ refl (gives_active travel_date p)
started traveler_count db none p =
    gives-append_right _ _ (provider_values_from_parsed p) _ refl (gives_active traveler_count p)
started travel_date db (some a) p =
    let slot = slot_for_parsed_time db a p in
    gives-append_right _ _
      (put "schedule_slot" (opt_slot slot)
        (put "activity" (ref a.linked_activity) (provider_values_from_parsed p)))
      _ refl
      (gives-fill_from_slot _ _ (or_else slot a.linked_slot) _ (followed-NotOfAlias travel_date)
        (gives_active travel_date p))
started traveler_count db (some a) p =
    let slot = slot_for_parsed_time db a p in
    gives-append_right _ _
      (put "schedule_slot" (opt_slot slot)
        (put "activity" (ref a.linked_activity) (provider_values_from_parsed p)))
      _ refl
      (gives-fill_from_slot _ _ (or_else slot a.linked_slot) _ (followed-NotOfAlias traveler_count)
        (gives_active traveler_count p))

starting_status :
    (b : Booking) (db : Db) (o : Option ProviderAlias) (p : ParsedBooking)
    → (set_columns b (starting_values db (provider_values_from_parsed p) o p)).columns "status"
      ≡ Value.status (stated_status p.event_type p.status)
unfolding starting_values starting_active_values provider_values_from_parsed provider_values_with
    apply_alias_slot_values set_columns set_column
starting_status b db none p = refl
starting_status b db (some a) p =
    let slot = slot_for_parsed_time db a p in
    column-set_columns_append b
      (put "schedule_slot" (opt_slot slot)
        (put "activity" (ref a.linked_activity) (provider_values_from_parsed p)))
      (fill_from_slot (or_else slot a.linked_slot)
        (starting_active_values (provider_values_from_parsed p)))
      "status"
      (member-fill_from_slot "status" (or_else slot a.linked_slot)
        (starting_active_values (provider_values_from_parsed p))
        (record { start = refl; end = refl; slot = refl; values = refl }) refl)

-- What a first email gives, in the database `r.1`.
pub record IsCreated (db : Db) (provider : Provider) (raw : RawEmail) (p : ParsedBooking)
    (r : Booking × Db) : Type 0 where
  pub stored : r.1.bookings ≡ db.bookings ++ r.0 ∷ []
  pub identity :
      (r.0.provider ≡ provider.id) × (r.0.provider_booking_reference ≡ p.provider_booking_reference)
  pub unedited : r.0.manual_override_fields ≡ []
  pub status : r.0.columns "status" ≡ Value.status (stated_status p.event_type p.status)
  pub active : (f : Followed) → r.0.columns (active_name f) ≡ stated f p
  pub reviews : r.1.reviews ≡ db.reviews
  pub raw_emails : r.1.raw_emails ≡ db.raw_emails

not_found : (test : Booking → Bool) (bs : List Booking) → find? test bs ≡ none → any test bs ≡ false
not_found test [] h = refl
not_found test (b ∷ bs) h = elim (Bool-cases (test b)) [
  | inl e ↦ let q : some b ≡ none = rw e at h in cc
  | inr e ↦ rw e (not_found test bs (rw e at h))
]

-- Where no booking has an email's provider and reference, the email makes one: it has that identity,
-- no manual edits, the email's status (cancelled for a cancellation) and the email's date and traveler
-- count as its active ones, whatever the alias; the review queue and the stored emails are untouched.
pub create_booking-IsCreated :
    (db : Db) (provider : Provider) (raw : RawEmail) (p : ParsedBooking)
    (alias : Option ProviderAlias)
    → find_exact db provider.id p.provider_booking_reference ≡ none
    → (r : Booking × Db) × (create_booking db provider raw p alias ≡ ok r)
      × IsCreated db provider raw p r
unfolding create_booking create_row starting_booking new_booking create_booking_event find_exact
create_booking-IsCreated db provider raw p alias h =
    let b = starting_booking db provider raw p alias in
    let vs = starting_values db (provider_values_from_parsed p) alias p in
    let start = new_booking db.next_id provider.id p.provider_booking_reference in
    let (_, same_provider, same_reference, same_overrides) = frame-set_columns start vs in
    let free : any (has_identity b.provider b.provider_booking_reference) db.bookings ≡ false =
      rw (same_provider, same_reference)
        (not_found (has_identity provider.id p.provider_booking_reference) db.bookings h) in
    let db' : Db = record db { bookings = db.bookings ++ b ∷ []; next_id = db.next_id + 1 } in
    (
      (
        b,
        create_booking_event db' b raw p.event_type []
            (payload p ++ ("provider_values", values (provider_values_from_parsed p)) ∷ []),
      ),
      rw free refl,
      record {
        stored = refl;
        identity = (same_provider, same_reference);
        unedited = same_overrides;
        status = starting_status start db alias p;
        active = λ f.
            column-set_columns_given start vs (active_name f) (stated f p) (started f db alias p);
        reviews = refl;
        raw_emails = refl;
      },
    )
