-- ===== src/Commands/Reslot/Stable.antt =====
-- Resolving the slot of a booking a second time changes nothing.
use ticketmirror.Base.{
  ℕ, ◌≡◌, refl, sym, ◌∙◌, ap, Bool, true, false, Option, none, some, List, [], ◌∷◌, ◌==◌, ==_iff,
  find?, inl, inr, Bool-cases,
}
use ticketmirror.Base.Result.{Result, ok, err, ◌>>=◌}
use ticketmirror.Data.{
  Db, Booking, BookingEvent, ref, as_ref, as_date, as_time, as_slot_type, ActivityScheduleSlot,
  opt_eq, SlotType,
}
use ticketmirror.Bookings.Errors.{ServiceError}
use ticketmirror.Bookings.Overrides.{is_manually_overridden, set_column}
use ticketmirror.Bookings.Warnings.{slot_of_ref}
use ticketmirror.Bookings.Schedules.{
  choose_slot, timed, unmatched, resolve_schedule_slot_details, candidate_slots_for_booking,
}
use ticketmirror.Commands.Reslot.{
  Reslotted, reslotted, unchanged, no_match, skipped_manual, create_slot_confirmation_review,
  keep_slot, move_slot, place_booking, resolution_of, reslot_booking, outcome_only,
}

-- A slot that was found for a time does not depend on the fallback.
unmatched-fallback :
    (slots : List ActivityScheduleSlot) (f g : Option ActivityScheduleSlot)
    → (unmatched f slots).no_match_for_time ≡ false
    → unmatched g slots ≡ unmatched f slots
unfolding unmatched
unmatched-fallback [] f g h = cc
unmatched-fallback (s ∷ []) f g h = refl
unmatched-fallback (s ∷ t ∷ slots) f g h = cc

timed-fallback :
    (slots : List ActivityScheduleSlot) (o f g : Option ActivityScheduleSlot)
    → (timed f slots o).no_match_for_time ≡ false
    → timed g slots o ≡ timed f slots o
unfolding timed
timed-fallback slots none f g h = unmatched-fallback slots f g h
timed-fallback slots (some s) f g h = refl

found-fallback :
    (db : Db) (activity : Option ℕ) (travel_date : Option ℕ) (t : ℕ) (type : Option SlotType)
    (f g : Option ActivityScheduleSlot) (a : ℕ)
    → activity ≡ some a
    → (resolve_schedule_slot_details db activity travel_date (some t) type f).no_match_for_time
      ≡ false
    → resolve_schedule_slot_details db activity travel_date (some t) type g
      ≡ resolve_schedule_slot_details db activity travel_date (some t) type f
unfolding resolve_schedule_slot_details choose_slot
found-fallback db none travel_date t type f g a e h = cc
found-fallback db (some b) travel_date t type f g a e h =
    timed-fallback (candidate_slots_for_booking db b travel_date type)
      (find? (λ slot. slot.start_time == t) (candidate_slots_for_booking db b travel_date type)) f g
      h

value_of : Reslotted → Result ServiceError Reslotted → Reslotted
value_of r (err e) = r
value_of r (ok s) = s

-- Where a booking was moved, the slot that was found was not a miss.
record IsMoved (db : Db) (b : Booking) (missed : Bool) (o : Option ActivityScheduleSlot)
    (r : Reslotted) : Type 0 where
  pub slot : ActivityScheduleSlot
  pub found : o ≡ some slot
  pub hit : missed ≡ false
  pub same : r ≡ move_slot db b slot

keep_slot-not_moved :
    (db : Db) (b : Booking) (r : Reslotted)
    → keep_slot db b false ≡ ok r
    → r.outcome ≡ reslotted
    → ⊥
unfolding keep_slot value_of
keep_slot-not_moved db b r e h = failed (create_slot_confirmation_review db b) e
  where
    failed :
        (x : Result ServiceError Db)
        → (x >>= λ db'. ok (record { outcome = no_match; booking = b; db = db' })) ≡ ok r
        → ⊥
    failed (err z) q = cc
    failed (ok db') q =
        let p : no_match ≡ r.outcome = ap (λ x. (value_of r x).outcome) q in
        let c : no_match ≡ reslotted = p ∙ h in cc

place_booking-IsMoved :
    (db : Db) (b : Booking) (missed : Bool) (o : Option ActivityScheduleSlot) (r : Reslotted)
    → place_booking db b false missed o ≡ ok r
    → r.outcome ≡ reslotted
    → IsMoved db b missed o r
unfolding place_booking value_of
place_booking-IsMoved db b missed none r e h = absurd (keep_slot-not_moved db b r e h)
place_booking-IsMoved db b true (some s) r e h = absurd (keep_slot-not_moved db b r e h)
place_booking-IsMoved db b false (some s) r e h =
    elim (Bool-cases (opt_eq (some s.id) (as_ref (b.columns "schedule_slot")))) [
      | inl t ↦
          let q = rw t at e in
          let p : unchanged ≡ reslotted = ap (λ x. (value_of r x).outcome) q ∙ h in cc
      | inr f ↦
          let q = rw f at e in
          record { slot = s; found = refl; hit = refl; same = sym (ap (value_of r) q) }
    ]

-- The slots do not depend on the bookings and the events.
candidates_same :
    (db : Db) (bookings : List Booking) (events : List BookingEvent) (activity : ℕ)
    (travel_date : Option ℕ) (type : Option SlotType)
    → candidate_slots_for_booking
        (record db { bookings = bookings; events = events })
        activity
        travel_date
        type
      ≡ candidate_slots_for_booking db activity travel_date type
unfolding candidate_slots_for_booking
candidates_same db bookings events activity none type = refl
candidates_same db bookings events activity (some d) type = refl

resolution_same :
    (db : Db) (bookings : List Booking) (events : List BookingEvent) (activity : Option ℕ)
    (travel_date start_time : Option ℕ) (type : Option SlotType) (f : Option ActivityScheduleSlot)
    → resolve_schedule_slot_details
        (record db { bookings = bookings; events = events })
        activity
        travel_date
        start_time
        type
        f
      ≡ resolve_schedule_slot_details db activity travel_date start_time type f
unfolding resolve_schedule_slot_details
resolution_same db bookings events none travel_date start_time type f = refl
resolution_same db bookings events (some a) travel_date start_time type f =
    ap (λ slots. choose_slot slots start_time f)
      (candidates_same db bookings events a travel_date type)

module _ (db : Db) (b : Booking) (s : ActivityScheduleSlot) (a t : ℕ)
    (ea : as_ref (b.columns "activity") ≡ some a)
    (et : as_time (b.columns "active_start_time") ≡ some t) where
  -- The slot that a booking was moved to is found again.
  found_again :
      (resolution_of db b).no_match_for_time ≡ false
      → resolution_of (move_slot db b s).db (move_slot db b s).booking ≡ resolution_of db b
  unfolding resolution_of move_slot set_column
  found_again hit =
      let type = as_slot_type (b.columns "active_slot_type") in
      let d = as_date (b.columns "active_travel_date") in
      let f = slot_of_ref db (as_ref (b.columns "schedule_slot")) in
      let g = slot_of_ref db (some s.id) in
      resolution_same db (move_slot db b s).db.bookings (move_slot db b s).db.events
        (as_ref (b.columns "activity")) d (as_time (b.columns "active_start_time")) type g
      ∙ rw et (found-fallback db (as_ref (b.columns "activity")) d t type f g a ea (rw et at hit))

  again :
      is_manually_overridden b "schedule_slot" ≡ false
      → (resolution_of db b).slot ≡ some s
      → (resolution_of db b).no_match_for_time ≡ false
      → reslot_booking (move_slot db b s).db (move_slot db b s).booking false
        ≡ outcome_only unchanged (move_slot db b s).booking (move_slot db b s).db
  unfolding reslot_booking place_booking
  again f found hit =
      let db' = (move_slot db b s).db in
      let b' = (move_slot db b s).booking in
      let manual : is_manually_overridden b' "schedule_slot" ≡ false =
        (unfold is_manually_overridden in unfold move_slot in unfold set_column in f) in
      let r : resolution_of db' b' ≡ resolution_of db b = found_again hit in
      let column : b'.columns "schedule_slot" ≡ ref s.id =
        (unfold move_slot in unfold set_column in refl) in
      rw (manual, r, found, hit, column) (rw ((==_iff s.id s.id).1 refl) refl)

-- A booking that a run moved to another slot is left unchanged by the next run, and so is the database.
pub reslot_booking-stable :
    (db : Db) (b : Booking) (a t : ℕ) (r : Reslotted)
    → as_ref (b.columns "activity") ≡ some a
    → as_time (b.columns "active_start_time") ≡ some t
    → reslot_booking db b false ≡ ok r
    → r.outcome ≡ reslotted
    → reslot_booking r.db r.booking false ≡ outcome_only unchanged r.booking r.db
unfolding reslot_booking value_of
reslot_booking-stable db b a t r ea et e h =
    elim (Bool-cases (is_manually_overridden b "schedule_slot")) [
      | inl m ↦
          let q = rw m at e in
          let p : skipped_manual ≡ reslotted = ap (λ x. (value_of r x).outcome) q ∙ h in cc
      | inr f ↦
          let m = place_booking-IsMoved db b _ _ r (rw f at e) h in
          rw m.same (again db b m.slot a t ea et f m.found m.hit)
    ]
