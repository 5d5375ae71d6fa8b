-- ===== src/Bookings/Schedules/Resolution.antt =====
-- Which slot `resolve_schedule_slot_details` gives a booking.
use ticketmirror.Base.{
  ℕ, ◌≡◌, refl, ◌≢◌, ◌↔◌, inl, inr, Bool, true, false, not, ◌&&◌, ◌||◌, Option, none, some, List,
  [], ◌∷◌, In, arith, ◌==◌, ==_iff, In-filter, filter-In, filter, find?, find?-some, find?-none,
  Bool-cases,
}
use ticketmirror.Base.Sort.{sort, In-sort}
use ticketmirror.Data.{Db, ActivitySchedule, ActivityScheduleSlot, SlotType, slot_type_eq}
use ticketmirror.Bookings.Schedules.{
  sorted_slots, slots_of_schedule, timed, resolve_active_schedule, schedule_applies_to_weekday,
  slot_applies_to_weekday, slot_removed_by_exception, or_all, of_slot_type, running_slots,
  candidate_slots_for_booking, slot_le, choose_slot, unmatched, ScheduleSlotResolution,
  resolve_schedule_slot_details,
}

-- The slot runs on the date, under the schedule that is in force, and no exception removes it.
pub record IsRunning (db : Db) (activity travel_date : ℕ) (s : ActivityScheduleSlot) : Type 0 where
  pub schedule : ActivitySchedule
  pub in_force : resolve_active_schedule db activity travel_date ≡ some schedule
  pub on_day : schedule_applies_to_weekday schedule travel_date ≡ true
  pub stored : In s db.slots
  pub of_schedule : s.schedule ≡ schedule.id
  pub active : s.active ≡ true
  pub slot_on_day : slot_applies_to_weekday s travel_date ≡ true
  pub kept : slot_removed_by_exception db s travel_date ≡ false

In-or_all :
    (s : ActivityScheduleSlot) (typed slots : List ActivityScheduleSlot)
    → (In s typed → In s slots)
    → In s (or_all typed slots)
    → In s slots
In-or_all s [] slots f h = h
In-or_all s (t ∷ r) slots f h = f h

In-of_slot_type :
    (type : Option SlotType) (s : ActivityScheduleSlot) (slots : List ActivityScheduleSlot)
    → In s (of_slot_type type slots)
    → In s slots
unfolding of_slot_type
In-of_slot_type none s slots h = h
In-of_slot_type (some type) s slots h =
    In-or_all s (filter (λ t. slot_type_eq t.slot_type type) slots) slots
      (λ m. (In-filter (λ t. slot_type_eq t.slot_type type) s slots m).0) h

-- The two tests that `running_slots` makes of a slot.
is_kept : Db → ℕ → ActivityScheduleSlot → Bool
is_kept db d s = slot_applies_to_weekday s d && not (slot_removed_by_exception db s d)

is_active_of : ActivitySchedule → ActivityScheduleSlot → Bool
is_active_of c s = s.schedule == c.id && s.active

kept_parts :
    (db : Db) (d : ℕ) (s : ActivityScheduleSlot)
    → (is_kept db d s ≡ true)
      ↔ ((slot_applies_to_weekday s d ≡ true) × (slot_removed_by_exception db s d ≡ false))
unfolding is_kept
kept_parts db d s = (λ h. ground arith, λ h. ground arith)

active_parts :
    (c : ActivitySchedule) (s : ActivityScheduleSlot)
    → (is_active_of c s ≡ true) ↔ ((s.schedule ≡ c.id) × (s.active ≡ true))
unfolding is_active_of
active_parts c s = (λ h. ground arith, λ h. ground arith)

running_slots_lem :
    (db : Db) (c : ActivitySchedule) (d : ℕ)
    → running_slots db c d ≡ filter (is_kept db d) (filter (is_active_of c) db.slots)
unfolding running_slots is_kept is_active_of
running_slots_lem db c d = refl

each-IsRunning :
    (db : Db) (a d : ℕ) (c : ActivitySchedule) (s : ActivityScheduleSlot)
    → resolve_active_schedule db a d ≡ some c
    → schedule_applies_to_weekday c d ≡ true
    → In s (running_slots db c d)
    → IsRunning db a d s
each-IsRunning db a d c s e day h =
    let (m, k) = In-filter (is_kept db d) s _ (rw running_slots_lem at h) in
    let (stored, act) = In-filter (is_active_of c) s db.slots m in
    let (on, kept) = (kept_parts db d s).0 k in
    let (of, active) = (active_parts c s).0 act in
    record {
      schedule = c;
      in_force = e;
      on_day = day;
      stored = stored;
      of_schedule = of;
      active = active;
      slot_on_day = on;
      kept = kept;
    }

-- Conversely, a running slot is among the slots of the schedule in force.
IsRunning-In :
    (db : Db) (a d : ℕ) (s : ActivityScheduleSlot) (h : IsRunning db a d s)
    → In s (running_slots db h.schedule d)
IsRunning-In db a d s h = rw running_slots_lem (
    filter-In (is_kept db d) s _
      (filter-In (is_active_of h.schedule) s db.slots h.stored
        ((active_parts h.schedule s).1 (h.of_schedule, h.active)))
      ((kept_parts db d s).1 (h.slot_on_day, h.kept)))

sorted-IsRunning :
    (db : Db) (a d : ℕ) (type : Option SlotType) (s : ActivityScheduleSlot)
    (o : Option ActivitySchedule)
    → resolve_active_schedule db a d ≡ o
    → In s (sorted_slots type (slots_of_schedule db d o))
    → IsRunning db a d s
unfolding sorted_slots slots_of_schedule
sorted-IsRunning db a d type s none e h = absurd h
sorted-IsRunning db a d type s (some c) e h = elim (Bool-cases (schedule_applies_to_weekday c d)) [
  | inl day ↦
      let m : In s (sort slot_le (of_slot_type type (running_slots db c d))) =
        rw (day, sorted_slots) at h in
      each-IsRunning db a d c s e day (In-of_slot_type type s _ ((In-sort slot_le s _).0 m))
  | inr off ↦ let m : ⊥ = rw (off, sorted_slots) at h in absurd m
]

-- The candidates of a dated booking run on that date.
pub candidate-IsRunning :
    (db : Db) (a d : ℕ) (type : Option SlotType) (s : ActivityScheduleSlot)
    → In s (candidate_slots_for_booking db a (some d) type)
    → IsRunning db a d s
unfolding candidate_slots_for_booking
candidate-IsRunning db a d type s h = sorted-IsRunning db a d type s _ refl h

-- With no slot type asked for, every running slot is a candidate.
pub IsRunning-candidate :
    (db : Db) (a d : ℕ) (s : ActivityScheduleSlot)
    → IsRunning db a d s
    → In s (candidate_slots_for_booking db a (some d) none)
unfolding candidate_slots_for_booking slots_of_schedule sorted_slots of_slot_type
IsRunning-candidate db a d s h =
    rw (h.in_force, slots_of_schedule, h.on_day, sorted_slots)
      ((In-sort slot_le s _).1 (IsRunning-In db a d s h))

-- What a resolution says of a booking that asks for the start time `t` on the date `d`.
pub record IsSound (db : Db) (a d t : ℕ) (type : Option SlotType)
    (fallback : Option ActivityScheduleSlot) (r : ScheduleSlotResolution) : Type 0 where
  pub by_time :
      r.matched_by_time ≡ true
      → (s : ActivityScheduleSlot) × (r.slot ≡ some s) × IsRunning db a d s × (s.start_time ≡ t)
  pub by_single :
      r.used_single_slot_fallback ≡ true
      → (s : ActivityScheduleSlot) × (r.slot ≡ some s)
        × IsRunning db a d s
        × (candidate_slots_for_booking db a (some d) type ≡ s ∷ [])
  pub no_match :
      r.no_match_for_time ≡ true
      → (r.slot ≡ fallback)
        × ((s : ActivityScheduleSlot)
            → In s (candidate_slots_for_booking db a (some d) type)
            → s.start_time ≢ t)
  pub some_flag : (r.matched_by_time || (r.used_single_slot_fallback || r.no_match_for_time)) ≡ true

module _ (db : Db) (a d t : ℕ) (type : Option SlotType)
    (fallback : Option ActivityScheduleSlot) where
  starts : ActivityScheduleSlot → Bool
  starts slot = slot.start_time == t

  none-starts :
      (slots : List ActivityScheduleSlot)
      → find? starts slots ≡ none
      → (s : ActivityScheduleSlot) → In s slots
      → s.start_time ≢ t
  unfolding starts
  none-starts slots e s h p = cc (find?-none starts s slots e h, (==_iff _ _).1 p)

  unmatched-IsSound :
      (slots : List ActivityScheduleSlot)
      → candidate_slots_for_booking db a (some d) type ≡ slots
      → find? starts slots ≡ none
      → IsSound db a d t type fallback (unmatched fallback slots)
  unfolding unmatched
  unmatched-IsSound [] e n = record {
    by_time = λ h. cc;
    by_single = λ h. cc;
    no_match = λ h. (refl, rw e (none-starts [] n));
    some_flag = refl;
  }
  unmatched-IsSound (s ∷ []) e n = record {
    by_time = λ h. cc;
    by_single = λ h. (s, refl, candidate-IsRunning db a d type s (rw e (inl refl)), e);
    no_match = λ h. cc;
    some_flag = refl;
  }
  unmatched-IsSound (s ∷ u ∷ r) e n = record {
    by_time = λ h. cc;
    by_single = λ h. cc;
    no_match = λ h. (refl, rw e (none-starts (s ∷ u ∷ r) n));
    some_flag = refl;
  }

  timed-IsSound :
      (slots : List ActivityScheduleSlot) (o : Option ActivityScheduleSlot)
      → candidate_slots_for_booking db a (some d) type ≡ slots
      → find? starts slots ≡ o
      → IsSound db a d t type fallback (timed fallback slots o)
  unfolding timed starts
  timed-IsSound slots none e n = unmatched-IsSound slots e n
  timed-IsSound slots (some s) e n =
      let (m, p) = find?-some starts s slots n in
      record {
        by_time = λ h. (s, refl, candidate-IsRunning db a d type s (rw e m), (==_iff _ _).0 p);
        by_single = λ h. cc;
        no_match = λ h. cc;
        some_flag = refl;
      }

  -- For a known activity, date and start time the resolution is sound: a slot matched by time runs
  -- on the date and starts at the time; a single-slot fallback is the only candidate and runs on
  -- the date; where no match is reported, the slot is the given fallback and no candidate starts at
  -- the time; and one of these three is always the case.
  pub resolve_schedule_slot_details-IsSound :
      IsSound db a d t type fallback
        (resolve_schedule_slot_details db (some a) (some d) (some t) type fallback)
  unfolding resolve_schedule_slot_details choose_slot starts
  resolve_schedule_slot_details-IsSound =
      timed-IsSound (candidate_slots_for_booking db a (some d) type) _ refl refl
