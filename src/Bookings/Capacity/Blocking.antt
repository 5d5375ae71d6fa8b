-- ===== src/Bookings/Capacity/Blocking.antt =====
-- What the exceptions of a date block.
use ticketmirror.Base.{
  ℕ, ◌-◌, ◌≤◌, ◌≡◌, refl, ◌∙◌, inl, inr, Bool, Option, none, some, List, [], ◌∷◌, max, arith, any,
  Bool-cases, if◌then◌else◌, ◌&&◌,
}
use Prim.Native.Nat.{min}
use ticketmirror.Data.{Db, ActivityScheduleSlot, ActivityScheduleException}
use ticketmirror.Bookings.Schedules.{exception_matches_slot, schedule_exceptions}
use ticketmirror.Bookings.Capacity.{
  closes, override_of, raise_blocked, blocked_from, blocked_pax_for_slot,
}

-- Independent of the order of the exceptions: a blocking or closing exception that applies leaves
-- no room, and otherwise the smallest capacity among the slot's own and the overrides is left.
abbrev pub is_closing : ActivityScheduleSlot → ActivityScheduleException → Bool
is_closing slot e = exception_matches_slot e slot && closes e.exception_type

abbrev pub lower_to : Option ℕ → ℕ → ℕ
lower_to none n = n
lower_to (some c) n = min c n

abbrev pub least_capacity : ActivityScheduleSlot → List ActivityScheduleException → ℕ
least_capacity slot [] = slot.capacity
least_capacity slot (e ∷ es) =
    let rest = least_capacity slot es in
    if exception_matches_slot e slot
    then lower_to (override_of e.exception_type e.capacity) rest
    else rest

least_capacity-le :
    (slot : ActivityScheduleSlot) (es : List ActivityScheduleException)
    → least_capacity slot es ≤ slot.capacity
least_capacity-le slot [] = omega arith
least_capacity-le slot (e ∷ es) = ground (arith, least_capacity-le slot es)

raise_blocked-lower_to :
    (slot : ActivityScheduleSlot) (seen rest : ℕ) (o : Option ℕ)
    → rest ≤ slot.capacity
    → max (raise_blocked slot seen o) (slot.capacity - rest)
      ≡ max seen (slot.capacity - lower_to o rest)
raise_blocked-lower_to slot seen rest none h = refl
raise_blocked-lower_to slot seen rest (some c) h = omega arith

raise_blocked-le :
    (slot : ActivityScheduleSlot) (seen : ℕ) (o : Option ℕ)
    → seen ≤ slot.capacity
    → raise_blocked slot seen o ≤ slot.capacity
raise_blocked-le slot seen none h = h
raise_blocked-le slot seen (some c) h = omega arith

blocked_from_lem :
    (slot : ActivityScheduleSlot) (seen : ℕ) (es : List ActivityScheduleException)
    → seen ≤ slot.capacity
    → blocked_from slot seen es ≡ (
        if any (is_closing slot) es
        then slot.capacity
        else max seen (slot.capacity - least_capacity slot es))
unfolding blocked_from
blocked_from_lem slot seen [] h = omega arith
blocked_from_lem slot seen (e ∷ es) h =
    let o = override_of e.exception_type e.capacity in
    elim (Bool-cases (exception_matches_slot e slot)) [
      | inr off ↦ rw off (blocked_from_lem slot seen es h)
      | inl on ↦ elim (Bool-cases (closes e.exception_type)) [
        | inl shut ↦ rw (on, shut)
        | inr free ↦
            rw (on, free)
              (blocked_from_lem slot (raise_blocked slot seen o) es (raise_blocked-le slot seen o h)
                ∙ rw (
                    raise_blocked-lower_to slot seen (least_capacity slot es) o
                      (least_capacity-le slot es)))
      ]
    ]

-- The exceptions of a date block a slot entirely if one that applies blocks or closes it, and
-- otherwise all but the least capacity among the slot's own and those that override it; so never
-- more than the slot holds.
pub blocked_pax_for_slot_lem :
    (db : Db) (slot : ActivityScheduleSlot) (d : ℕ)
    → let es = schedule_exceptions db slot.schedule d in
      (blocked_pax_for_slot db slot d ≡ (
        if any (is_closing slot) es then slot.capacity else slot.capacity - least_capacity slot es))
      × (blocked_pax_for_slot db slot d ≤ slot.capacity)
unfolding blocked_pax_for_slot
blocked_pax_for_slot_lem db slot d =
    let es = schedule_exceptions db slot.schedule d in
    ground (arith, blocked_from_lem slot 0 es, least_capacity-le slot es)
