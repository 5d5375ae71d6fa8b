-- ===== src/Bookings/Capacity/Counting.antt =====
-- Which bookings count against a slot, and which the day view shows.
use ticketmirror.Base.{
  ℕ, ◌+◌, ◌<◌, ◌≡◌, ◌≢◌, refl, ap, ◌∙◌, if◌then◌else◌, ◌↔◌, ◌⊎◌, inl, inr, Bool, true, false, not,
  ◌&&◌, some, List, [], ◌∷◌, In, All, arith, filter, sum_by, In-filter, filter-In, Bool-cases,
}
use ticketmirror.Base.Int.{is_negative, is_negative-sub}
use ticketmirror.Data.{
  opt_eq→eq, opt_eq_refl, date, ReviewQueueItem, ReviewStatus, open_review, is_open,
  product_mismatch, issue_eq, issue_eq→eq, Db, Booking, Value, Status, as_status, status, ref,
  value_eq, value_eq_refl, ActivityScheduleSlot,
}
use ticketmirror.Base.Membership.{any-In, In-any}
use ticketmirror.Bookings.Capacity.{
  is_confirmed_capacity, is_pending_capacity, is_manual_review_capacity, is_excluded_capacity,
  test_status, blocked_pax_for_slot, status_in, is_review_of, is_active_for_capacity,
  excluded_by_reviews, has_open_mismatch, travels_on, is_in_slot, get_slot_bookings, pax, sum_pax,
  get_capacity_for_slot_date, unscheduled_bookings, is_unscheduled, counts_for_slot,
}

-- The status column holds a status.
abbrev pub HasStatus : Booking → Type 0
HasStatus b = (s : Status) × (b.columns "status" ≡ status s)

abbrev is_counted : Booking → Bool
is_counted b = not (status_in is_excluded_capacity b)

status_in_lem :
    (p : Status → Bool) (b : Booking) (s : Status)
    → b.columns "status" ≡ status s
    → status_in p b ≡ p s
unfolding status_in
status_in_lem p b s e = ap (λ v. test_status p (as_status v)) e

sum_pax-cons :
    (p : Status → Bool) (b : Booking) (bs : List Booking) (s : Status)
    → b.columns "status" ≡ status s
    → sum_pax p (b ∷ bs) ≡ (if p s then pax b else 0) + sum_pax p bs
unfolding sum_pax
sum_pax-cons p b bs s e = rw (status_in_lem p b s e) (ground arith)

class_of_status :
    (s : Status) (n : ℕ)
    → is_excluded_capacity s ≡ false
    → (if is_confirmed_capacity s then n else 0)
        + (if is_pending_capacity s then n else 0)
        + (if is_manual_review_capacity s then n else 0)
      ≡ n
class_of_status Status.confirmed n h = ground arith
class_of_status _ n h = ground arith

sum_pax-nil :
    sum_pax is_confirmed_capacity []
      + sum_pax is_pending_capacity []
      + sum_pax is_manual_review_capacity []
    ≡ 0
unfolding sum_pax
sum_pax-nil = refl

-- A status that is not excluded falls into exactly one of the three classes.
sum_pax_partition :
    (bs : List Booking)
    → All HasStatus bs
    → All (λ b. is_counted b ≡ true) bs
    → sum_pax is_confirmed_capacity bs
        + sum_pax is_pending_capacity bs
        + sum_pax is_manual_review_capacity bs
      ≡ sum_by pax bs
sum_pax_partition [] t c = sum_pax-nil
sum_pax_partition (b ∷ bs) ((s, e), t) (c, cs) =
    let excluded : is_excluded_capacity s ≡ false =
      not_true (status_in_lem is_excluded_capacity b s e) c in
    rw (sum_pax-cons is_confirmed_capacity b bs s e) (
      rw (sum_pax-cons is_pending_capacity b bs s e) (
        rw (sum_pax-cons is_manual_review_capacity b bs s e)
          (omega (arith, class_of_status s (pax b) excluded, sum_pax_partition bs t cs))))
  where
    not_true : {x y : Bool} → x ≡ y → not x ≡ true → y ≡ false
    not_true p q = ground arith

All-filter :
    (p : Booking → Bool) (P : Booking → Type 0) (bs : List Booking) → All P bs → All P (filter p bs)
All-filter p P [] h = tt
All-filter p P (b ∷ bs) h = elim (Bool-cases (p b)) [
  | inl e ↦ rw e (h.0, All-filter p P bs h.1)
  | inr e ↦ rw e (All-filter p P bs h.1)
]

-- What passes a filter has what the filter's test entails.
filter-All :
    (p q : Booking → Bool) (bs : List Booking)
    → ((b : Booking) → p b ≡ true → q b ≡ true)
    → All (λ b. q b ≡ true) (filter p bs)
filter-All p q [] f = tt
filter-All p q (b ∷ bs) f = elim (Bool-cases (p b)) [
  | inl e ↦ rw e (f b e, filter-All p q bs f)
  | inr e ↦ rw e (filter-All p q bs f)
]

slot_bookings-counted :
    (db : Db) (d : ℕ) (slot : ActivityScheduleSlot)
    → All (λ b. is_counted b ≡ true) (get_slot_bookings db d slot)
unfolding get_slot_bookings counts_for_slot
slot_bookings-counted db d slot =
    filter-All (counts_for_slot db d slot) is_counted db.bookings (λ b h. ground arith)

slot_bookings-HasStatus :
    (db : Db) (d : ℕ) (slot : ActivityScheduleSlot)
    → All HasStatus db.bookings
    → All HasStatus (get_slot_bookings db d slot)
unfolding get_slot_bookings
slot_bookings-HasStatus db d slot h = All-filter _ HasStatus db.bookings h

-- Where every booking has a status, the active pax of a slot on a date are all the travelers of the
-- bookings that count for it: no booking is counted twice and none is left out. Fewer remain than
-- none exactly where the travelers and the blocked places exceed the capacity.
pub active_pax_lem :
    (db : Db) (slot : ActivityScheduleSlot) (d : ℕ)
    → All HasStatus db.bookings
    → let r = get_capacity_for_slot_date db slot d in
      (r.active_pax ≡ sum_by pax (get_slot_bookings db d slot))
      × ((is_negative r.remaining ≡ true) ↔ (slot.capacity < r.active_pax + r.blocked_pax))
unfolding get_capacity_for_slot_date
active_pax_lem db slot d h =
    let bs = get_slot_bookings db d slot in
    (
      sum_pax_partition bs (slot_bookings-HasStatus db d slot h) (slot_bookings-counted db d slot),
      is_negative-sub slot.capacity _ (blocked_pax_for_slot db slot d),
    )

shown :
    (db : Db) (d : ℕ) (slot : ActivityScheduleSlot) (b : Booking)
    → is_active_for_capacity b ≡ true
    → travels_on d b ≡ true
    → (b.columns "schedule_slot" ≡ Value.null) ⊎ (b.columns "schedule_slot" ≡ ref slot.id)
    → excluded_by_reviews db b ≡ has_open_mismatch db b
    → (is_unscheduled db d b ≡ true) ⊎ (counts_for_slot db d slot b ≡ true)
unfolding is_active_for_capacity is_unscheduled counts_for_slot
shown db d slot b act on (inl at) agree = inl (rw (on, at) (ground arith))
shown db d slot b act on (inr at) agree =
    let here : is_in_slot slot b ≡ true =
      ap (λ v. value_eq v (ref slot.id)) at ∙ value_eq_refl (ref slot.id) in
    elim (Bool-cases (has_open_mismatch db b)) [
      | inl open_one ↦ inl (ground arith)
      | inr settled ↦
          let kept : excluded_by_reviews db b ≡ false = agree ∙ settled in inr (ground arith)
    ]

not_counted :
    (db : Db) (d : ℕ) (slot : ActivityScheduleSlot) (b : Booking)
    → excluded_by_reviews db b ≡ true
    → ¬ (counts_for_slot db d slot b ≡ true)
unfolding counts_for_slot
not_counted db d slot b ex h = ground arith

not_unscheduled :
    (db : Db) (d : ℕ) (b : Booking) (id : ℕ)
    → b.columns "schedule_slot" ≡ ref id
    → has_open_mismatch db b ≡ false
    → ¬ (is_unscheduled db d b ≡ true)
unfolding is_unscheduled
not_unscheduled db d b id at settled h = ground arith

-- The day view does not lose a booking: stored, active, dated, with a slot or with none, it is
-- listed under its slot or as unscheduled, provided that its reviews exclude it only by one open
-- product mismatch.
pub day_view_complete :
    (db : Db) (d : ℕ) (slot : ActivityScheduleSlot) (b : Booking)
    → In b db.bookings
    → is_active_for_capacity b ≡ true
    → travels_on d b ≡ true
    → (b.columns "schedule_slot" ≡ Value.null) ⊎ (b.columns "schedule_slot" ≡ ref slot.id)
    → excluded_by_reviews db b ≡ has_open_mismatch db b
    → In b (unscheduled_bookings db d) ⊎ In b (get_slot_bookings db d slot)
unfolding get_slot_bookings unscheduled_bookings
day_view_complete db d slot b m act on at agree = elim (shown db d slot b act on at agree) [
  | inl e ↦ inl (filter-In (is_unscheduled db d) b db.bookings m e)
  | inr e ↦ inr (filter-In (counts_for_slot db d slot) b db.bookings m e)
]

-- The reviews of a booking whose product mismatch is settled while another of its reviews is open.
pub record IsSplit (db : Db) (b : Booking) : Type 0 where
  pub other : ReviewQueueItem
  pub other_stored : In other db.reviews
  pub other_of : other.booking ≡ some b.id
  pub other_open : other.status ≡ open_review
  pub mismatch : ReviewQueueItem
  pub mismatch_stored : In mismatch db.reviews
  pub mismatch_of : mismatch.booking ≡ some b.id
  pub mismatch_type : mismatch.issue_type ≡ product_mismatch
  pub settled :
      (r : ReviewQueueItem)
      → In r db.reviews
      → r.booking ≡ some b.id
      → r.issue_type ≡ product_mismatch
      → r.status ≢ open_review

split-excluded : (db : Db) (b : Booking) → IsSplit db b → excluded_by_reviews db b ≡ true
unfolding excluded_by_reviews
split-excluded db b h =
    rw
      (
        any-In (λ r. is_review_of b r && is_open r.status) h.other db.reviews h.other_stored
            (rw (h.other_of, opt_eq_refl (some b.id), h.other_open) refl),
        any-In (λ r. is_review_of b r && issue_eq r.issue_type product_mismatch) h.mismatch
            db.reviews h.mismatch_stored
            (rw (h.mismatch_of, opt_eq_refl (some b.id), h.mismatch_type) refl),
      )
      refl

split-settled : (db : Db) (b : Booking) → IsSplit db b → has_open_mismatch db b ≡ false
unfolding has_open_mismatch
split-settled db b h = elim (Bool-cases (has_open_mismatch db b)) [
  | inr f ↦ f
  | inl t ↦
      let (r, i, k) =
        In-any
          (λ r. is_review_of b r && (is_open r.status && issue_eq r.issue_type product_mismatch))
          db.reviews t in
      let (own, open_one, typed) = parts _ _ _ k in
      absurd (h.settled r i (opt_eq→eq _ _ own) (issue_eq→eq _ _ typed) (open_now _ open_one))
]
  where
    parts : (x y z : Bool) → (x && (y && z)) ≡ true → (x ≡ true) × (y ≡ true) × (z ≡ true)
    parts x y z k = (ground arith, ground arith, ground arith)

    open_now : (s : ReviewStatus) → is_open s ≡ true → s ≡ open_review
    open_now open_review t = refl
    open_now _ t = cc

-- A stored booking that is active for capacity, travels on the date and has the slot, but whose
-- product mismatch is settled while another of its reviews is open, is in neither list of the day: the
-- slot's capacity does not count its travelers, and the unscheduled bookings do not show it.
pub day_view_loses :
    (db : Db) (d : ℕ) (slot : ActivityScheduleSlot) (b : Booking)
    → In b db.bookings
    → is_active_for_capacity b ≡ true
    → b.columns "active_travel_date" ≡ date d
    → b.columns "schedule_slot" ≡ ref slot.id
    → IsSplit db b
    → ¬ In b (get_slot_bookings db d slot) × ¬ In b (unscheduled_bookings db d)
unfolding get_slot_bookings unscheduled_bookings
day_view_loses db d slot b stored active on at split = (
  (λ m.
      not_counted db d slot b (split-excluded db b split)
        (In-filter (counts_for_slot db d slot) b db.bookings m).1),
  (λ m.
      not_unscheduled db d b slot.id at (split-settled db b split)
        (In-filter (is_unscheduled db d) b db.bookings m).1),
)
