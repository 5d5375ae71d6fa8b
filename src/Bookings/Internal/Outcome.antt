-- ===== src/Bookings/Internal/Outcome.antt =====
-- What a permitted internal booking leaves behind.
use ticketmirror.Base.{
  ℕ, ◌+◌, ◌≤◌, ◌≡◌, refl, ap, ◌∙◌, ◌⊎◌, inl, inr, true, false, not, ◌&&◌, some, [], ◌∷◌, ◌++◌, all,
  find?, ltb, str_eq, arith, Bool-cases, ==_iff,
}
use ticketmirror.Base.Int.{is_negative}
use ticketmirror.Base.Result.{ok}
use ticketmirror.Data.{Db, Booking, ActivityScheduleSlot, ActivitySchedule, TourActivity, opt_eq}
use ticketmirror.Bookings.Capacity.{
  get_capacity_for_slot_date, excluded_by_reviews, counts_for_slot, is_in_slot, travels_on,
  status_in, did_not_come, pax, is_confirmed_capacity, is_pending_capacity,
  is_manual_review_capacity,
}
use ticketmirror.Bookings.Queue.OneOpen.{IsQueue, count}
use ticketmirror.Bookings.Overrides.{set_column}
use ticketmirror.Bookings.Reviews.{has_text}
use ticketmirror.Bookings.Rows.{new_booking, set_columns, create_row}
use ticketmirror.Bookings.Internal.{
  Request, slot_row, schedule_row, activity_row, direct_or_new, get_or_create_direct,
  internal_values, internal_booking, overbooked_key, internal_event, travelers_of,
  projected_remaining, book_slot, create_internal_booking,
}
use ticketmirror.Bookings.Internal.Counted.{IsAdded, remaining-added}
use ticketmirror.Bookings.Internal.Fresh.{IsFresh, all-In, no_identity}
use ticketmirror.Bookings.Internal.Refusals.{is_permitted, check_request_ok}
use ticketmirror.Bookings.Internal.Reviewed.{direct_or_new-IsDirect, review_overbooking-IsReviewed}

-- The new booking counts in its slot, as confirmed.
internal_booking-counts :
    (db : Db) (r : Request) (slot : ActivityScheduleSlot) (a : TourActivity) (n id provider : ℕ)
    → excluded_by_reviews db (internal_booking r slot a n id provider) ≡ false
    → counts_for_slot db r.service_date slot (internal_booking r slot a n id provider) ≡ true
unfolding counts_for_slot internal_booking internal_values new_booking set_columns set_column
    is_in_slot travels_on status_in did_not_come
internal_booking-counts db r slot a n id provider h =
    rw ((==_iff slot.id slot.id).1 refl, (==_iff r.service_date r.service_date).1 refl, h) refl

internal_booking-status :
    (r : Request) (slot : ActivityScheduleSlot) (a : TourActivity) (n id provider : ℕ)
    → (status_in is_confirmed_capacity (internal_booking r slot a n id provider) ≡ true)
      × (status_in is_pending_capacity (internal_booking r slot a n id provider) ≡ false)
      × (status_in is_manual_review_capacity (internal_booking r slot a n id provider) ≡ false)
      × (pax (internal_booking r slot a n id provider) ≡ n)
unfolding internal_booking internal_values new_booking set_columns set_column status_in
internal_booking-status r slot a n id provider = (refl, refl, refl, refl)

-- What the booking gives, in the database `p.1`.
pub record IsBooked (db : Db) (r : Request) (slot : ActivityScheduleSlot) (p : Booking × Db)
    : Type 0 where
  pub stored : p.1.bookings ≡ db.bookings ++ p.0 ∷ []
  -- The slot has what was projected.
  pub remaining :
      (get_capacity_for_slot_date p.1 slot r.service_date).remaining ≡ projected_remaining db r slot
  -- It is not overbooked, unless an admin said so.
  pub within :
      ((r.allow_overcapacity && (r.admin && has_text r.override_reason)) ≡ true)
      ⊎ (is_negative (get_capacity_for_slot_date p.1 slot r.service_date).remaining ≡ false)
  -- An overbooking is left as one open review of the booking.
  pub reviewed :
      (is_negative (get_capacity_for_slot_date p.1 slot r.service_date).remaining ≡ false)
      ⊎ (count (overbooked_key p.0.id) p.1.reviews ≡ 1)
  pub audited :
      p.1.events
      ≡ db.events ++ internal_event r p.0.id (travelers_of r) (projected_remaining db r slot) ∷ []
  pub queue : IsQueue p.1.reviews

permitted-within :
    (db : Db) (r : Request) (slot : ActivityScheduleSlot)
    → is_permitted db r slot ≡ true
    → ((r.allow_overcapacity && (r.admin && has_text r.override_reason)) ≡ true)
      ⊎ (is_negative (projected_remaining db r slot) ≡ false)
unfolding projected_remaining
permitted-within db r slot h = elim (Bool-cases r.allow_overcapacity) [
  | inl a ↦ inl (rw a (rw a at h))
  | inr a ↦ elim (Bool-cases (is_negative (projected_remaining db r slot))) [
    | inl n ↦ let q : false ≡ true = rw (a, n) at h in cc
    | inr n ↦ inr n
  ]
]

below-ne :
    (id n : ℕ) (c : Booking) → n ≤ id → ltb c.id n ≡ true → opt_eq (some id) (some c.id) ≡ false
below-ne id n c le h = ground arith

internal_booking-identity :
    (r : Request) (slot : ActivityScheduleSlot) (a : TourActivity) (n id provider : ℕ)
    → ((internal_booking r slot a n id provider).id ≡ id)
      × ((internal_booking r slot a n id provider).provider_booking_reference ≡ r.reference)
unfolding internal_booking internal_values new_booking set_columns set_column
internal_booking-identity r slot a n id provider = (refl, refl)

same_excluded :
    (db db' : Db) (c : Booking)
    → db'.reviews ≡ db.reviews
    → excluded_by_reviews db' c ≡ excluded_by_reviews db c
unfolding excluded_by_reviews
same_excluded db db' c e = rw e refl

created :
    (db : Db) (b : Booking)
    → all (λ c. not (str_eq c.provider_booking_reference b.provider_booking_reference)) db.bookings
      ≡ true
    → create_row db b
      ≡ ok (record db { bookings = db.bookings ++ b ∷ []; next_id = db.next_id + 1 })
unfolding create_row
created db b h = rw (no_identity b.provider b.provider_booking_reference db.bookings h) refl

module _ (db : Db) (r : Request) (slot : ActivityScheduleSlot) (activity : TourActivity)
    (fresh : IsFresh db) (queue : IsQueue db.reviews)
    (unused : all (λ b. not (str_eq b.provider_booking_reference r.reference)) db.bookings ≡ true)
    (permitted : is_permitted db r slot ≡ true) where
  pub book_slot-IsBooked :
      (q : Booking × Db) × (book_slot db r slot activity ≡ ok q) × IsBooked db r slot q
  unfolding book_slot get_or_create_direct projected_remaining
  book_slot-IsBooked =
      let n = travelers_of r in
      let projected = projected_remaining db r slot in
      let o = find? (λ p. str_eq p.code "direct") db.providers in
      let d = direct_or_new-IsDirect db o in
      let db1 = (direct_or_new db o).1 in
      let provider = (direct_or_new db o).0 in
      let b = internal_booking r slot activity n db1.next_id provider.id in
      let (same_id, same_reference) =
        internal_booking-identity r slot activity n db1.next_id provider.id in
      let db2 : Db = record db1 { bookings = db1.bookings ++ b ∷ []; next_id = db1.next_id + 1 } in
      let made : create_row db1 b ≡ ok db2 =
        created db1 b (rw (d.bookings, same_reference) unused) in
      let v =
        review_overbooking-IsReviewed db2 b.id db.next_id projected r.override_reason
          (rw same_id d.next_id) (rw d.reviews fresh.reviews) (rw d.reviews queue) in
      let db3 : Db = record (v.db') {
        events = v.db'.events ++ internal_event r b.id n projected ∷ [];
      } in
      let (sure, not_asked, not_review, count_is) =
        internal_booking-status r slot activity n db1.next_id provider.id in
      let added : IsAdded db db3 b slot r.service_date = record {
        bookings = v.bookings ∙ ap (λ x. x ++ b ∷ []) d.bookings;
        exceptions = v.exceptions ∙ d.exceptions;
        reviews = λ c i.
            same_excluded v.db' db3 c refl
            ∙ (v.others c (
                  below-ne b.id db.next_id c (rw same_id d.next_id)
                    (all-In (λ x. ltb x.id db.next_id) c db.bookings fresh.bookings i))
                ∙ same_excluded db db2 c d.reviews);
        counts =
            internal_booking-counts db3 r slot activity n db1.next_id provider.id
              (same_excluded v.db' db3 b refl ∙ v.own b refl);
        sure = sure;
        not_asked = not_asked;
        not_review = not_review;
      } in
      let left : (get_capacity_for_slot_date db3 slot r.service_date).remaining ≡ projected =
        remaining-added db db3 b slot r.service_date added ∙ rw count_is refl in
      (
        (b, db3),
        rw made (rw v.succeeds refl),
        record {
          stored = added.bookings;
          remaining = left;
          within = rw left (permitted-within db r slot permitted);
          reviewed = rw left v.reported;
          audited = ap (λ x. x ++ internal_event r b.id n projected ∷ []) (v.events ∙ d.events);
          queue = v.queue;
        },
      )

-- A permitted internal booking of an existing slot, under a reference that is not in use, succeeds.
-- It adds one booking and one audit event; the slot has then exactly what was projected, which is
-- less than nothing only by an admin's reasoned override, and then one open review says so. The
-- queue stays well formed.
pub create_internal_booking-IsBooked :
    (db : Db) (r : Request) (slot : ActivityScheduleSlot) (schedule : ActivitySchedule)
    (activity : TourActivity)
    → IsFresh db
    → IsQueue db.reviews
    → slot_row db r.schedule_slot ≡ some slot
    → schedule_row db slot.schedule ≡ some schedule
    → activity_row db schedule.activity ≡ some activity
    → all (λ b. not (str_eq b.provider_booking_reference r.reference)) db.bookings ≡ true
    → is_permitted db r slot ≡ true
    → (q : Booking × Db) × (create_internal_booking db r ≡ ok q) × IsBooked db r slot q
unfolding create_internal_booking
create_internal_booking-IsBooked db r slot schedule activity fresh queue e f g unused permitted =
    let (q, done, booked) = book_slot-IsBooked db r slot activity fresh queue unused permitted in
    (q, rw e (rw (check_request_ok db r slot permitted) (rw f (rw g done))), booked)
