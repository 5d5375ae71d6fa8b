-- ===== src/Bookings/Internal/Counted.antt =====
-- One more booking in a slot takes its travelers off what remains.
use ticketmirror.Base.{
  ℕ, ◌+◌, ◌≡◌, refl, ap, ◌∙◌, inl, inr, Bool, true, false, List, [], ◌∷◌, ◌++◌, In, filter,
  sum_by-append, arith, if◌then◌else◌, Bool-cases,
}
use ticketmirror.Base.Int.{pos, ◌-ℤ◌, int_laws}
use ticketmirror.Data.{Db, Booking, Status, ActivityScheduleSlot}
use ticketmirror.Bookings.Schedules.{schedule_exceptions}
use ticketmirror.Bookings.Capacity.{
  is_confirmed_capacity, is_pending_capacity, is_manual_review_capacity, status_in, pax, sum_pax,
  excluded_by_reviews, counts_for_slot, get_slot_bookings, blocked_pax_for_slot,
  get_capacity_for_slot_date,
}

module _ {A : Type 0} where
  filter-append : (p : A → Bool) (xs ys : List A) → filter p (xs ++ ys) ≡ filter p xs ++ filter p ys
  filter-append p [] ys = refl
  filter-append p (x ∷ xs) ys = elim (Bool-cases (p x)) [
    | inl e ↦ rw e (ap (λ zs. x ∷ zs) (filter-append p xs ys))
    | inr e ↦ rw e (filter-append p xs ys)
  ]

  filter_cong :
      (p q : A → Bool) (xs : List A) → ((x : A) → In x xs → p x ≡ q x) → filter p xs ≡ filter q xs
  filter_cong p q [] h = refl
  filter_cong p q (x ∷ xs) h = rw (h x (inl refl), filter_cong p q xs (λ y i. h y (inr i))) refl

sum_pax-append :
    (statuses : Status → Bool) (bs : List Booking) (b : Booking)
    → sum_pax statuses (bs ++ b ∷ [])
      ≡ sum_pax statuses bs + (if status_in statuses b then pax b else 0)
unfolding sum_pax
sum_pax-append statuses bs b = rw (filter-append (status_in statuses) bs (b ∷ [])) (
    rw (sum_by-append pax (filter (status_in statuses) bs) (filter (status_in statuses) (b ∷ [])))
      (elim (Bool-cases (status_in statuses b)) [ inl e ↦ rw e (omega arith) | inr e ↦ rw e refl ]))

-- What a confirmed booking of the slot that is added to the database brings with it.
pub record IsAdded (db db' : Db) (b : Booking) (slot : ActivityScheduleSlot) (service_date : ℕ)
    : Type 0 where
  pub bookings : db'.bookings ≡ db.bookings ++ b ∷ []
  pub exceptions : db'.exceptions ≡ db.exceptions
  pub reviews :
      (c : Booking) → In c db.bookings → excluded_by_reviews db' c ≡ excluded_by_reviews db c
  pub counts : counts_for_slot db' service_date slot b ≡ true
  pub sure : status_in is_confirmed_capacity b ≡ true
  pub not_asked : status_in is_pending_capacity b ≡ false
  pub not_review : status_in is_manual_review_capacity b ≡ false

module _ (db db' : Db) (b : Booking) (slot : ActivityScheduleSlot) (service_date : ℕ)
    (h : IsAdded db db' b slot service_date) where
  same_counts :
      (c : Booking)
      → In c db.bookings
      → counts_for_slot db' service_date slot c ≡ counts_for_slot db service_date slot c
  unfolding counts_for_slot
  same_counts c i = rw (h.reviews c i) refl

  added_bookings :
      get_slot_bookings db' service_date slot ≡ get_slot_bookings db service_date slot ++ b ∷ []
  unfolding get_slot_bookings
  added_bookings = rw h.bookings (
      filter-append (counts_for_slot db' service_date slot) db.bookings (b ∷ [])
      ∙ rw
          (filter_cong (counts_for_slot db' service_date slot)
            (counts_for_slot db service_date slot) db.bookings same_counts)
          (rw h.counts refl))

  same_blocked :
      blocked_pax_for_slot db' slot service_date ≡ blocked_pax_for_slot db slot service_date
  unfolding blocked_pax_for_slot schedule_exceptions
  same_blocked = rw h.exceptions refl

  pub remaining-added :
      (get_capacity_for_slot_date db' slot service_date).remaining
      ≡ (get_capacity_for_slot_date db slot service_date).remaining -ℤ pos (pax b)
  unfolding get_capacity_for_slot_date
  remaining-added =
      let bs = get_slot_bookings db service_date slot in
      let s : sum_pax is_confirmed_capacity (bs ++ b ∷ [])
          ≡ sum_pax is_confirmed_capacity bs + pax b =
        sum_pax-append is_confirmed_capacity bs b ∙ rw h.sure refl in
      let q : sum_pax is_pending_capacity (bs ++ b ∷ []) ≡ sum_pax is_pending_capacity bs + 0 =
        sum_pax-append is_pending_capacity bs b ∙ rw h.not_asked refl in
      let r : sum_pax is_manual_review_capacity (bs ++ b ∷ [])
          ≡ sum_pax is_manual_review_capacity bs + 0 =
        sum_pax-append is_manual_review_capacity bs b ∙ rw h.not_review refl in
      rw (added_bookings, same_blocked)
        (rw (s, q, r)
          (moved slot.capacity (sum_pax is_confirmed_capacity bs) (sum_pax is_pending_capacity bs)
            (sum_pax is_manual_review_capacity bs) (blocked_pax_for_slot db slot service_date)
            (pax b)))
    where
      moved :
          (c x y z t n : ℕ)
          → pos c -ℤ pos (x + n + (y + 0) + (z + 0)) -ℤ pos t
            ≡ pos c -ℤ pos (x + y + z) -ℤ pos t -ℤ pos n
      moved c x y z t n = omega int_laws
