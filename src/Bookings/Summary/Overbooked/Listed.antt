-- ===== src/Bookings/Summary/Overbooked/Listed.antt =====
-- An overbooked slot is listed on its date, and only overbooked rows are.
use ticketmirror.Base.{
  ℕ, zero, suc, ◌+◌, ◌-◌, ◌≤◌, ◌<◌, ◌≡◌, refl, true, Option, none, some, List, [], ◌∷◌, ◌++◌,
  filter, In, In-filter, filter-In, ◌⊎◌, inl, inr, ◌↔◌, arith, All, Bool-cases, ◌==◌, ==_iff,
}
use ticketmirror.Base.Membership.{In-split, In-left, In-right}
use ticketmirror.Data.{Db, Booking, ActivityScheduleSlot}
use ticketmirror.Bookings.Capacity.{get_slot_bookings, get_capacity_for_slot_date}
use ticketmirror.Bookings.Capacity.Counting.{HasStatus, active_pax_lem}
use ticketmirror.Bookings.Summary.{CapacityRow, slot_row}
use ticketmirror.Bookings.Summary.Complete.{get_daily_capacity_summary-IsSummary}
use ticketmirror.Bookings.Summary.Day.{get_daily_capacity_summary}
use ticketmirror.Bookings.Summary.Overbooked.{
  dates_from, date_range, is_overbooked, overbooked_on, overbooked_capacity_rows,
}

In-dates_from : (d n start : ℕ) → In d (dates_from n start) ↔ ((start ≤ d) × (d < start + n))
unfolding dates_from
In-dates_from d zero start = ((λ i. absurd i), (λ h. absurd (omega (arith, h.0, h.1))))
In-dates_from d (suc n) start =
    let ih = In-dates_from d n (suc start) in ((λ i. to i ih.0), (λ h. from h ih.1))
  where
    to :
        (d ≡ start) ⊎ In d (dates_from n (suc start))
        → (In d (dates_from n (suc start)) → (suc start ≤ d) × (d < suc start + n))
        → (start ≤ d) × (d < start + suc n)
    to (inl e) ih = (omega (arith, e), omega (arith, e))
    to (inr i) ih = let h = ih i in (omega (arith, h.0), omega (arith, h.1))

    from :
        (start ≤ d) × (d < start + suc n)
        → ((suc start ≤ d) × (d < suc start + n) → In d (dates_from n (suc start)))
        → (d ≡ start) ⊎ In d (dates_from n (suc start))
    from h ih = elim (Bool-cases (d == start)) [
      | inl t ↦ inl ((==_iff d start).0 t)
      | inr f ↦ inr (ih (ground arith))
    ]

In-overbooked_on :
    (db : Db) (row : CapacityRow) (dates : List ℕ)
    → In row (overbooked_on db dates) ↔ (
        (d : ℕ) × In d dates
        × In row (get_daily_capacity_summary db d)
        × (is_overbooked row ≡ true))
unfolding overbooked_on
In-overbooked_on db row [] = ((λ i. absurd i), (λ h. absurd h.1))
In-overbooked_on db row (d ∷ dates) = (
  (λ i.
      elim (In-split row (filter is_overbooked (get_daily_capacity_summary db d))
        (overbooked_on db dates) i) [
          | inl j ↦
              let (k, t) = In-filter is_overbooked row (get_daily_capacity_summary db d) j in
              (d, inl refl, k, t)
          | inr j ↦ let (e, k, r, t) = (In-overbooked_on db row dates).0 j in (e, inr k, r, t)
        ]),
  (λ (e, i, r, t). back e i r t (λ j. (In-overbooked_on db row dates).1 (e, j, r, t))),
)
  where
    back :
        (e : ℕ)
        → In e (d ∷ dates)
        → In row (get_daily_capacity_summary db e)
        → is_overbooked row ≡ true
        → (In e dates → In row (overbooked_on db dates))
        → In row (filter is_overbooked (get_daily_capacity_summary db d) ++ overbooked_on db dates)
    back e (inl q) r t ih =
        In-left row _ _
          (filter-In is_overbooked row (get_daily_capacity_summary db d) (rw (← q) r) t)
    back e (inr j) r t ih = In-right row _ _ (ih j)

-- A date of the range: with one end the range is that date, with none it is empty.
abbrev pub IsInRange : Option ℕ → Option ℕ → ℕ → Type 0
IsInRange none none d = ⊥
IsInRange (some from) none d = d ≡ from
IsInRange none (some to) d = d ≡ to
IsInRange (some from) (some to) d = (from ≤ d) × (d ≤ to)

In-one_date : (d start : ℕ) → In d (dates_from (suc start - start) start) ↔ (d ≡ start)
In-one_date d start =
    let one : suc start - start ≡ 1 = omega arith in
    rw one (
      (λ i. let h = (In-dates_from d 1 start).0 i in omega (arith, h.0, h.1)),
      (λ e. (In-dates_from d 1 start).1 (omega (arith, e), omega (arith, e))),
    )

In-date_range : (d : ℕ) (from to : Option ℕ) → In d (date_range from to) ↔ IsInRange from to d
unfolding date_range
In-date_range d none none = ((λ i. i), (λ i. i))
In-date_range d (some from) none = In-one_date d from
In-date_range d none (some to) = In-one_date d to
In-date_range d (some from) (some to) =
    let r = In-dates_from d (suc to - from) from in
    (
      (λ i. let h = r.0 i in (h.0, omega (arith, h.0, h.1))),
      (λ h. r.1 (h.0, omega (arith, h.0, h.1))),
    )

slot_row-is_overbooked :
    (db : Db) (d : ℕ) (slot : ActivityScheduleSlot)
    → All HasStatus db.bookings
    → slot.capacity
      < (get_capacity_for_slot_date db slot d).active_pax
        + (get_capacity_for_slot_date db slot d).blocked_pax
    → is_overbooked (slot_row db d slot) ≡ true
unfolding slot_row
slot_row-is_overbooked db d slot statuses h = (active_pax_lem db slot d statuses).1.1 h

-- What the overbooked rows of a range are.
pub record IsListed (db : Db) (from to : Option ℕ) (rows : List CapacityRow) : Type 0 where
  pub exactly :
      (row : CapacityRow)
      → In row rows ↔ (
          (d : ℕ) × IsInRange from to d
          × In row (get_daily_capacity_summary db d)
          × (is_overbooked row ≡ true))
  pub found :
      (d : ℕ) (slot : ActivityScheduleSlot) (b : Booking)
      → IsInRange from to d
      → In slot db.slots
      → In b (get_slot_bookings db d slot)
      → slot.capacity
        < (get_capacity_for_slot_date db slot d).active_pax
          + (get_capacity_for_slot_date db slot d).blocked_pax
      → In (slot_row db d slot) rows

-- The overbooked rows are exactly the rows of the summaries of the dates in the range of which less than
-- nothing remains. Where every booking has a status and an id names one slot, every slot with a counted
-- booking on a date of the range, and with more travelers and blocked places than its capacity, is among
-- them.
pub overbooked_capacity_rows-IsListed :
    (db : Db) (from to : Option ℕ)
    → All HasStatus db.bookings
    → ((s t : ActivityScheduleSlot) → In s db.slots → In t db.slots → s.id ≡ t.id → s ≡ t)
    → IsListed db from to (overbooked_capacity_rows db from to)
unfolding overbooked_capacity_rows
overbooked_capacity_rows-IsListed db from to statuses one_row = record {
  exactly = λ row. (
    (λ i.
        let (d, j, r, t) = (In-overbooked_on db row (date_range from to)).0 i in
        (d, (In-date_range d from to).0 j, r, t)),
    (λ (d, j, r, t).
        (In-overbooked_on db row (date_range from to)).1 (d, (In-date_range d from to).1 j, r, t)),
  );
  found = λ d slot b j i k over. (In-overbooked_on db (slot_row db d slot) (date_range from to)).1 (
    d,
    (In-date_range d from to).1 j,
    (get_daily_capacity_summary-IsSummary db d one_row).booked slot b i k,
    slot_row-is_overbooked db d slot statuses over,
  );
}
