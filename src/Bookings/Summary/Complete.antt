-- ===== src/Bookings/Summary/Complete.antt =====
-- What the rows of a day are, and that they leave out no booked slot.
use ticketmirror.Base.{
  ℕ, ◌≡◌, refl, sym, ◌∙◌, ap, Bool, true, false, List, [], ◌∷◌, ◌++◌, map, leb, ◌==◌, ==_iff,
  filter, any, In, In-filter, filter-In, inl, inr, arith, Bool-cases,
}
use ticketmirror.Base.Membership.{In-split, In-left, In-right, any-In, In-any, map-In}
use ticketmirror.Base.Order.{lex, lex_total, lex_trans}
use ticketmirror.Base.Sort.{In-sort, IsSorted, IsOrder, sort-IsSorted}
use ticketmirror.Base.TextOrder.{text_lex_total, text_lex_trans}
use ticketmirror.Data.{
  Db, Booking, ActivitySchedule, ActivityScheduleSlot, ActivityScheduleException,
}
use ticketmirror.Bookings.Capacity.{get_slot_bookings, counts_for_slot, unscheduled_bookings}
use ticketmirror.Bookings.Summary.{
  CapacityRow, slot_row, extra_row, extra_slot_rows, unscheduled_row,
}
use ticketmirror.Bookings.Summary.Day.{
  Chosen, schedule_rows, chosen_rows, active_schedules, books_slot, has_slot, only_booked,
  booked_rows, row_if_any, unscheduled_rows, day_rows, SortKey, key_le, capacity_row_sort_key,
  row_le, get_daily_capacity_summary,
}
use ticketmirror.Ingestion.Identity.Promotion.{In-map}

key_le_total : (k l : SortKey) → key_le k l ≡ false → key_le l k ≡ true
unfolding key_le
key_le_total k l h =
    text_lex_total k.name l.name (lex k.start_time l.start_time (leb k.row_id l.row_id))
      (lex l.start_time k.start_time (leb l.row_id k.row_id))
      (lex_total k.start_time l.start_time (leb k.row_id l.row_id) (leb l.row_id k.row_id)
        (λ e. ground arith))
      h

key_le_trans : (k l m : SortKey) → key_le k l ≡ true → key_le l m ≡ true → key_le k m ≡ true
unfolding key_le
key_le_trans k l m =
    text_lex_trans k.name l.name m.name (lex k.start_time l.start_time (leb k.row_id l.row_id))
      (lex l.start_time m.start_time (leb l.row_id m.row_id))
      (lex k.start_time m.start_time (leb k.row_id m.row_id))
      (lex_trans k.start_time l.start_time m.start_time (leb k.row_id l.row_id)
        (leb l.row_id m.row_id) (leb k.row_id m.row_id) (λ e f. ground arith))

pub row_le-IsOrder : IsOrder row_le
unfolding row_le
row_le-IsOrder = record {
  total = λ x y. key_le_total (capacity_row_sort_key x) (capacity_row_sort_key y);
  trans = λ x y z.
      key_le_trans (capacity_row_sort_key x) (capacity_row_sort_key y) (capacity_row_sort_key z);
}

-- What a row of a day may be.
pub data IsRow (db : Db) (d : ℕ) (row : CapacityRow) : Type 0 where
  of_slot :
      (slot : ActivityScheduleSlot) → In slot db.slots → row ≡ slot_row db d slot → IsRow db d row
  of_extra :
      (s : ActivitySchedule) (e : ActivityScheduleException)
      → row ≡ extra_row db s d e
      → IsRow db d row
  of_unscheduled :
      (b : Booking) → In b (unscheduled_bookings db d) → row ≡ unscheduled_row db d → IsRow db d row

module _ (db : Db) (d : ℕ) where
  slot_rows-IsRow :
      (p : ActivityScheduleSlot → Bool) (row : CapacityRow)
      → In row (map (slot_row db d) (filter p db.slots))
      → IsRow db d row
  slot_rows-IsRow p row i =
      let (slot, j, e) = In-map (slot_row db d) row (filter p db.slots) i in
      of_slot slot (In-filter p slot db.slots j).0 e

  extra_slot_rows-IsRow :
      (s : ActivitySchedule) (row : CapacityRow) → In row (extra_slot_rows db s d) → IsRow db d row
  unfolding extra_slot_rows
  extra_slot_rows-IsRow s row i =
      let (e, _, q) = In-map (extra_row db s d) row _ i in of_extra s e q

  chosen_rows-IsRow :
      (chosen : Chosen) (row : CapacityRow) → In row (chosen_rows db d chosen) → IsRow db d row
  unfolding chosen_rows schedule_rows
  chosen_rows-IsRow [] row i = absurd i
  chosen_rows-IsRow ((a, s) ∷ chosen) row i =
      elim (In-split row (schedule_rows db d s) (chosen_rows db d chosen) i) [
        | inr j ↦ chosen_rows-IsRow chosen row j
        | inl j ↦ elim (In-split row (map (slot_row db d) _) (extra_slot_rows db s d) j) [
          | inl k ↦ slot_rows-IsRow _ row k
          | inr k ↦ extra_slot_rows-IsRow s row k
        ]
      ]

  unscheduled_rows-IsRow : (row : CapacityRow) → In row (unscheduled_rows db d) → IsRow db d row
  unfolding unscheduled_rows
  unscheduled_rows-IsRow row = found (unscheduled_bookings db d) refl
    where
      found :
          (bs : List Booking)
          → unscheduled_bookings db d ≡ bs
          → In row (row_if_any (unscheduled_row db d) bs)
          → IsRow db d row
      found [] e i = absurd i
      found (b ∷ bs) e (inl q) = of_unscheduled b (rw e (inl refl)) q
      found (b ∷ bs) e (inr j) = absurd j

  day_rows-IsRow : (row : CapacityRow) → In row (day_rows db d) → IsRow db d row
  unfolding day_rows booked_rows
  day_rows-IsRow row i =
      let rows = chosen_rows db d (active_schedules db d) in
      elim (In-split row rows (booked_rows db d rows ++ unscheduled_rows db d) i) [
        | inl j ↦ chosen_rows-IsRow (active_schedules db d) row j
        | inr j ↦ elim (In-split row (booked_rows db d rows) (unscheduled_rows db d) j) [
          | inl k ↦ slot_rows-IsRow (only_booked db d rows) row k
          | inr k ↦ unscheduled_rows-IsRow row k
        ]
      ]

  counted-books :
      (slot : ActivityScheduleSlot) (b : Booking)
      → counts_for_slot db d slot b ≡ true
      → books_slot db d slot b ≡ true
  unfolding counts_for_slot books_slot
  counted-books slot b h = ground arith

  -- A row whose slot has an id is the row of that slot.
  row_of_slot :
      (one_row : (s t : ActivityScheduleSlot) → In s db.slots → In t db.slots → s.id ≡ t.id → s ≡ t)
      (slot : ActivityScheduleSlot) (row : CapacityRow)
      → In slot db.slots
      → IsRow db d row
      → has_slot slot.id row ≡ true
      → slot_row db d slot ≡ row
  unfolding slot_row extra_row unscheduled_row
  row_of_slot one_row slot row i (of_slot s j e) h =
      let t : (s.id == slot.id) ≡ true = rw e at h in
      let q : s ≡ slot = one_row s slot j i ((==_iff s.id slot.id).0 t) in
      sym (e ∙ ap (slot_row db d) q)
  row_of_slot one_row slot row i (of_extra s x e) h = let q : false ≡ true = rw e at h in cc
  row_of_slot one_row slot row i (of_unscheduled b j e) h = let q : false ≡ true = rw e at h in cc

  booked-In :
      (one_row : (s t : ActivityScheduleSlot) → In s db.slots → In t db.slots → s.id ≡ t.id → s ≡ t)
      (slot : ActivityScheduleSlot) (b : Booking)
      → In slot db.slots
      → In b (get_slot_bookings db d slot)
      → In (slot_row db d slot) (day_rows db d)
  unfolding get_slot_bookings day_rows booked_rows only_booked
  booked-In one_row slot b i j =
      let rows = chosen_rows db d (active_schedules db d) in
      let (k, counted) = In-filter (counts_for_slot db d slot) b db.bookings j in
      let books = any-In (books_slot db d slot) b db.bookings k (counted-books slot b counted) in
      elim (Bool-cases (any (has_slot slot.id) rows)) [
        | inl t ↦
            let (row, l, h) = In-any (has_slot slot.id) rows t in
            rw (row_of_slot one_row slot row i (chosen_rows-IsRow (active_schedules db d) row l) h)
              (In-left row rows _ l)
        | inr f ↦ In-right (slot_row db d slot) rows _ (
            In-left (slot_row db d slot) (booked_rows db d rows) _ (
              map-In (slot_row db d) slot _
                (filter-In (only_booked db d rows) slot db.slots i (rw (books, f) refl))))
      ]

  unscheduled-In :
      (b : Booking) → In b (unscheduled_bookings db d) → In (unscheduled_row db d) (day_rows db d)
  unfolding day_rows unscheduled_rows
  unscheduled-In b i =
      let rows = chosen_rows db d (active_schedules db d) in
      In-right (unscheduled_row db d) rows _ (
        In-right (unscheduled_row db d) (booked_rows db d rows) _
          (shown (unscheduled_bookings db d) i))
    where
      shown :
          (bs : List Booking)
          → In b bs
          → In (unscheduled_row db d) (row_if_any (unscheduled_row db d) bs)
      shown [] j = absurd j
      shown (x ∷ bs) j = inl refl

-- What the summary of a day is.
pub record IsSummary (db : Db) (d : ℕ) (rows : List CapacityRow) : Type 0 where
  pub sorted : IsSorted row_le rows
  pub each : (row : CapacityRow) → In row rows → IsRow db d row
  pub booked :
      (slot : ActivityScheduleSlot) (b : Booking)
      → In slot db.slots
      → In b (get_slot_bookings db d slot)
      → In (slot_row db d slot) rows
  pub unscheduled :
      (b : Booking) → In b (unscheduled_bookings db d) → In (unscheduled_row db d) rows

-- Where an id names one slot, the summary of a day is sorted by activity, time and id. Each of its rows
-- is that of a stored slot with its capacity on that day, of an extra slot, or that of the unscheduled
-- bookings, if there are any; and there is a row for every slot that has a counted booking on that day,
-- and for the unscheduled bookings.
pub get_daily_capacity_summary-IsSummary :
    (db : Db) (d : ℕ)
    → ((s t : ActivityScheduleSlot) → In s db.slots → In t db.slots → s.id ≡ t.id → s ≡ t)
    → IsSummary db d (get_daily_capacity_summary db d)
unfolding get_daily_capacity_summary
get_daily_capacity_summary-IsSummary db d one_row = record {
  sorted = sort-IsSorted row_le row_le-IsOrder (day_rows db d);
  each = λ row i. day_rows-IsRow db d row ((In-sort row_le row (day_rows db d)).0 i);
  booked = λ slot b i j. (In-sort row_le _ (day_rows db d)).1 (booked-In db d one_row slot b i j);
  unscheduled = λ b i. (In-sort row_le _ (day_rows db d)).1 (unscheduled-In db d b i);
}
