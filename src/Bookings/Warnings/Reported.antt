-- ===== src/Bookings/Warnings/Reported.antt =====
-- An overbooked slot is always reported, and only an overbooked one.
use ticketmirror.Base.{
  ℕ, ◌≡◌, refl, ◌∙◌, inl, inr, Bool, true, false, Option, none, some, Bool-cases,
}
use ticketmirror.Base.Int.{is_negative}
use ticketmirror.Base.Result.{ok}
use ticketmirror.Data.{Db, Booking, ActivityScheduleSlot, BookingEvent}
use ticketmirror.Bookings.Capacity.{Snapshot, get_capacity_for_slot_date}
use ticketmirror.Bookings.Queue.OneOpen.{IsQueue, count, create_review_item-IsStored}
use ticketmirror.Bookings.Warnings.{
  warning_key, details_of, has_open_warning, place_of, warning_event, add_warning_event,
  add_warning, warn_if_negative, warn_at, warn_if_capacity_overbooked,
}

-- The booking has a slot and a date, and the slot is overbooked on it.
abbrev pub is_overbooked_at : Db → Option (ActivityScheduleSlot × ℕ) → Bool
is_overbooked_at db none = false
is_overbooked_at db (some (slot, service_date)) =
    is_negative (get_capacity_for_slot_date db slot service_date).remaining

-- What the warning gives: its answer, and the database `r.1`.
pub record IsWarned (db : Db) (b : Booking) (raw : Option ℕ) (overbooked : Bool) (r : Bool × Db)
    : Type 0 where
  pub answer : r.0 ≡ overbooked
  pub silent : r.0 ≡ false → r.1 ≡ db
  pub reported : r.0 ≡ true → count (warning_key b raw) r.1.reviews ≡ 1
  pub queue : IsQueue r.1.reviews
  pub bookings : r.1.bookings ≡ db.bookings
  pub raw_emails : r.1.raw_emails ≡ db.raw_emails

event_bookings :
    (db : Db) (had : Bool) (e : BookingEvent)
    → ((add_warning_event db had e).bookings ≡ db.bookings)
      × ((add_warning_event db had e).reviews ≡ db.reviews)
      × ((add_warning_event db had e).raw_emails ≡ db.raw_emails)
unfolding add_warning_event
event_bookings db true e = (refl, refl, refl)
event_bookings db false e = (refl, refl, refl)

module _ (db : Db) (b : Booking) (raw : Option ℕ) (q : IsQueue db.reviews) where
  add_warning-once :
      (s : Snapshot)
      → (db' : Db) × (add_warning db b raw s ≡ ok (true, db'))
        × (count (warning_key b raw) db'.reviews ≡ 1)
        × IsQueue db'.reviews
        × (db'.bookings ≡ db.bookings)
        × (db'.raw_emails ≡ db.raw_emails)
  unfolding add_warning
  add_warning-once s =
      let stored =
        create_review_item-IsStored db (warning_key b raw) "Capacity overbooked" (details_of b s)
          q in
      let (same_bookings, same_reviews, same_emails) =
        event_bookings stored.db (has_open_warning db b) (warning_event b raw s) in
      (
        add_warning_event stored.db (has_open_warning db b) (warning_event b raw s),
        rw stored.stored refl,
        rw same_reviews stored.once,
        rw same_reviews stored.queue,
        same_bookings ∙ stored.bookings,
        same_emails ∙ stored.raw_emails,
      )

  warn_if_negative-IsWarned :
      (s : Snapshot)
      → (r : Bool × Db) × (warn_if_negative db b raw s ≡ ok r)
        × IsWarned db b raw (is_negative s.remaining) r
  unfolding warn_if_negative
  warn_if_negative-IsWarned s = elim (Bool-cases (is_negative s.remaining)) [
    | inr e ↦ (
      (false, db),
      rw e refl,
      record {
        answer = rw e refl;
        silent = λ _. refl;
        reported = λ h. cc;
        queue = q;
        bookings = refl;
        raw_emails = refl;
      },
    )
    | inl e ↦
        let (db', done, once, queue, same, emails) = add_warning-once s in
        (
          (true, db'),
          rw e done,
          record {
            answer = rw e refl;
            silent = λ h. cc;
            reported = λ _. once;
            queue = queue;
            bookings = same;
            raw_emails = emails;
          },
        )
  ]

  warn_at-IsWarned :
      (o : Option (ActivityScheduleSlot × ℕ))
      → (r : Bool × Db) × (warn_at db b raw o ≡ ok r) × IsWarned db b raw (is_overbooked_at db o) r
  unfolding warn_at
  warn_at-IsWarned none = (
    (false, db),
    refl,
    record {
      answer = refl;
      silent = λ _. refl;
      reported = λ h. cc;
      queue = q;
      bookings = refl;
      raw_emails = refl;
    },
  )
  warn_at-IsWarned (some (slot, service_date)) =
      warn_if_negative-IsWarned (get_capacity_for_slot_date db slot service_date)

  -- On a well-formed queue the check of a booking's slot succeeds. Its answer is whether the booking
  -- has a slot and a date at which less than nothing remains; then one open review of that email and
  -- booking says so, otherwise nothing changes. No booking changes, and the queue stays well formed.
  pub warn_if_capacity_overbooked-IsWarned :
      (r : Bool × Db) × (warn_if_capacity_overbooked db b raw ≡ ok r)
      × IsWarned db b raw (is_overbooked_at db (place_of db b)) r
  unfolding warn_if_capacity_overbooked
  warn_if_capacity_overbooked-IsWarned = warn_at-IsWarned (place_of db b)
