-- ===== src/Commands/Reslot/Handled.antt =====
-- What a run of reslot_bookings changes.
use ticketmirror.Base.{
  ℕ, ◌+◌, ◌≡◌, refl, sym, ◌∙◌, ap, Bool, true, false, ◌&&◌, Option, none, some, List, [], ◌∷◌, ◌==◌,
  ==_iff, ◌⊎◌, inl, inr, arith, if◌then◌else◌, Bool-cases, In, In-filter, filter, length, map,
}
use mathlib.Core.Path.{subst}
use ticketmirror.Base.Int.{ℤ, pos_part}
use ticketmirror.Base.Membership.{map-In, In-take}
use ticketmirror.Base.Result.{Result, ok}
use ticketmirror.Base.Sort.{In-sort}
use ticketmirror.Data.{Db, Booking, as_ref, ActivityScheduleSlot, opt_eq}
use ticketmirror.Bookings.Errors.{ServiceError}
use ticketmirror.Bookings.Overrides.{is_manually_overridden}
use ticketmirror.Bookings.Queue.OneOpen.{IsQueue, IsStored, create_review_item-IsStored}
use ticketmirror.Commands.Reslot.{
  Outcome, reslotted, unchanged, no_match, skipped_manual, Reslotted, keep_slot, save_slot,
  move_slot, place_booking, reslot_booking, outcome_only, create_slot_confirmation_review,
  confirmation_key,
}
use ticketmirror.Commands.Reslot.Handle.{
  Options, Stats, count_outcome, scan_one, handle_each, queryset, handle, no_stats, limited,
  earlier, is_placed, is_since,
}

-- What handling one booking leaves.
record IsKept (db : Db) (b : Booking) (dry_run : Bool) (r : Result ServiceError Reslotted)
    : Type 0 where
  pub done : Reslotted
  pub same : r ≡ ok done
  pub dry : dry_run ≡ true → done.db ≡ db
  pub queue : IsQueue done.db.reviews
  -- The table is as it was, or a booking that nobody placed by hand was moved.
  pub moved :
      (done.db.bookings ≡ db.bookings)
      ⊎ ((slot : ActivityScheduleSlot) × (is_manually_overridden b "schedule_slot" ≡ false)
          × (done.db.bookings ≡ map (save_slot b.id slot) db.bookings))

module _ (db : Db) (b : Booking) (queue : IsQueue db.reviews) where
  outcome-IsKept : (dry_run : Bool) (kind : Outcome) → IsKept db b dry_run (outcome_only kind b db)
  outcome-IsKept dry_run kind = record {
    done = record { outcome = kind; booking = b; db = db };
    same = refl;
    dry = λ h. refl;
    queue = queue;
    moved = inl refl;
  }

  confirmed : IsStored db (confirmation_key b) (create_slot_confirmation_review db b)
  unfolding create_slot_confirmation_review
  confirmed = create_review_item-IsStored db (confirmation_key b) _ _ queue

  keep_slot-IsKept : (dry_run : Bool) → IsKept db b dry_run (keep_slot db b dry_run)
  unfolding keep_slot
  keep_slot-IsKept true = outcome-IsKept true no_match
  keep_slot-IsKept false =
      let s = confirmed in
      record {
        done = record { outcome = no_match; booking = b; db = s.db };
        same = rw s.stored refl;
        dry = λ h. cc;
        queue = s.queue;
        moved = inl s.bookings;
      }

  place_booking-IsKept :
      (dry_run missed : Bool) (o : Option ActivityScheduleSlot)
      → is_manually_overridden b "schedule_slot" ≡ false
      → IsKept db b dry_run (place_booking db b dry_run missed o)
  unfolding place_booking move_slot
  place_booking-IsKept dry_run missed none f = keep_slot-IsKept dry_run
  place_booking-IsKept dry_run true (some slot) f = keep_slot-IsKept dry_run
  place_booking-IsKept dry_run false (some slot) f =
      elim (Bool-cases (opt_eq (some slot.id) (as_ref (b.columns "schedule_slot")))) [
        | inl t ↦ rw t (outcome-IsKept dry_run unchanged)
        | inr g ↦ rw g (moves dry_run)
      ]
    where
      moves :
          (dry : Bool)
          → IsKept db b dry (if dry then outcome_only reslotted b db else ok (move_slot db b slot))
      moves true = outcome-IsKept true reslotted
      moves false = record {
        done = move_slot db b slot;
        same = refl;
        dry = λ h. cc;
        queue = queue;
        moved = inr (slot, f, refl);
      }

  reslot_booking-IsKept : (dry_run : Bool) → IsKept db b dry_run (reslot_booking db b dry_run)
  unfolding reslot_booking
  reslot_booking-IsKept dry_run = elim (Bool-cases (is_manually_overridden b "schedule_slot")) [
    | inl t ↦ rw t (outcome-IsKept dry_run skipped_manual)
    | inr f ↦ rw f (place_booking-IsKept dry_run _ _ f)
  ]

-- Every booking of the table has an id of its own.
abbrev pub HaveIds : List Booking → Type 0
HaveIds bs = (x y : Booking) → In x bs → In y bs → x.id ≡ y.id → x ≡ y

total : Stats → ℕ
total s = s.reslotted + s.unchanged + s.no_match + s.skipped_manual

count_outcome-total :
    (kind : Outcome) (s : Stats)
    → (total (count_outcome kind s) ≡ total s + 1) × ((count_outcome kind s).scanned ≡ s.scanned)
unfolding total
count_outcome-total reslotted s = (omega arith, refl)
count_outcome-total unchanged s = (omega arith, refl)
count_outcome-total no_match s = (omega arith, refl)
count_outcome-total skipped_manual s = (omega arith, refl)

-- A booking that was placed by hand stays in the table as it is.
Stays : Db → Booking → Db → Type 0
Stays old row db =
    is_manually_overridden row "schedule_slot" ≡ true → In row old.bookings → In row db.bookings

moved-Stays :
    (old db : Db) (b row : Booking) (slot : ActivityScheduleSlot)
    → HaveIds old.bookings
    → In b old.bookings
    → is_manually_overridden b "schedule_slot" ≡ false
    → is_manually_overridden row "schedule_slot" ≡ true
    → In row old.bookings
    → In row db.bookings
    → In row (map (save_slot b.id slot) db.bookings)
moved-Stays old db b row slot ids i f t j k = elim (Bool-cases (row.id == b.id)) [
  | inl e ↦
      let q : row ≡ b = ids row b j i ((==_iff row.id b.id).0 e) in
      let c : true ≡ false = sym t ∙ (ap (λ x. is_manually_overridden x "schedule_slot") q ∙ f) in
      cc
  | inr e ↦
      let same : save_slot b.id slot row ≡ row = (unfold save_slot in rw e refl) in
      subst (λ z. In z (map (save_slot b.id slot) db.bookings)) same
        (map-In (save_slot b.id slot) row db.bookings k)
]

-- What the loop over the bookings leaves.
record IsLooped (old db : Db) (s : Stats) (dry_run : Bool) (n : ℕ) (out : Stats × Db) : Type 0 where
  pub dry : dry_run ≡ true → out.1 ≡ db
  pub queue : IsQueue out.1.reviews
  pub scanned : out.0.scanned ≡ s.scanned + n
  pub counted : total out.0 ≡ total s + n
  pub manual : (row : Booking) → Stays old row db → Stays old row out.1

module _ (old : Db) (ids : HaveIds old.bookings) (dry_run : Bool) where
  step-Stays :
      (db : Db) (b : Booking) (k : IsKept db b dry_run (reslot_booking db b dry_run))
      → In b old.bookings
      → (row : Booking) → Stays old row db
      → Stays old row k.done.db
  unfolding Stays
  step-Stays db b k i row stays t j = elim k.moved [
    | inl e ↦ rw e (stays t j)
    | inr (slot, f, e) ↦ rw e (moved-Stays old db b row slot ids i f t j (stays t j))
  ]

  handle_each-IsLooped :
      (db : Db) (s : Stats) (bs : List Booking)
      → IsQueue db.reviews
      → ((b : Booking) → In b bs → In b old.bookings)
      → IsLooped old db s dry_run (length bs) (handle_each db s dry_run bs)
  unfolding handle_each total
  handle_each-IsLooped db s [] queue all_of = record {
    dry = λ h. refl;
    queue = queue;
    scanned = omega arith;
    counted = omega arith;
    manual = λ row h. h;
  }
  handle_each-IsLooped db s (b ∷ bs) queue all_of =
      let k = reslot_booking-IsKept db b queue dry_run in
      let s' = count_outcome k.done.outcome (scan_one s) in
      let (more, same) = count_outcome-total k.done.outcome (scan_one s) in
      let rest = handle_each-IsLooped k.done.db s' bs k.queue (λ x i. all_of x (inr i)) in
      rw k.same (record {
        dry = λ h. rest.dry h ∙ k.dry h;
        queue = rest.queue;
        scanned = omega (arith, rest.scanned, same);
        counted = omega (arith, rest.counted, more);
        manual = λ row h. rest.manual row (step-Stays db b k (all_of b (inl refl)) row h);
      })

-- What a run leaves.
pub record IsHandled (db : Db) (options : Options) (out : Stats × Db) : Type 0 where
  pub dry : options.dry_run ≡ true → out.1 ≡ db
  pub queue : IsQueue out.1.reviews
  pub scanned : out.0.scanned ≡ length (queryset db options)
  pub counted :
      out.0.reslotted + out.0.unchanged + out.0.no_match + out.0.skipped_manual ≡ out.0.scanned
  pub manual :
      (row : Booking)
      → is_manually_overridden row "schedule_slot" ≡ true
      → In row db.bookings
      → In row out.1.bookings

In-limited :
    (b : Booking) (limit : Option ℤ) (rows : List Booking) → In b (limited limit rows) → In b rows
In-limited b none rows i = i
In-limited b (some limit) rows i = In-take b (pos_part limit) rows i

In-queryset :
    (db : Db) (options : Options) (b : Booking) → In b (queryset db options) → In b db.bookings
unfolding queryset
In-queryset db options b i =
    let test = λ (x : Booking). is_placed x && is_since options.since x in
    (In-filter test b db.bookings
      ((In-sort earlier b (filter test db.bookings)).0 (In-limited b options.limit _ i))).0

-- Where every booking has an id of its own and the queue is well formed, a dry run changes nothing in
-- the database. Every run counts each booking of its query once, leaves a booking whose slot was edited
-- by hand in the table as it is, and keeps the queue well formed.
pub handle-IsHandled :
    (db : Db) (options : Options)
    → HaveIds db.bookings
    → IsQueue db.reviews
    → IsHandled db options (handle db options)
unfolding handle total Stays
handle-IsHandled db options ids queue =
    let l =
      handle_each-IsLooped db ids options.dry_run db no_stats (queryset db options) queue
        (In-queryset db options) in
    record {
      dry = l.dry;
      queue = l.queue;
      scanned = omega (arith, l.scanned);
      counted = omega (arith, l.counted, l.scanned);
      manual = λ row t i. l.manual row (λ u j. j) t i;
    }
