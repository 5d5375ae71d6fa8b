-- ===== src/Ingestion/Ignored/Cancelling.antt =====
-- Exactly which bookings an ignored email cancels.
use ticketmirror.Base.{
  ℕ, String, ◌≡◌, refl, sym, ap, ◌∙◌, inl, inr, ◌↔◌, Bool, true, false, ◌&&◌, some, List, [], ◌∷◌,
  ◌==◌, ==_iff, In, In-filter, filter-In, arith, filter, any, map, Bool-cases,
}
use ticketmirror.Data.{Db, Booking, RawEmail, ReviewQueueItem, opt_eq, is_open}
use ticketmirror.Bookings.Queue.{resolve_if, resolve_items}
use ticketmirror.Ingestion.Environment.{Environment}
use ticketmirror.Ingestion.Update.{create_booking_event}
use ticketmirror.Ingestion.Ignored.{
  save_raw_email, is_event_of, has_other_events, safe_to_cancel_ignored_raw_email_booking,
  cancel_false_booking, cancel_each, bookings_of_email, cancel_false_bookings_for_ignored_raw_email,
  resolve_reviews_for_ignored_raw_email, as_ignored, mark_raw_email_ignored,
}
use ticketmirror.Ingestion.Ignored.Sole.{is_false_booking, IsFalseBooking, is_false_booking_iff}
use ticketmirror.Ingestion.Ignored.Hits.{
  any-In, any-some, map_cong, HasIds, safe, is_hit, cancel_if, step_safe, step_unsafe,
  cancel_each-bookings,
}

-- Among rows with ids of their own, a row is hit where it is itself in the list and safe.
module _ (db : Db) (raw : RawEmail) (ids : HasIds db.bookings) where
  hit_iff :
      (row : Booking)
      → In row db.bookings
      → is_hit db (bookings_of_email db raw) raw row ≡ is_false_booking db raw row
  unfolding is_hit is_false_booking bookings_of_email
  hit_iff row i =
      let test : Booking → Bool =
        λ b. any (λ e. is_event_of b e && opt_eq e.raw_email (some raw.id)) db.events in
      let hits : Booking → Bool = λ b. b.id == row.id && safe db b raw in
      elim (Bool-cases (any hits (filter test db.bookings))) [
        | inl t ↦
            let (b, j, k) = any-some hits (filter test db.bookings) t in
            let (l, m) = In-filter test b db.bookings j in
            let q : b ≡ row =
              ids.one_row b row l i
                ((==_iff b.id row.id).0 (first (b.id == row.id) (safe db b raw) k)) in
            let tested : test row ≡ true = rw (← q) m in
            let safely : safe db row raw ≡ true =
              rw (← q) (second (b.id == row.id) (safe db b raw) k) in
            t ∙ rw (tested, safely) refl
        | inr t ↦ elim (Bool-cases (test row)) [
          | inr u ↦ t ∙ rw u refl
          | inl u ↦ elim (Bool-cases (safe db row raw)) [
            | inr v ↦ t ∙ rw (u, v) refl
            | inl v ↦
                let k : hits row ≡ true = rw ((==_iff row.id row.id).1 refl, v) refl in
                let w =
                  any-In hits row (filter test db.bookings) (filter-In test row db.bookings i u)
                    k in
                let x : true ≡ false = sym w ∙ t in cc
          ]
        ]
      ]
    where
      first : (x y : Bool) → (x && y) ≡ true → x ≡ true
      first x y k = ground arith

      second : (x y : Bool) → (x && y) ≡ true → y ≡ true
      second x y k = ground arith

  pub cancel_false_bookings-bookings :
      (reason : String)
      → (cancel_false_bookings_for_ignored_raw_email db raw reason).bookings
        ≡ map (λ row. cancel_if (is_false_booking db raw row) row) db.bookings
  unfolding cancel_false_bookings_for_ignored_raw_email
  cancel_false_bookings-bookings reason =
      cancel_each-bookings db (bookings_of_email db raw) raw reason
      ∙ map_cong _ _ db.bookings (λ row i. ap (λ t. cancel_if t row) (hit_iff row i))

cancel_each-reviews :
    (db : Db) (bs : List Booking) (raw : RawEmail) (reason : String)
    → (cancel_each db bs raw reason).reviews ≡ db.reviews
unfolding cancel_each cancel_false_booking create_booking_event
cancel_each-reviews db [] raw reason = refl
cancel_each-reviews db (b ∷ bs) raw reason = elim (Bool-cases (safe db b raw)) [
  | inl e ↦
      ap (λ x. x.reviews) (step_safe db b bs raw reason e)
      ∙ cancel_each-reviews (cancel_false_booking db b raw reason) bs raw reason
  | inr e ↦
      ap (λ x. x.reviews) (step_unsafe db b bs raw reason e) ∙ cancel_each-reviews db bs raw reason
]

all_closed :
    (test : ReviewQueueItem → Bool) (now : ℕ) (rs : List ReviewQueueItem) (r : ReviewQueueItem)
    → ((x : ReviewQueueItem) → test (resolve_if test now x) ≡ test x)
    → In r (map (resolve_if test now) rs)
    → test r ≡ true
    → is_open r.status ≡ false
all_closed test now [] r h i t = absurd i
all_closed test now (x ∷ rs) r h (inr i) t = all_closed test now rs r h i t
all_closed test now (x ∷ rs) r h (inl e) t =
    let u : test x ≡ true = sym (h x) ∙ (ap test (sym e) ∙ t) in rw e (closes x u)
  where
    closed_before : (a b : Bool) → b ≡ true → (a && b) ≡ false → a ≡ false
    closed_before a b u c = ground arith

    closes : (x : ReviewQueueItem) → test x ≡ true → is_open (resolve_if test now x).status ≡ false
    closes x u = elim (Bool-cases (is_open x.status && test x)) [
      | inl c ↦ rw c refl
      | inr c ↦ rw c (closed_before (is_open x.status) (test x) u c)
    ]

-- What marking an email as ignored leaves.
pub record IsIgnored (db db' : Db) (raw : RawEmail) : Type 0 where
  pub bookings : db'.bookings ≡ map (λ row. cancel_if (is_false_booking db raw row) row) db.bookings
  pub exactly : (row : Booking) → (is_false_booking db raw row ≡ true) ↔ IsFalseBooking db raw row
  pub closed :
      (r : ReviewQueueItem)
      → In r db'.reviews
      → opt_eq r.raw_email (some raw.id) ≡ true
      → is_open r.status ≡ false

-- Where every booking has its own id, marking an email as ignored cancels exactly the bookings that
-- have an event of that email and none from anywhere else, are not settled (cancelled, rejected or an
-- ignored duplicate), and are not of another mail thread; it changes nothing else of them and no other booking, and leaves no review of the email
-- open.
pub mark_raw_email_ignored-IsIgnored :
    (env : Environment) (db : Db) (raw : RawEmail) (reason : String)
    → HasIds db.bookings
    → IsIgnored db (mark_raw_email_ignored env db raw reason) raw
unfolding mark_raw_email_ignored resolve_reviews_for_ignored_raw_email save_raw_email resolve_items
    cancel_false_bookings_for_ignored_raw_email safe safe_to_cancel_ignored_raw_email_booking
    has_other_events is_false_booking
mark_raw_email_ignored-IsIgnored env db raw reason ids =
    let ignored_raw = as_ignored raw reason in
    let db' =
      resolve_reviews_for_ignored_raw_email env (save_raw_email db ignored_raw) ignored_raw in
    record {
      bookings =
          cancel_false_bookings-bookings db' ignored_raw (record { one_row = ids.one_row }) reason;
      exactly = is_false_booking_iff db raw;
      closed = λ r i t.
          let same =
            cancel_each-reviews db' (bookings_of_email db' ignored_raw) ignored_raw reason in
          let j : In r db'.reviews = rw (← same) i in
          all_closed (λ x. opt_eq x.raw_email (some raw.id)) env.now db.reviews r
            (λ x. same_email x) j t;
    }
  where
    same_email :
        (x : ReviewQueueItem)
        → opt_eq
            (resolve_if (λ y. opt_eq y.raw_email (some raw.id)) env.now x).raw_email
            (some raw.id)
          ≡ opt_eq x.raw_email (some raw.id)
    same_email x = elim (Bool-cases (is_open x.status && opt_eq x.raw_email (some raw.id))) [
      | inl e ↦ rw e refl
      | inr e ↦ rw e refl
    ]
