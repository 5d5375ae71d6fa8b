-- ===== src/Bookings/Internal/Reviewed.antt =====
-- The provider row and the review of an overbooking.
use ticketmirror.Base.{
  ℕ, ◌+◌, ◌≤◌, String, ◌≡◌, refl, ap, ◌⊎◌, inl, inr, true, false, ◌&&◌, Option, none, some, [], ◌∷◌,
  ◌++◌, all, arith, Bool-cases,
}
use ticketmirror.Base.Int.{ℤ, is_negative, abs}
use ticketmirror.Base.Result.{Result, ok}
use ticketmirror.Data.{
  Db, Provider, Booking, ReviewQueueItem, internal_overbooked, product_mismatch, issue_eq, opt_eq,
  is_open,
}
use ticketmirror.Bookings.Errors.{ServiceError}
use ticketmirror.Bookings.Capacity.{is_review_of, excluded_by_reviews}
use ticketmirror.Bookings.Queue.{new_item, store_item, create_review_item}
use ticketmirror.Bookings.Queue.OneOpen.{IsQueue, count, create_review_item-IsStored}
use ticketmirror.Bookings.Internal.{direct_or_new, overbooked_key, review_overbooking}
use ticketmirror.Bookings.Internal.Fresh.{
  is_below, any-append, no_matches, no_reviews, excluded_by_reviews-append,
}

-- The provider row changes nothing else, but for the id it may take.
pub record IsDirect (db : Db) (r : Provider × Db) : Type 0 where
  pub bookings : r.1.bookings ≡ db.bookings
  pub reviews : r.1.reviews ≡ db.reviews
  pub exceptions : r.1.exceptions ≡ db.exceptions
  pub events : r.1.events ≡ db.events
  pub next_id : db.next_id ≤ r.1.next_id

pub direct_or_new-IsDirect : (db : Db) (o : Option Provider) → IsDirect db (direct_or_new db o)
unfolding direct_or_new
direct_or_new-IsDirect db (some p) = record {
  bookings = refl;
  reviews = refl;
  exceptions = refl;
  events = refl;
  next_id = omega arith;
}
direct_or_new-IsDirect db none = record {
  bookings = refl;
  reviews = refl;
  exceptions = refl;
  events = refl;
  next_id = omega arith;
}

-- The review of an overbooking, where the booking is new.
pub record IsReviewed (db : Db) (id : ℕ) (projected : ℤ) (r : Result ServiceError Db) : Type 0 where
  pub db' : Db
  pub succeeds : r ≡ ok db'
  pub bookings : db'.bookings ≡ db.bookings
  pub exceptions : db'.exceptions ≡ db.exceptions
  pub events : db'.events ≡ db.events
  pub queue : IsQueue db'.reviews
  pub reported : (is_negative projected ≡ false) ⊎ (count (overbooked_key id) db'.reviews ≡ 1)
  pub others :
      (c : Booking)
      → opt_eq (some id) (some c.id) ≡ false
      → excluded_by_reviews db' c ≡ excluded_by_reviews db c
  pub own : (b : Booking) → b.id ≡ id → excluded_by_reviews db' b ≡ false

pub unreported :
    (db : Db) (id n : ℕ) (b : Booking)
    → n ≤ id
    → all (λ r. is_below n r.booking) db.reviews ≡ true
    → b.id ≡ id
    → excluded_by_reviews db b ≡ false
unfolding excluded_by_reviews
unreported db id n b le h e = rw (no_reviews n id le b (λ r. is_open r.status) db.reviews e h) refl

pub unreported_new :
    (db db' : Db) (id n : ℕ) (b : Booking) (r : ReviewQueueItem)
    → n ≤ id
    → all (λ x. is_below n x.booking) db.reviews ≡ true
    → b.id ≡ id
    → db'.reviews ≡ db.reviews ++ r ∷ []
    → issue_eq r.issue_type product_mismatch ≡ false
    → excluded_by_reviews db' b ≡ false
unfolding excluded_by_reviews
unreported_new db db' id n b r le h i e m = rw e (
    rw (any-append (λ x. is_review_of b x && issue_eq x.issue_type product_mismatch) db.reviews r) (
      rw (no_reviews n id le b (λ x. issue_eq x.issue_type product_mismatch) db.reviews i h)
        (rw m (ground arith))))

pub review_overbooking-IsReviewed :
    (db : Db) (id n : ℕ) (projected : ℤ) (reason : String)
    → n ≤ id
    → all (λ r. is_below n r.booking) db.reviews ≡ true
    → IsQueue db.reviews
    → IsReviewed db id projected (review_overbooking db id projected reason)
unfolding review_overbooking create_review_item store_item new_item
review_overbooking-IsReviewed db id n projected reason le h q =
    elim (Bool-cases (is_negative projected)) [
      | inr e ↦ rw e (record {
        db' = db;
        succeeds = refl;
        bookings = refl;
        exceptions = refl;
        events = refl;
        queue = q;
        reported = inl e;
        others = λ c _. refl;
        own = λ b i. unreported db id n b le h i;
      })
      | inl e ↦
          let k = overbooked_key id in
          let d = internal_overbooked (abs projected) reason in
          let none_yet = no_matches n id le k db.reviews refl h in
          let db' = record db {
            reviews = db.reviews ++ new_item db.next_id k "Capacity overbooked" d ∷ [];
            next_id = db.next_id + 1;
          } in
          let stored = create_review_item-IsStored db k "Capacity overbooked" d q in
          let same_db : db' ≡ stored.db = cc (stored.stored, none_yet) in
          let same : db'.reviews ≡ stored.db.reviews = ap (λ x. x.reviews) same_db in
          rw (e, none_yet)
            (record {
              db' = db';
              succeeds = refl;
              bookings = refl;
              exceptions = refl;
              events = refl;
              queue = rw same stored.queue;
              reported = inr (rw same stored.once);
              others = λ c ne.
                  excluded_by_reviews-append db db' c
                    (new_item db.next_id k "Capacity overbooked" d) refl ne;
              own = λ b i.
                  unreported_new db db' id n b (new_item db.next_id k "Capacity overbooked" d) le h
                    i refl refl;
            })
    ]
