-- ===== src/Bookings/Internal/Fresh.antt =====
-- Ids are handed out in order, so no row names the next one.
use ticketmirror.Base.{
  ℕ, ◌≤◌, String, ◌≡◌, refl, inl, inr, Bool, true, false, not, ◌&&◌, ◌||◌, Option, none, some, List,
  [], ◌∷◌, ◌++◌, In, all, any, filter, ltb, str_eq, arith,
}
use ticketmirror.Data.{Db, Booking, ReviewQueueItem, issue_eq, product_mismatch, opt_eq, is_open}
use ticketmirror.Bookings.Capacity.{is_review_of, excluded_by_reviews}
use ticketmirror.Bookings.Queue.{Key, matches}
use ticketmirror.Bookings.Rows.{has_identity}

abbrev pub is_below : ℕ → Option ℕ → Bool
is_below n none = true
is_below n (some id) = ltb id n

pub record IsFresh (db : Db) : Type 0 where
  pub bookings : all (λ b. ltb b.id db.next_id) db.bookings ≡ true
  pub reviews : all (λ r. is_below db.next_id r.booking) db.reviews ≡ true

module _ {A : Type 0} where
  pub all-In : (p : A → Bool) (x : A) (xs : List A) → all p xs ≡ true → In x xs → p x ≡ true
  all-In p x [] h i = absurd i
  all-In p x (y ∷ ys) h (inl e) = rw e (ground arith)
  all-In p x (y ∷ ys) h (inr i) = all-In p x ys (ground arith) i

  pub any-append : (p : A → Bool) (xs : List A) (y : A) → any p (xs ++ y ∷ []) ≡ (any p xs || p y)
  any-append p [] y = ground arith
  any-append p (x ∷ xs) y = ground (arith, any-append p xs y)

not_below : (n id : ℕ) (o : Option ℕ) → n ≤ id → is_below n o ≡ true → opt_eq o (some id) ≡ false
not_below n id none le h = refl
not_below n id (some m) le h = ground arith

-- No review is of a booking with a new id.
module _ (n id : ℕ) (le : n ≤ id) where
  pub no_matches :
      (k : Key) (rs : List ReviewQueueItem)
      → k.booking ≡ some id
      → all (λ r. is_below n r.booking) rs ≡ true
      → filter (matches k) rs ≡ []
  unfolding matches
  no_matches k [] e h = refl
  no_matches k (r ∷ rs) e h =
      let f : is_below n r.booking ≡ true = ground arith in
      let q : opt_eq r.booking k.booking ≡ false = rw e (not_below n id r.booking le f) in
      let ih = no_matches k rs e (ground arith) in
      let m : matches k r ≡ false = ground (arith, q) in rw (m, ih) refl

  pub no_reviews :
      (b : Booking) (test : ReviewQueueItem → Bool) (rs : List ReviewQueueItem)
      → b.id ≡ id
      → all (λ r. is_below n r.booking) rs ≡ true
      → any (λ r. is_review_of b r && test r) rs ≡ false
  no_reviews b test [] e h = refl
  no_reviews b test (r ∷ rs) e h =
      let f : is_below n r.booking ≡ true = ground arith in
      let q : opt_eq r.booking (some b.id) ≡ false = rw e (not_below n id r.booking le f) in
      let ih = no_reviews b test rs e (ground arith) in rw (q, ih) refl

-- A review of another booking changes nothing for a booking.
pub excluded_by_reviews-append :
    (db db' : Db) (c : Booking) (r : ReviewQueueItem)
    → db'.reviews ≡ db.reviews ++ r ∷ []
    → is_review_of c r ≡ false
    → excluded_by_reviews db' c ≡ excluded_by_reviews db c
unfolding excluded_by_reviews
excluded_by_reviews-append db db' c r e h = rw e (
    rw (any-append (λ x. is_review_of c x && is_open x.status) db.reviews r) (
      rw (any-append (λ x. is_review_of c x && issue_eq x.issue_type product_mismatch) db.reviews r)
        (rw h (ground arith))))

-- A reference that no booking has is free under every provider.
pub no_identity :
    (provider : ℕ) (reference : String) (bs : List Booking)
    → all (λ b. not (str_eq b.provider_booking_reference reference)) bs ≡ true
    → any (has_identity provider reference) bs ≡ false
unfolding has_identity
no_identity provider reference [] h = refl
no_identity provider reference (b ∷ bs) h = ground (arith, no_identity provider reference bs)
