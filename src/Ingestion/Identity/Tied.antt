-- ===== src/Ingestion/Identity/Tied.antt =====
-- The two searches for a provisional booking: by the Bookeo number, and by the details.
use ticketmirror.Base.{
  String, ◌≡◌, refl, inl, inr, Bool, true, not, ◌&&◌, ◌||◌, Option, none, some, List, [], ◌∷◌, ◌==◌,
  In, In-filter, arith, filter, filter-In, head?, Bool-cases,
}
use ticketmirror.Base.Sort.{sort, In-sort}
use ticketmirror.Data.{Db, Provider, Booking}
use ticketmirror.Bookings.Reviews.{has_text}
use ticketmirror.Ingestion.Environment.{Environment}
use ticketmirror.Ingestion.Parsed.{ParsedBooking}
use ticketmirror.Ingestion.Identity.{
  newer_first, newest, has_bookeo_number, by_bookeo_number, has_match_fields, is_candidate,
  has_same_product, by_details,
}

-- A Bookeo booking that bears the email's Bookeo number.
pub record BearsNumber (bookeo : Provider) (p : ParsedBooking) (b : Booking) : Type 0 where
  pub number : String
  pub stated : p.bookeo_booking_number ≡ some number
  pub named : has_text number ≡ true
  pub bookeos : (b.provider == bookeo.id) ≡ true
  pub bears : has_bookeo_number number b ≡ true

-- A Bookeo booking with the email's date, time, count, lead traveler and product.
pub record HasDetails (env : Environment) (bookeo : Provider) (p : ParsedBooking) (b : Booking)
    : Type 0 where
  pub complete : has_match_fields p ≡ true
  pub details : is_candidate env bookeo.id p b ≡ true
  pub product : (not (has_text p.raw_product_name) || has_same_product env p b) ≡ true

pub first : (x y : Bool) → (x && y) ≡ true → x ≡ true
first x y k = ground arith

pub second : (x y : Bool) → (x && y) ≡ true → y ≡ true
second x y k = ground arith

newest-In : (bs : List Booking) (b : Booking) → newest bs ≡ some b → In b bs
unfolding newest
newest-In bs b h = (In-sort newer_first b bs).0 (head-In (sort newer_first bs) h)
  where
    head-In : (xs : List Booking) → head? xs ≡ some b → In b xs
    head-In [] e = cc
    head-In (x ∷ xs) e = inl (cc)

newest-none : (bs : List Booking) (b : Booking) → newest bs ≡ none → ¬ In b bs
unfolding newest
newest-none bs b h i = no_head (sort newer_first bs) h ((In-sort newer_first b bs).1 i)
  where
    no_head : (xs : List Booking) → head? xs ≡ none → ¬ In b xs
    no_head [] e j = j
    no_head (x ∷ xs) e j = cc

module _ (env : Environment) (db : Db) (p : ParsedBooking) (bookeo : Provider) (b : Booking) where
  pub by_bookeo_number-some :
      (o : Option String)
      → p.bookeo_booking_number ≡ o
      → by_bookeo_number db bookeo.id o ≡ some b
      → In b db.bookings × BearsNumber bookeo p b
  unfolding by_bookeo_number
  by_bookeo_number-some none e h = cc
  by_bookeo_number-some (some number) e h = elim (Bool-cases (has_text number)) [
    | inr t ↦ let q : none ≡ some b = rw t at h in cc
    | inl t ↦
        let i =
          newest-In
            (filter (λ c. c.provider == bookeo.id && has_bookeo_number number c) db.bookings) b
            (rw t at h) in
        let (j, k) =
          In-filter (λ c. c.provider == bookeo.id && has_bookeo_number number c) b db.bookings i in
        (
          j,
          record {
            number = number;
            stated = e;
            named = t;
            bookeos = first (b.provider == bookeo.id) (has_bookeo_number number b) k;
            bears = second (b.provider == bookeo.id) (has_bookeo_number number b) k;
          },
        )
  ]

  pub by_details-some :
      by_details env db bookeo.id p ≡ some b → In b db.bookings × HasDetails env bookeo p b
  unfolding by_details
  by_details-some h = elim (Bool-cases (has_match_fields p)) [
    | inr t ↦ let q : none ≡ some b = rw t at h in cc
    | inl t ↦
        let test : Booking → Bool = λ c.
          is_candidate env bookeo.id p c
          && (not (has_text p.raw_product_name) || has_same_product env p c) in
        let i = newest-In (filter test db.bookings) b (rw t at h) in
        let (j, k) = In-filter test b db.bookings i in
        (
          j,
          record {
            complete = t;
            details =
                first (is_candidate env bookeo.id p b)
                  (not (has_text p.raw_product_name) || has_same_product env p b) k;
            product =
                second (is_candidate env bookeo.id p b)
                  (not (has_text p.raw_product_name) || has_same_product env p b) k;
          },
        )
  ]

module _ (env : Environment) (db : Db) (p : ParsedBooking) (bookeo : Provider) where
  pub by_bookeo_number-none :
      by_bookeo_number db bookeo.id p.bookeo_booking_number ≡ none
      → (c : Booking) → In c db.bookings
      → ¬ BearsNumber bookeo p c
  unfolding by_bookeo_number
  by_bookeo_number-none h c i t =
      let e : by_bookeo_number db bookeo.id (some t.number) ≡ none = rw t.stated at h in
      newest-none
        (filter (λ x. x.provider == bookeo.id && has_bookeo_number t.number x) db.bookings) c
        (rw t.named at e)
        (filter-In (λ x. x.provider == bookeo.id && has_bookeo_number t.number x) c db.bookings i
          (rw (t.bookeos, t.bears) refl))

  pub by_details-none :
      by_details env db bookeo.id p ≡ none
      → (c : Booking) → In c db.bookings
      → ¬ HasDetails env bookeo p c
  unfolding by_details
  by_details-none h c i t =
      let test : Booking → Bool = λ x.
        is_candidate env bookeo.id p x
        && (not (has_text p.raw_product_name) || has_same_product env p x) in
      newest-none (filter test db.bookings) c (rw t.complete at h)
        (filter-In test c db.bookings i (rw (t.details, t.product) refl))
