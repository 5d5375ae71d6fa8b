-- ===== src/Ingestion/Identity/Finding.antt =====
-- The booking that an email is taken to be about.
use ticketmirror.Base.{
  ◌≡◌, refl, ◌⊎◌, inl, inr, true, false, ◌&&◌, Option, none, some, ◌==◌, In, str_eq, find?,
  find?-some, find?-none, ==_iff, eq_iff, sym, ◌∙◌, ◌≢◌, or_else, Bool-cases, Option-cases,
}
use ticketmirror.Data.{Db, Provider, Booking}
use ticketmirror.Bookings.Rows.{has_identity}
use ticketmirror.Ingestion.Environment.{Environment}
use ticketmirror.Ingestion.Parsed.{ParsedBooking}
use ticketmirror.Ingestion.Identity.{
  by_bookeo_number, by_details, provisional_of, find_bookeo_provisional_booking, find_exact,
  find_booking_for_parsed,
}
use ticketmirror.Ingestion.Identity.Tied.{
  BearsNumber, HasDetails, first, second, by_bookeo_number-some, by_bookeo_number-none,
  by_details-some, by_details-none,
}

pub record IsProvisional (env : Environment) (db : Db) (p : ParsedBooking) (b : Booking)
    : Type 0 where
  pub bookeo : Provider
  pub of_ota : str_eq p.provider_code "bookeo" ≡ false
  -- The row of Bookeo, the first with its code.
  pub bookeos : find? (λ x. str_eq x.code "bookeo") db.providers ≡ some bookeo
  -- The details tie a booking only where no booking bears the number.
  pub ties :
      BearsNumber bookeo p b
      ⊎ HasDetails env bookeo p b × ((c : Booking) → In c db.bookings → ¬ BearsNumber bookeo p c)

-- No booking stands under the email's provider and reference.
abbrev pub HasNone : Db → Provider → ParsedBooking → Type 0
HasNone db provider p =
    (b : Booking)
    → In b db.bookings
    → b.provider ≡ provider.id
    → b.provider_booking_reference ≢ p.provider_booking_reference

pub HasNone-find_exact :
    (db : Db) (provider : Provider) (p : ParsedBooking)
    → HasNone db provider p
    → find_exact db provider.id p.provider_booking_reference ≡ none
unfolding find_exact has_identity
HasNone-find_exact db provider p h =
    elim (Option-cases (find_exact db provider.id p.provider_booking_reference)) [
      | inl e ↦ e
      | inr (b, e) ↦
          let (i, t) =
            find?-some (has_identity provider.id p.provider_booking_reference) b db.bookings e in
          absurd (
            h b i
              ((==_iff b.provider provider.id).0 (
                first (b.provider == provider.id)
                  (str_eq b.provider_booking_reference p.provider_booking_reference) t))
              ((eq_iff b.provider_booking_reference p.provider_booking_reference).0 (
                second (b.provider == provider.id)
                  (str_eq b.provider_booking_reference p.provider_booking_reference) t)))
    ]

-- What a search of the bookings may answer.
pub data IsFound (env : Environment) (db : Db) (provider : Provider) (p : ParsedBooking)
    : Option Booking → Type 0 where
  exact :
      (b : Booking)
      → In b db.bookings
      → b.provider ≡ provider.id
      → b.provider_booking_reference ≡ p.provider_booking_reference
      → IsFound env db provider p (some b)
  provisional :
      (b : Booking)
      → In b db.bookings
      → HasNone db provider p
      → IsProvisional env db p b
      → IsFound env db provider p (some b)
  absent :
      HasNone db provider p
      → ((b : Booking) → In b db.bookings → ¬ IsProvisional env db p b)
      → IsFound env db provider p none

or_else-none : {A : Type 0} (o q : Option A) → or_else o q ≡ none → (o ≡ none) × (q ≡ none)
or_else-none none q h = (refl, h)
or_else-none (some x) q h = cc

or_else-some :
    {A : Type 0} (o q : Option A) (a : A)
    → or_else o q ≡ some a
    → (o ≡ some a) ⊎ (o ≡ none) × (q ≡ some a)
or_else-some none q a h = inr (refl, h)
or_else-some (some x) q a h = inl h

module _ (env : Environment) (db : Db) (p : ParsedBooking) (b : Booking) where
  provisional_of-some :
      (o : Option Provider)
      → str_eq p.provider_code "bookeo" ≡ false
      → find? (λ x. str_eq x.code "bookeo") db.providers ≡ o
      → provisional_of env db p o ≡ some b
      → In b db.bookings × IsProvisional env db p b
  unfolding provisional_of
  provisional_of-some none ota e h = cc
  provisional_of-some (some bookeo) ota e h =
      let found = e in
      elim (or_else-some (by_bookeo_number db bookeo.id p.bookeo_booking_number)
        (by_details env db bookeo.id p) b h) [
          | inl k ↦
              let (i, bears) =
                by_bookeo_number-some env db p bookeo b p.bookeo_booking_number refl k in
              (i, record { bookeo = bookeo; of_ota = ota; bookeos = found; ties = inl bears })
          | inr k ↦
              let (i, details) = by_details-some env db p bookeo b k.1 in
              (
                i,
                record {
                  bookeo = bookeo;
                  of_ota = ota;
                  bookeos = found;
                  ties = inr (details, by_bookeo_number-none env db p bookeo k.0);
                },
              )
        ]

  IsProvisional-some :
      find_bookeo_provisional_booking env db p ≡ some b
      → In b db.bookings × IsProvisional env db p b
  unfolding find_bookeo_provisional_booking
  IsProvisional-some h = elim (Bool-cases (str_eq p.provider_code "bookeo")) [
    | inl t ↦ let q : none ≡ some b = rw t at h in cc
    | inr t ↦
        provisional_of-some (find? (λ x. str_eq x.code "bookeo") db.providers) t refl (rw t at h)
  ]

some_provider : (x y : Provider) → some x ≡ some y → x ≡ y
some_provider x y e = cc

module _ (env : Environment) (db : Db) (p : ParsedBooking) where
  none_of_bookeo :
      (o : Option Provider)
      → find? (λ x. str_eq x.code "bookeo") db.providers ≡ o
      → provisional_of env db p o ≡ none
      → (b : Booking) → In b db.bookings
      → ¬ IsProvisional env db p b
  unfolding provisional_of
  none_of_bookeo none e h b i t = cc (sym e ∙ t.bookeos)
  none_of_bookeo (some bookeo) e h b i t =
      let q : t.bookeo ≡ bookeo = some_provider t.bookeo bookeo (sym t.bookeos ∙ e) in
      let (n, d) = or_else-none _ _ h in
      elim t.ties [
        | inl k ↦ by_bookeo_number-none env db p bookeo n b i (rw q at k)
        | inr k ↦ by_details-none env db p bookeo d b i (rw q at k.0)
      ]

  IsProvisional-none :
      find_bookeo_provisional_booking env db p ≡ none
      → (b : Booking) → In b db.bookings
      → ¬ IsProvisional env db p b
  unfolding find_bookeo_provisional_booking
  IsProvisional-none h b i t =
      none_of_bookeo (find? (λ x. str_eq x.code "bookeo") db.providers) refl (rw t.of_ota at h) b i
        t

module _ (env : Environment) (db : Db) (provider : Provider) (p : ParsedBooking) where
  find_exact-none :
      find_exact db provider.id p.provider_booking_reference ≡ none → HasNone db provider p
  unfolding find_exact has_identity
  find_exact-none e b i q r =
      let f : (b.provider == provider.id
            && str_eq b.provider_booking_reference p.provider_booking_reference)
          ≡ false =
        find?-none (has_identity provider.id p.provider_booking_reference) b db.bookings e i in
      let t : (b.provider == provider.id) ≡ true = (==_iff b.provider provider.id).1 q in
      let u = (eq_iff b.provider_booking_reference p.provider_booking_reference).1 r in
      let c : true ≡ false = rw (t, u) at f in cc

  from_exact :
      (o : Option Booking)
      → find_exact db provider.id p.provider_booking_reference ≡ o
      → IsFound env db provider p (or_else o (find_bookeo_provisional_booking env db p))
  unfolding find_exact has_identity
  from_exact (some b) e =
      let (i, t) =
        find?-some (has_identity provider.id p.provider_booking_reference) b db.bookings e in
      exact b i
        ((==_iff b.provider provider.id).0 (
          first (b.provider == provider.id)
            (str_eq b.provider_booking_reference p.provider_booking_reference) t))
        ((eq_iff b.provider_booking_reference p.provider_booking_reference).0 (
          second (b.provider == provider.id)
            (str_eq b.provider_booking_reference p.provider_booking_reference) t))
  from_exact none e = elim (Option-cases (find_bookeo_provisional_booking env db p)) [
    | inl k ↦ rw k (absent (find_exact-none e) (IsProvisional-none env db p k))
    | inr k ↦
        let (i, prov) = IsProvisional-some env db p k.0 k.1 in
        rw (k.1) (provisional k.0 i (find_exact-none e) prov)
  ]

  pub find_booking_for_parsed-IsFound :
      IsFound env db provider p (find_booking_for_parsed env db provider p)
  unfolding find_booking_for_parsed
  find_booking_for_parsed-IsFound =
      from_exact (find_exact db provider.id p.provider_booking_reference) refl
