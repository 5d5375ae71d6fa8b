-- ===== src/Ingestion/Identity/Table.antt =====
-- New and saved rows leave every identity to one booking.
use ticketmirror.Base.{
  ℕ, String, ◌≡◌, refl, sym, ap, ◌∙◌, ◌⊎◌, inl, inr, true, false, List, [], ◌∷◌, ◌++◌, ◌==◌, ==_iff,
  In, none, find?-none, eq_refl, map, if◌then◌else◌, Bool-cases,
}
use ticketmirror.Data.{Db, Booking, SameIdentity}
use ticketmirror.Bookings.Rows.{has_identity}
use ticketmirror.Ingestion.Update.{save_booking}
use ticketmirror.Ingestion.Identity.{find_exact}
use ticketmirror.Ingestion.Identity.Promotion.{IsTable, In-map}

In-append : (x y : Booking) (xs : List Booking) → In x (xs ++ y ∷ []) → In x xs ⊎ (x ≡ y)
In-append x y [] (inl e) = inr e
In-append x y [] (inr i) = absurd i
In-append x y (z ∷ zs) (inl e) = inl (inl e)
In-append x y (z ∷ zs) (inr i) = elim (In-append x y zs i) [ inl j ↦ inl (inr j) | inr e ↦ inr e ]

-- Where no row was found under an identity, none has it.
not_taken :
    (db : Db) (provider : ℕ) (reference : String) (c : Booking)
    → find_exact db provider reference ≡ none
    → In c db.bookings
    → c.provider ≡ provider
    → c.provider_booking_reference ≡ reference
    → ⊥
unfolding find_exact has_identity
not_taken db provider reference c e i p r =
    let f = find?-none (has_identity provider reference) c db.bookings e i in
    let g : false ≡ true =
      sym f ∙ rw (p, r) (rw ((==_iff provider provider).1 refl, eq_refl reference) refl) in
    cc

pub append-IsTable :
    (db : Db) (b : Booking)
    → find_exact db b.provider b.provider_booking_reference ≡ none
    → IsTable db.bookings
    → IsTable (db.bookings ++ b ∷ [])
append-IsTable db b e table = record {
  one_row =
      λ v w i j p r. cases v w (In-append v b db.bookings i) (In-append w b db.bookings j) p r;
}
  where
    cases :
        (v w : Booking)
        → In v db.bookings ⊎ (v ≡ b)
        → In w db.bookings ⊎ (w ≡ b)
        → v.provider ≡ w.provider
        → v.provider_booking_reference ≡ w.provider_booking_reference
        → v.id ≡ w.id
    cases v w (inl i) (inl j) p r = table.one_row v w i j p r
    cases v w (inl i) (inr f) p r = absurd (
        not_taken db b.provider b.provider_booking_reference v e i (p ∙ ap (λ z. z.provider) f)
          (r ∙ ap (λ z. z.provider_booking_reference) f))
    cases v w (inr f) (inl j) p r = absurd (
        not_taken db b.provider b.provider_booking_reference w e j (sym p ∙ ap (λ z. z.provider) f)
          (sym r ∙ ap (λ z. z.provider_booking_reference) f))
    cases v w (inr f) (inr g) p r = ap (λ z. z.id) (f ∙ sym g)

-- A row that is saved under the identity that its stored row has.
module _ (bs : List Booking) (c x : Booking) (table : IsTable bs) (stored : In x bs)
    (same : SameIdentity x c) where
  saved_row :
      (y : Booking)
      → In y bs
      → ((if y.id == c.id then c else y) ≡ c) ⊎ In (if y.id == c.id then c else y) bs
  saved_row y i = elim (Bool-cases (y.id == c.id)) [
    | inl e ↦ rw e (inl refl)
    | inr e ↦ rw e (inr i)
  ]

  own_row :
      (w : Booking)
      → In w bs
      → c.provider ≡ w.provider
      → c.provider_booking_reference ≡ w.provider_booking_reference
      → c.id ≡ w.id
  own_row w j p r = sym same.0 ∙ table.one_row x w stored j (same.1 ∙ p) (same.2 ∙ r)

  one_saved :
      (v w : Booking)
      → (v ≡ c) ⊎ In v bs
      → (w ≡ c) ⊎ In w bs
      → v.provider ≡ w.provider
      → v.provider_booking_reference ≡ w.provider_booking_reference
      → v.id ≡ w.id
  one_saved v w (inl e) (inl f) p r = ap (λ z. z.id) (e ∙ sym f)
  one_saved v w (inl e) (inr j) p r =
      ap (λ z. z.id) e
      ∙ own_row w j (sym (ap (λ z. z.provider) e) ∙ p)
          (sym (ap (λ z. z.provider_booking_reference) e) ∙ r)
  one_saved v w (inr i) (inl f) p r =
      sym (
        own_row v i (sym (ap (λ z. z.provider) f) ∙ sym p)
          (sym (ap (λ z. z.provider_booking_reference) f) ∙ sym r))
      ∙ sym (ap (λ z. z.id) f)
  one_saved v w (inr i) (inr j) p r = table.one_row v w i j p r

  saved_cases :
      (v : Booking) → In v (map (λ row. if row.id == c.id then c else row) bs) → (v ≡ c) ⊎ In v bs
  saved_cases v i =
      let (y, j, e) = In-map (λ row. if row.id == c.id then c else row) v bs i in
      rw e (saved_row y j)

  pub saved-IsTable : IsTable (map (λ row. if row.id == c.id then c else row) bs)
  saved-IsTable = record {
    one_row = λ v w i j p r. one_saved v w (saved_cases v i) (saved_cases w j) p r;
  }

pub save_booking-IsTable :
    (db : Db) (c x : Booking)
    → IsTable db.bookings
    → In x db.bookings
    → SameIdentity x c
    → IsTable (save_booking db c).bookings
unfolding save_booking
save_booking-IsTable db c x table stored same = saved-IsTable db.bookings c x table stored same
