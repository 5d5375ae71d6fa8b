-- ===== src/Ingestion/Identity/Promotion.antt =====
-- A booking takes over an identity only where that leaves every identity to one booking.
use ticketmirror.Base.{
  String, ◌≡◌, refl, sym, ap, ◌∙◌, ◌⊎◌, inl, inr, Bool, true, false, not, ◌&&◌, Option, none, some,
  List, [], ◌∷◌, ◌==◌, ==_iff, In, arith, str_eq, eq_iff, eq_refl, find?, find?-none, map,
  Bool-cases,
}
use ticketmirror.Base.Result.{ok}
use ticketmirror.Data.{
  Db, Provider, Booking, SameIdentity, Value, RawEmail, possible_duplicate, duplicate_of,
}
use ticketmirror.Bookings.Queue.{Key}
use ticketmirror.Bookings.Queue.OneOpen.{IsQueue, count, create_review_item-IsStored}
use ticketmirror.Bookings.Reviews.{provider_code}
use ticketmirror.Bookings.Rows.{has_identity}
use ticketmirror.Ingestion.Parsed.{ParsedBooking}
use ticketmirror.Ingestion.Update.{create_booking_event}
use ticketmirror.Ingestion.Identity.{
  identity_changes, save_identity, move_identity, promote_or_report, promote_changes,
  promote_booking_identity_if_needed,
}

-- Rows under the same provider and reference are one row.
pub record IsTable (bs : List Booking) : Type 0 where
  pub one_row :
      (b c : Booking)
      → In b bs
      → In c bs
      → b.provider ≡ c.provider
      → b.provider_booking_reference ≡ c.provider_booking_reference
      → b.id ≡ c.id

abbrev pub duplicate_key : RawEmail → Booking → Key
duplicate_key raw b = record {
  raw_email = some raw.id;
  booking = some b.id;
  issue_type = possible_duplicate;
}

-- What the promotion gives, in the database `r.1`.
pub record IsPromoted (db : Db) (b : Booking) (provider : Provider) (reference : String)
    (raw : RawEmail) (r : Booking × Db) : Type 0 where
  pub table : IsTable r.1.bookings
  pub queue : IsQueue r.1.reviews
  pub raw_emails : r.1.raw_emails ≡ db.raw_emails
  pub same_row : (r.0.id ≡ b.id) × (r.0.columns ≡ b.columns)
  pub overrides : r.0.manual_override_fields ≡ b.manual_override_fields
  -- The booking has a stored row under its identity, if it had one.
  pub present : In b db.bookings → (x : Booking) × In x r.1.bookings × SameIdentity x r.0
  -- The booking has the identity, or another one has it and one open review says so.
  pub outcome :
      ((r.0.provider ≡ provider.id) × (r.0.provider_booking_reference ≡ reference))
      ⊎ ((r.1.bookings ≡ db.bookings) × (count (duplicate_key raw b) r.1.reviews ≡ 1))

pub In-map :
    {A B : Type 0} (f : A → B) (y : B) (xs : List A)
    → In y (map f xs)
    → (x : A) × In x xs × (y ≡ f x)
In-map f y [] i = absurd i
In-map f y (x ∷ xs) (inl e) = (x, inl refl, e)
In-map f y (x ∷ xs) (inr i) = let (z, j, e) = In-map f y xs i in (z, inr j, e)

no_changes :
    (db : Db) (b : Booking) (provider : Provider) (reference : String)
    → identity_changes db b provider reference ≡ []
    → (b.provider ≡ provider.id) × (b.provider_booking_reference ≡ reference)
unfolding identity_changes
no_changes db b provider reference h = elim (Bool-cases (b.provider == provider.id)) [
  | inr p ↦ let q = rw p at h in cc
  | inl p ↦ elim (Bool-cases (str_eq b.provider_booking_reference reference)) [
    | inr r ↦ let q = rw (p, r) at h in cc
    | inl r ↦
        ((==_iff b.provider provider.id).0 p, (eq_iff b.provider_booking_reference reference).0 r)
  ]
]

-- A row after the identity of `c` was saved: that of `c`'s own row is new.
Moved : Booking → Booking → Booking → Type 0
Moved c x y =
    ((x.id ≡ c.id)
      × (y.id ≡ x.id)
      × (y.provider ≡ c.provider)
      × (y.provider_booking_reference ≡ c.provider_booking_reference))
    ⊎ ((x.id == c.id) ≡ false) × (y ≡ x)

save_identity-Moved : (c x : Booking) → Moved c x (save_identity c x)
unfolding save_identity Moved
save_identity-Moved c x = elim (Bool-cases (x.id == c.id)) [
  | inl e ↦ rw e (inl ((==_iff x.id c.id).0 e, refl, refl, refl))
  | inr e ↦ rw e (inr (refl, refl))
]

module _ (bs : List Booking) (c : Booking) (table : IsTable bs)
    (free : (y : Booking)
      → In y bs
      → has_identity c.provider c.provider_booking_reference y ≡ true
      → y.id ≡ c.id) where
  taken :
      (y : Booking)
      → In y bs
      → y.provider ≡ c.provider
      → y.provider_booking_reference ≡ c.provider_booking_reference
      → y.id ≡ c.id
  unfolding has_identity
  taken y i p r =
      free y i (
        rw (p, r, (==_iff c.provider c.provider).1 refl, eq_refl c.provider_booking_reference) refl)

  one-Moved :
      (x y v w : Booking)
      → In x bs
      → In y bs
      → Moved c x v
      → Moved c y w
      → v.provider ≡ w.provider
      → v.provider_booking_reference ≡ w.provider_booking_reference
      → v.id ≡ w.id
  unfolding Moved
  one-Moved x y v w i j (inl (m, k, _, _)) (inl (n, l, _, _)) p r = k ∙ (m ∙ sym (l ∙ n))
  one-Moved x y v w i j (inl (m, k, a, b)) (inr (n, e)) p r =
      let q : y.id ≡ c.id =
        taken y j (sym (ap (λ z. z.provider) e) ∙ (sym p ∙ a))
          (sym (ap (λ z. z.provider_booking_reference) e) ∙ (sym r ∙ b)) in
      k ∙ (m ∙ (sym q ∙ sym (ap (λ z. z.id) e)))
  one-Moved x y v w i j (inr (n, e)) (inl (m, k, a, b)) p r =
      let q : x.id ≡ c.id =
        taken x i (sym (ap (λ z. z.provider) e) ∙ (p ∙ a))
          (sym (ap (λ z. z.provider_booking_reference) e) ∙ (r ∙ b)) in
      ap (λ z. z.id) e ∙ (q ∙ sym (k ∙ m))
  one-Moved x y v w i j (inr (m, e)) (inr (n, f)) p r =
      ap (λ z. z.id) e
      ∙ (table.one_row x y i j (sym (ap (λ z. z.provider) e) ∙ (p ∙ ap (λ z. z.provider) f)) (
            sym (ap (λ z. z.provider_booking_reference) e)
            ∙ (r ∙ ap (λ z. z.provider_booking_reference) f))
          ∙ sym (ap (λ z. z.id) f))

  moved-IsTable : IsTable (map (save_identity c) bs)
  moved-IsTable = record {
    one_row = λ v w i j p r.
        let (x, xi, e) = In-map (save_identity c) v bs i in
        let (y, yi, f) = In-map (save_identity c) w bs j in
        one-Moved x y v w xi yi (rw e (save_identity-Moved c x)) (rw f (save_identity-Moved c y)) p
          r;
  }

map-In : {A : Type 0} (f : A → A) (x : A) (xs : List A) → In x xs → In (f x) (map f xs)
map-In f x [] i = absurd i
map-In f x (y ∷ ys) (inl e) = inl (ap f e)
map-In f x (y ∷ ys) (inr i) = inr (map-In f x ys i)

own_row : (c x : Booking) → x.id ≡ c.id → SameIdentity (save_identity c x) c
unfolding save_identity
own_row c x e = rw ((==_iff x.id c.id).1 e) (e, refl, refl)

module _ (db : Db) (b : Booking) (provider : Provider) (reference : String) (raw : RawEmail)
    (table : IsTable db.bookings) (queue : IsQueue db.reviews) where
  promote_or_report-IsPromoted :
      (changes : List (String × (Value × Value))) (o : Option Booking)
      → find? (λ x. has_identity provider.id reference x && not (x.id == b.id)) db.bookings ≡ o
      → (r : Booking × Db) × (promote_or_report db b provider reference raw changes o ≡ ok r)
        × IsPromoted db b provider reference raw r
  unfolding promote_or_report move_identity create_booking_event
  promote_or_report-IsPromoted changes none h =
      let c = record b { provider = provider.id; provider_booking_reference = reference } in
      (
        move_identity db b provider reference raw changes,
        refl,
        record {
          table = moved-IsTable db.bookings c table (λ y i t.
              let f =
                find?-none (λ x. has_identity provider.id reference x && not (x.id == b.id)) y
                  db.bookings h i in
              (==_iff y.id b.id).0
                (only_row (has_identity provider.id reference y) (y.id == b.id) t f));
          queue = queue;
          raw_emails = refl;
          same_row = (refl, refl);
          overrides = refl;
          present =
              λ i. (save_identity c b, map-In (save_identity c) b db.bookings i, own_row c b refl);
          outcome = inl (refl, refl);
        },
      )
    where
      only_row : (x y : Bool) → x ≡ true → (x && not y) ≡ false → y ≡ true
      only_row x y t f = ground arith
  promote_or_report-IsPromoted changes (some conflict) h =
      let stored =
        create_review_item-IsStored db (duplicate_key raw b) "Cross-channel duplicate candidate"
          (duplicate_of (provider_code db conflict.provider) conflict.provider_booking_reference)
          queue in
      (
        (b, stored.db),
        rw stored.stored refl,
        record {
          table = rw stored.bookings table;
          queue = stored.queue;
          raw_emails = stored.raw_emails;
          same_row = (refl, refl);
          overrides = refl;
          present = λ i. (b, rw stored.bookings i, (refl, refl, refl));
          outcome = inr (stored.bookings, stored.once);
        },
      )

  promote_changes-IsPromoted :
      (changes : List (String × (Value × Value)))
      → (changes ≡ [] → (b.provider ≡ provider.id) × (b.provider_booking_reference ≡ reference))
      → (r : Booking × Db) × (promote_changes db b provider reference raw changes ≡ ok r)
        × IsPromoted db b provider reference raw r
  unfolding promote_changes
  promote_changes-IsPromoted [] h = (
    (b, db),
    refl,
    record {
      table = table;
      queue = queue;
      raw_emails = refl;
      same_row = (refl, refl);
      overrides = refl;
      present = λ i. (b, i, (refl, refl, refl));
      outcome = inl (h refl);
    },
  )
  promote_changes-IsPromoted (c ∷ cs) h = promote_or_report-IsPromoted (c ∷ cs) _ refl

-- On a table where an identity has one booking, and a well-formed queue, the promotion of a booking to
-- an email's provider and reference succeeds and leaves them so. The booking keeps its row, its
-- columns and its overrides; it bears the identity afterwards, or no booking changed and exactly one
-- open review reports the duplicate.
pub promote_booking_identity_if_needed-IsPromoted :
    (db : Db) (b : Booking) (provider : Provider) (p : ParsedBooking) (raw : RawEmail)
    → IsTable db.bookings
    → IsQueue db.reviews
    → (r : Booking × Db) × (promote_booking_identity_if_needed db b provider p raw ≡ ok r)
      × IsPromoted db b provider p.provider_booking_reference raw r
unfolding promote_booking_identity_if_needed
promote_booking_identity_if_needed-IsPromoted db b provider p raw table queue =
    promote_changes-IsPromoted db b provider p.provider_booking_reference raw table queue
      (identity_changes db b provider p.provider_booking_reference)
      (no_changes db b provider p.provider_booking_reference)
