-- ===== src/Ingestion/Ignored/Hits.antt =====
-- The rows that the cancelling loop changes.
use ticketmirror.Base.{
  ℕ, String, ◌≡◌, refl, sym, ap, ◌∙◌, inl, inr, Bool, true, false, not, ◌&&◌, ◌||◌, some, List, [],
  ◌∷◌, ◌++◌, ◌==◌, ==_iff, In, arith, str_eq, any, map, Bool-cases,
}
use ticketmirror.Data.{Db, Booking, Booking-ext, status, cancelled, RawEmail, opt_eq}
use ticketmirror.Bookings.Overrides.{set_column}
use ticketmirror.Ingestion.Update.{create_booking_event}
use ticketmirror.Ingestion.Ignored.{
  is_event_of, has_other_events, safe_to_cancel_ignored_raw_email_booking, cancel_row,
  cancel_false_booking, cancel_each,
}

module _ {A : Type 0} (p : A → Bool) where
  pub any-In : (x : A) (xs : List A) → In x xs → p x ≡ true → any p xs ≡ true
  any-In x [] i e = absurd i
  any-In x (y ∷ ys) (inl q) e = rw (← q) (rw e refl)
  any-In x (y ∷ ys) (inr i) e = ground (arith, any-In x ys i e)

  pub any-some : (xs : List A) → any p xs ≡ true → (x : A) × In x xs × (p x ≡ true)
  any-some [] h = cc
  any-some (y ∷ ys) h = elim (Bool-cases (p y)) [
    | inl e ↦ (y, inl refl, e)
    | inr e ↦ let (x, i, q) = any-some ys (rw e at h) in (x, inr i, q)
  ]

  pub any-append : (xs : List A) (y : A) → any p (xs ++ y ∷ []) ≡ (any p xs || p y)
  any-append [] y = ground arith
  any-append (x ∷ xs) y = ground (arith, any-append xs y)

pub map_cong :
    {A : Type 0} (f g : A → A) (xs : List A) → ((x : A) → In x xs → f x ≡ g x) → map f xs ≡ map g xs
map_cong f g [] h = refl
map_cong f g (x ∷ xs) h = rw (h x (inl refl), map_cong f g xs (λ y i. h y (inr i))) refl

pub map-map : {A : Type 0} (f g : A → A) (xs : List A) → map f (map g xs) ≡ map (λ x. f (g x)) xs
map-map f g [] = refl
map-map f g (x ∷ xs) = ap (λ ys. f (g x) ∷ ys) (map-map f g xs)

-- Every row has its own id.
pub record HasIds (bs : List Booking) : Type 0 where
  pub one_row : (b c : Booking) → In b bs → In c bs → b.id ≡ c.id → b ≡ c

unfoldable pub cancel : Booking → Booking
unfolding set_column
cancel b = set_column b "status" (status cancelled)

pub cancel_twice : (b : Booking) → cancel (cancel b) ≡ cancel b
unfolding cancel set_column
cancel_twice b =
    Booking-ext (cancel (cancel b)) (cancel b) (refl, refl, refl) (refl, refl) refl same
  where
    same : (j : String) → (cancel (cancel b)).columns j ≡ (cancel b).columns j
    same j = elim (Bool-cases (str_eq "status" j)) [ inl e ↦ rw e refl | inr e ↦ rw e refl ]

unfoldable pub safe : Db → Booking → RawEmail → Bool
unfolding safe_to_cancel_ignored_raw_email_booking
safe db b raw = safe_to_cancel_ignored_raw_email_booking db b raw

-- A cancellation adds an event of the email, so the other events are those of before.
pub same_others :
    (db : Db) (b c : Booking) (raw : RawEmail) (reason : String)
    → has_other_events (cancel_false_booking db b raw reason) c raw ≡ has_other_events db c raw
unfolding has_other_events cancel_false_booking create_booking_event is_event_of
same_others db b c raw reason =
    any-append (λ e. is_event_of c e && not (opt_eq e.raw_email (some raw.id))) db.events _
    ∙ rw ((==_iff raw.id raw.id).1 refl) (
        nothing_added
          (any (λ e. is_event_of c e && not (opt_eq e.raw_email (some raw.id))) db.events)
          (opt_eq (some b.id) (some c.id)))
  where
    nothing_added : (x y : Bool) → (x || (y && false)) ≡ x
    nothing_added x y = ground arith

pub same_safe :
    (db : Db) (b c : Booking) (raw : RawEmail) (reason : String)
    → safe (cancel_false_booking db b raw reason) c raw ≡ safe db c raw
unfolding safe safe_to_cancel_ignored_raw_email_booking
same_safe db b c raw reason = rw (same_others db b c raw reason) refl

-- The rows that the loop over `bs` cancels, by the state in which it starts.
unfoldable pub is_hit : Db → List Booking → RawEmail → Booking → Bool
unfolding safe
is_hit db bs raw row = any (λ b. b.id == row.id && safe db b raw) bs

unfoldable pub cancel_if : Bool → Booking → Booking
unfolding cancel
cancel_if true row = cancel row
cancel_if false row = row

pub same_hit :
    (db : Db) (b : Booking) (bs : List Booking) (raw : RawEmail) (reason : String) (row : Booking)
    → is_hit (cancel_false_booking db b raw reason) bs raw row ≡ is_hit db bs raw row
unfolding is_hit
same_hit db b [] raw reason row = refl
same_hit db b (c ∷ bs) raw reason row =
    rw (same_safe db b c raw reason, same_hit db b bs raw reason row) refl

pub ==_swap : (m n : ℕ) → (m == n) ≡ false → (n == m) ≡ false
==_swap m n h = ground arith

pub hit_row :
    (db : Db) (b : Booking) (bs : List Booking) (raw : RawEmail) (row : Booking)
    → safe db b raw ≡ true
    → cancel_if (is_hit db bs raw row) (cancel_row b.id row)
      ≡ cancel_if (is_hit db (b ∷ bs) raw row) row
unfolding cancel_if cancel cancel_row is_hit
hit_row db b bs raw row h = elim (Bool-cases (row.id == b.id)) [
  | inl e ↦
      let q : (b.id == row.id) ≡ true = (==_iff b.id row.id).1 (sym ((==_iff row.id b.id).0 e)) in
      elim (Bool-cases (any (λ c. c.id == row.id && safe db c raw) bs)) [
        | inl t ↦ rw (e, q, h, t) (cancel_twice row)
        | inr t ↦ rw (e, q, h, t) refl
      ]
  | inr e ↦ rw (e, ==_swap row.id b.id e) refl
]

pub hit-cancel_row :
    (db : Db) (bs : List Booking) (raw : RawEmail) (id : ℕ) (row : Booking)
    → is_hit db bs raw (cancel_row id row) ≡ is_hit db bs raw row
unfolding cancel_row is_hit
hit-cancel_row db bs raw id row = ap (λ n. any (λ b. b.id == n && safe db b raw) bs) same_id
  where
    same_id : (cancel_row id row).id ≡ row.id
    same_id = elim (Bool-cases (row.id == id)) [ inl e ↦ rw e refl | inr e ↦ rw e refl ]

pub rebased :
    (db : Db) (b : Booking) (bs : List Booking) (raw : RawEmail) (reason : String)
    → map
        (λ row. cancel_if (is_hit (cancel_false_booking db b raw reason) bs raw row) row)
        (cancel_false_booking db b raw reason).bookings
      ≡ map (λ row. cancel_if (is_hit db bs raw row) (cancel_row b.id row)) db.bookings
unfolding cancel_false_booking create_booking_event
rebased db b bs raw reason =
    map-map (λ row. cancel_if (is_hit (cancel_false_booking db b raw reason) bs raw row) row)
      (cancel_row b.id) db.bookings
    ∙ map_cong _ _ db.bookings (λ row _. rehit row)
  where
    rehit :
        (row : Booking)
        → cancel_if
            (is_hit (cancel_false_booking db b raw reason) bs raw (cancel_row b.id row))
            (cancel_row b.id row)
          ≡ cancel_if (is_hit db bs raw row) (cancel_row b.id row)
    rehit row =
        ap (λ t. cancel_if t (cancel_row b.id row))
          (same_hit db b bs raw reason (cancel_row b.id row) ∙ hit-cancel_row db bs raw b.id row)

pub step_safe :
    (db : Db) (b : Booking) (bs : List Booking) (raw : RawEmail) (reason : String)
    → safe db b raw ≡ true
    → cancel_each db (b ∷ bs) raw reason
      ≡ cancel_each (cancel_false_booking db b raw reason) bs raw reason
unfolding cancel_each safe
step_safe db b bs raw reason e = rw e refl

pub step_unsafe :
    (db : Db) (b : Booking) (bs : List Booking) (raw : RawEmail) (reason : String)
    → safe db b raw ≡ false
    → cancel_each db (b ∷ bs) raw reason ≡ cancel_each db bs raw reason
unfolding cancel_each safe
step_unsafe db b bs raw reason e = rw e refl

pub missed :
    (db : Db) (b : Booking) (bs : List Booking) (raw : RawEmail) (row : Booking)
    → safe db b raw ≡ false
    → cancel_if (is_hit db bs raw row) row ≡ cancel_if (is_hit db (b ∷ bs) raw row) row
unfolding is_hit
missed db b bs raw row e =
    ap (λ t. cancel_if t row)
      (rw e (or_skip (b.id == row.id) (any (λ c. c.id == row.id && safe db c raw) bs)))
  where
    or_skip : (x y : Bool) → y ≡ (x && false || y)
    or_skip x y = ground arith

pub cancel_each-bookings :
    (db : Db) (bs : List Booking) (raw : RawEmail) (reason : String)
    → (cancel_each db bs raw reason).bookings
      ≡ map (λ row. cancel_if (is_hit db bs raw row) row) db.bookings
unfolding cancel_each cancel_if is_hit
cancel_each-bookings db [] raw reason = kept db.bookings
  where
    kept : (rows : List Booking) → rows ≡ map (λ row. row) rows
    kept [] = refl
    kept (row ∷ rows) = ap (λ xs. row ∷ xs) (kept rows)
cancel_each-bookings db (b ∷ bs) raw reason = elim (Bool-cases (safe db b raw)) [
  | inl e ↦
      ap (λ x. x.bookings) (step_safe db b bs raw reason e)
      ∙ (cancel_each-bookings (cancel_false_booking db b raw reason) bs raw reason
          ∙ (rebased db b bs raw reason
              ∙ map_cong _ _ db.bookings (λ row i. hit_row db b bs raw row e)))
  | inr e ↦
      ap (λ x. x.bookings) (step_unsafe db b bs raw reason e)
      ∙ (cancel_each-bookings db bs raw reason
          ∙ map_cong _ _ db.bookings (λ row i. missed db b bs raw row e))
]
