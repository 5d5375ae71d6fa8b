-- ===== src/Commands/Stale/Over.antt =====
-- When an open review no longer stands: `_is_obsolete`.
use ticketmirror.Base.{
  ℕ, ◌≡◌, refl, sym, ◌∙◌, ap, ◌⊎◌, inl, inr, ◌↔◌, true, Option, none, some, ◌==◌, ==_iff, In,
  find?-some, Bool-cases,
}
use ticketmirror.Data.{Db, Booking, ReviewQueueItem}
use ticketmirror.Bookings.Reviews.{candidates, review_issue_is_obsolete_for_context}
use ticketmirror.Bookings.Reviews.Answered.{Answers, SettledByEmail, obsolete_for_any_iff}
use ticketmirror.Ingestion.Followup.{row_of_booking, row_of_email}
use ticketmirror.Commands.Stale.Sweep.{booking_from_raw_email, is_obsolete}
use ticketmirror.Commands.Stale.Latest.{IsLatest, booking_from_raw_email_iff}

-- The booking of the review, or the one that its email was last about.
pub data Concerns (db : Db) (r : ReviewQueueItem) (b : Booking) : Type 0 where
  of_review : row_of_booking db r.booking ≡ some b → Concerns db r b
  of_email : (id : ℕ) → r.raw_email ≡ some id → IsLatest db id b → Concerns db r b

-- The email of the review settles it, or a booking that it concerns has what it says is missing.
abbrev pub IsOver : Db → ReviewQueueItem → Type 0
IsOver db r =
    SettledByEmail r.issue_type (row_of_email db r.raw_email)
    ⊎ (b : Booking) × Concerns db r b
      × Answers db (row_of_email db r.raw_email) r.title r.issue_type b

some_booking : (x y : Booking) → some x ≡ some y → x ≡ y
some_booking x y e = cc

same_row :
    (db : Db) (m n : Option ℕ) (b c : Booking)
    → row_of_booking db m ≡ some b
    → row_of_booking db n ≡ some c
    → c.id ≡ b.id
    → c ≡ b
same_row db none n b c e f q = cc
same_row db (some m) none b c e f q = cc
same_row db (some m) (some n) b c e f q =
    let (_, t) = find?-some (λ x. x.id == m) b db.bookings e in
    let (_, u) = find?-some (λ x. x.id == n) c db.bookings f in
    let k : n ≡ m = sym ((==_iff c.id n).0 u) ∙ (q ∙ (==_iff b.id m).0 t) in
    let g : row_of_booking db (some m) ≡ some c = rw (← k) f in some_booking c b (sym g ∙ e)

In-candidates :
    (c : Booking) (o p : Option Booking) → In c (candidates o p) → (o ≡ some c) ⊎ (p ≡ some c)
In-candidates c none none i = absurd i
In-candidates c none (some y) (inl e) = inr (ap some (sym e))
In-candidates c none (some y) (inr j) = absurd j
In-candidates c (some x) none (inl e) = inl (ap some (sym e))
In-candidates c (some x) none (inr j) = absurd j
In-candidates c (some x) (some y) i = elim (Bool-cases (y.id == x.id)) [
  | inl t ↦ elim (rw t at i) [ inl e ↦ inl (ap some (sym e)) | inr j ↦ absurd j ]
  | inr f ↦ elim (rw f at i) [
    | inl e ↦ inl (ap some (sym e))
    | inr j ↦ elim j [ inl e ↦ inr (ap some (sym e)) | inr k ↦ absurd k ]
  ]
]

candidates-first : (c : Booking) (o p : Option Booking) → o ≡ some c → In c (candidates o p)
candidates-first c none p e = cc
candidates-first c (some x) none e = inl (some_booking c x (sym e))
candidates-first c (some x) (some y) e = elim (Bool-cases (y.id == x.id)) [
  | inl t ↦ rw t (inl (some_booking c x (sym e)))
  | inr f ↦ rw f (inl (some_booking c x (sym e)))
]

candidates-second :
    (c : Booking) (o p : Option Booking)
    → ((b : Booking) → o ≡ some b → c.id ≡ b.id → c ≡ b)
    → p ≡ some c
    → In c (candidates o p)
candidates-second c o none h e = cc
candidates-second c none (some y) h e = inl (some_booking c y (sym e))
candidates-second c (some x) (some y) h e =
    let q : c ≡ y = some_booking c y (sym e) in
    elim (Bool-cases (y.id == x.id)) [
      | inl t ↦ rw t (inl (h x refl (ap (λ z. z.id) q ∙ (==_iff y.id x.id).0 t)))
      | inr f ↦ rw f (inr (inl q))
    ]

email_of :
    (db : Db) (o : Option ℕ) (b : Booking)
    → booking_from_raw_email db o ≡ some b
    → (id : ℕ) × (o ≡ some id) × IsLatest db id b
email_of db none b e = cc
email_of db (some id) b e = (id, refl, (booking_from_raw_email_iff db id b).0 e)

row_of_latest :
    (db : Db) (id : ℕ) (b : Booking)
    → IsLatest db id b
    → (n : Option ℕ) × (row_of_booking db n ≡ some b)
row_of_latest db id b l = (l.event.booking, l.row)

concerned :
    (db : Db) (r : ReviewQueueItem) (b : Booking)
    → In b (candidates (row_of_booking db r.booking) (booking_from_raw_email db r.raw_email))
      ↔ Concerns db r b
concerned db r b = (
  (λ i. elim (In-candidates b _ _ i) [
    | inl e ↦ of_review e
    | inr e ↦ let (id, q, l) = email_of db r.raw_email b e in of_email id q l
  ]),
  (λ c. elim c [
    | of_review e ↦ candidates-first b _ _ e
    | of_email id q l ↦
        let found : booking_from_raw_email db r.raw_email ≡ some b =
          rw q ((booking_from_raw_email_iff db id b).1 l) in
        candidates-second b _ _
          (λ x e p. let (n, row) = row_of_latest db id b l in same_row db r.booking n x b e row p)
          found
  ]),
)

-- The test of the command finds exactly the reviews that no longer stand.
pub is_obsolete_iff : (db : Db) (r : ReviewQueueItem) → (is_obsolete db r ≡ true) ↔ IsOver db r
unfolding is_obsolete review_issue_is_obsolete_for_context
is_obsolete_iff db r =
    let cs = candidates (row_of_booking db r.booking) (booking_from_raw_email db r.raw_email) in
    let test = obsolete_for_any_iff db (row_of_email db r.raw_email) r.title r.issue_type cs in
    (
      (λ h. elim (test.0 h) [ inl x ↦ inl x | inr (b, i, a) ↦ inr (b, (concerned db r b).0 i, a) ]),
      (λ o. elim o [
        | inl x ↦ test.1 (inl x)
        | inr (b, c, a) ↦ test.1 (inr (b, (concerned db r b).1 c, a))
      ]),
    )
