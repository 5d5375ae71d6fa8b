-- ===== src/Commands/Stale/Latest.antt =====
-- The booking that an email was last about: `_booking_from_raw_email`.
use ticketmirror.Base.{
  ℕ, ◌≡◌, refl, sym, ◌∙◌, ap, ◌⊎◌, inl, inr, ◌↔◌, Bool, true, false, ◌&&◌, Option, none, some, List,
  [], ◌∷◌, ◌++◌, In, filter, is_some, Bool-cases,
}
use ticketmirror.Data.{Db, Booking, BookingEvent, opt_eq, opt_eq→eq, opt_eq_refl}
use ticketmirror.Ingestion.Followup.{row_of_booking}
use ticketmirror.Commands.Stale.Sweep.{
  is_linked, last_event, booking_of_event, booking_from_raw_email,
}

-- The events end with the one given and others without the property.
pub record IsLast (P : BookingEvent → Type 0) (es : List BookingEvent) (e : BookingEvent)
    : Type 0 where
  pub before : List BookingEvent
  pub after : List BookingEvent
  pub split : es ≡ before ++ e ∷ after
  pub holds : P e
  pub later : (x : BookingEvent) → In x after → ¬ P x

-- The last event of the email that has a booking is of this one.
pub record IsLatest (db : Db) (raw_id : ℕ) (b : Booking) : Type 0 where
  pub event : BookingEvent
  pub last : IsLast (λ e. (e.raw_email ≡ some raw_id) × (is_some e.booking ≡ true)) db.events event
  pub row : row_of_booking db event.booking ≡ some b

linked_iff :
    (raw_id : ℕ) (e : BookingEvent)
    → (is_linked raw_id e ≡ true) ↔ ((e.raw_email ≡ some raw_id) × (is_some e.booking ≡ true))
linked_iff raw_id e = (
  (λ h.
      let (p, q) = both (opt_eq e.raw_email (some raw_id)) (is_some e.booking) h in
      (opt_eq→eq _ _ p, q)),
  (λ h.
      let p : opt_eq e.raw_email (some raw_id) ≡ true = rw h.0 (opt_eq_refl (some raw_id)) in
      rw (p, h.1) refl),
)
  where
    both : (x y : Bool) → (x && y) ≡ true → (x ≡ true) × (y ≡ true)
    both true y h = (refl, h)
    both false y h = cc

module _ (p : BookingEvent → Bool) where
  IsLastBy : List BookingEvent → BookingEvent → Type 0
  IsLastBy es e = IsLast (λ x. p x ≡ true) es e

  -- Either no later event has the property and the answer is the one so far, or it is the last.
  last_event-some :
      (es : List BookingEvent) (o : Option BookingEvent) (e : BookingEvent)
      → last_event o (filter p es) ≡ some e
      → (o ≡ some e) × ((x : BookingEvent) → In x es → p x ≡ false) ⊎ IsLastBy es e
  unfolding IsLastBy
  last_event-some [] o e h = inl (h, (λ x i. absurd i))
  last_event-some (y ∷ es) o e h = elim (Bool-cases (p y)) [
    | inl t ↦ elim (last_event-some es (some y) e (rw t at h)) [
      | inl k ↦
          let q : y ≡ e = cc in
          inr (record {
            before = [];
            after = es;
            split = ap (λ x. x ∷ es) q;
            holds = rw (← q) t;
            later = λ x i u. let c : true ≡ false = sym u ∙ k.1 x i in cc;
          })
      | inr l ↦ inr (pushed y es e l)
    ]
    | inr f ↦ elim (last_event-some es o e (rw f at h)) [
      | inl k ↦ inl (k.0, (λ x i. elim i [ inl q ↦ rw q f | inr j ↦ k.1 x j ]))
      | inr l ↦ inr (pushed y es e l)
    ]
  ]
    where
      pushed :
          (y : BookingEvent) (es : List BookingEvent) (e : BookingEvent)
          → IsLastBy es e
          → IsLastBy (y ∷ es) e
      pushed y es e l = record {
        before = y ∷ l.before;
        after = l.after;
        split = ap (λ xs. y ∷ xs) l.split;
        holds = l.holds;
        later = l.later;
      }

  none_left :
      (es : List BookingEvent) (o : Option BookingEvent)
      → ((x : BookingEvent) → In x es → ¬ (p x ≡ true))
      → last_event o (filter p es) ≡ o
  none_left [] o h = refl
  none_left (y ∷ es) o h = elim (Bool-cases (p y)) [
    | inl t ↦ absurd (h y (inl refl) t)
    | inr f ↦ rw f (none_left es o (λ x i. h x (inr i)))
  ]

  last_event-IsLast :
      (before after : List BookingEvent) (o : Option BookingEvent) (e : BookingEvent)
      → p e ≡ true
      → ((x : BookingEvent) → In x after → ¬ (p x ≡ true))
      → last_event o (filter p (before ++ e ∷ after)) ≡ some e
  last_event-IsLast [] after o e t h = rw t (none_left after (some e) h)
  last_event-IsLast (y ∷ before) after o e t h = elim (Bool-cases (p y)) [
    | inl u ↦ rw u (last_event-IsLast before after (some y) e t h)
    | inr f ↦ rw f (last_event-IsLast before after o e t h)
  ]

event-IsLatest :
    (db : Db) (raw_id : ℕ) (b : Booking) (o : Option BookingEvent)
    → last_event none (filter (is_linked raw_id) db.events) ≡ o
    → booking_of_event db o ≡ some b
    → IsLatest db raw_id b
unfolding IsLastBy
event-IsLatest db raw_id b none e h = cc
event-IsLatest db raw_id b (some event) e h =
    elim (last_event-some (is_linked raw_id) db.events none event e) [
      | inl k ↦ cc (k.0)
      | inr l ↦ record {
        event = event;
        last = record {
          before = l.before;
          after = l.after;
          split = l.split;
          holds = (linked_iff raw_id event).0 l.holds;
          later = λ x i q. l.later x i ((linked_iff raw_id x).1 q);
        };
        row = h;
      }
    ]

-- The booking found for an email is that of its last event with one.
pub booking_from_raw_email_iff :
    (db : Db) (raw_id : ℕ) (b : Booking)
    → (booking_from_raw_email db (some raw_id) ≡ some b) ↔ IsLatest db raw_id b
booking_from_raw_email_iff db raw_id b = (
  (λ h. event-IsLatest db raw_id b (last_event none (filter (is_linked raw_id) db.events)) refl h),
  (λ l.
      let found : last_event none
            (filter (is_linked raw_id) (l.last.before ++ l.event ∷ l.last.after))
          ≡ some l.event =
        last_event-IsLast (is_linked raw_id) l.last.before l.last.after none l.event
          ((linked_iff raw_id l.event).1 l.last.holds)
          (λ x i t. l.last.later x i ((linked_iff raw_id x).0 t)) in
      let here : last_event none (filter (is_linked raw_id) db.events) ≡ some l.event =
        rw l.last.split found in
      ap (booking_of_event db) here ∙ l.row),
)
