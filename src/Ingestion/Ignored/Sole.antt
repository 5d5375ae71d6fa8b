-- ===== src/Ingestion/Ignored/Sole.antt =====
-- The bookings that only one email made.
use ticketmirror.Base.{
  String, ◌≡◌, ◌≢◌, refl, sym, ◌∙◌, ◌↔◌, inl, inr, Bool, true, false, not, ◌&&◌, Option, none, some,
  In, arith, str_eq, eq_iff, any, Bool-cases, if◌then◌else◌,
}
use ticketmirror.Base.Membership.{any-In, In-any}
use ticketmirror.Data.{
  Db, Booking, RawEmail, BookingEvent, Value, status, Status, cancelled, rejected,
  duplicate_ignored, as_status, opt_eq, opt_eq→eq, opt_eq_refl,
}
use ticketmirror.Bookings.Capacity.{test_status, status_in}
use ticketmirror.Bookings.Reviews.{has_text}
use ticketmirror.Ingestion.Ignored.{
  is_settled, is_event_of, has_other_events, other_thread, safe_to_cancel_ignored_raw_email_booking,
}
use ticketmirror.Ingestion.Ignored.Hits.{safe}

-- The email has an event of the booking, and cancelling it is safe.
unfoldable pub is_false_booking : Db → RawEmail → Booking → Bool
unfolding safe is_event_of
is_false_booking db raw b =
    any (λ e. is_event_of b e && opt_eq e.raw_email (some raw.id)) db.events && safe db b raw

-- No more than one of the two has a mail thread, or they have the same.
abbrev pub SameThread : Option String → Option String → Type 0
SameThread mine theirs = (s t : String) → mine ≡ some s → theirs ≡ some t → s ≢ "" → t ≢ "" → t ≡ s

-- A booking that only the email made: it has an event, all its events are of the email, its status
-- is none of the settled ones, and it is of no other mail thread.
pub record IsFalseBooking (db : Db) (raw : RawEmail) (b : Booking) : Type 0 where
  pub event : BookingEvent
  pub stored : In event db.events
  pub of_booking : event.booking ≡ some b.id
  pub only : (e : BookingEvent) → In e db.events → e.booking ≡ some b.id → e.raw_email ≡ some raw.id
  pub live :
      (b.columns "status" ≢ status cancelled)
      × (b.columns "status" ≢ status rejected)
      × (b.columns "status" ≢ status duplicate_ignored)
  pub thread : SameThread raw.gmail_thread_id b.source_thread_id

live_value :
    (v : Value)
    → v ≢ status cancelled
    → v ≢ status rejected
    → v ≢ status duplicate_ignored
    → test_status is_settled (as_status v) ≡ false
live_value (status cancelled) c r d = absurd (c refl)
live_value (status rejected) c r d = absurd (r refl)
live_value (status duplicate_ignored) c r d = absurd (d refl)
live_value (status _) c r d = refl
live_value _ c r d = refl

settled_value :
    (v : Value) (s : Status)
    → is_settled s ≡ true
    → test_status is_settled (as_status v) ≡ false
    → v ≢ status s
settled_value v s t f e = let q : is_settled s ≡ false = rw e at f in cc

same_thread :
    (mine theirs : Option String) → SameThread mine theirs → other_thread mine theirs ≡ false
same_thread none theirs h = refl
same_thread (some s) none h = refl
same_thread (some s) (some t) h = elim (Bool-cases (str_eq s "")) [
  | inl e ↦ rw e refl
  | inr e ↦ elim (Bool-cases (str_eq t "")) [
    | inl f ↦ rw (e, f) refl
    | inr f ↦
        let q : t ≡ s = h s t refl refl (not_blank s e) (not_blank t f) in
        rw (e, f, (eq_iff t s).1 q) refl
  ]
]
  where
    not_blank : (x : String) → str_eq x "" ≡ false → x ≢ ""
    not_blank x e q = let c : true ≡ false = sym ((eq_iff x "").1 q) ∙ e in cc

other_thread-SameThread :
    (mine theirs : Option String) → other_thread mine theirs ≡ false → SameThread mine theirs
other_thread-SameThread mine theirs h s t p q m n =
    let k : (has_text s && (has_text t && not (str_eq t s))) ≡ false = rw (p, q) at h in
    (eq_iff t s).0 (named (str_eq s "") (str_eq t "") (str_eq t s) k (blank s m) (blank t n))
  where
    blank : (x : String) → x ≢ "" → str_eq x "" ≡ false
    blank x m = elim (Bool-cases (str_eq x "")) [
      | inl e ↦ absurd (m ((eq_iff x "").0 e))
      | inr e ↦ e
    ]

    named : (a b c : Bool) → (not a && (not b && not c)) ≡ false → a ≡ false → b ≡ false → c ≡ true
    named a b c h p q = ground arith

-- The parts of the test.
split_test :
    (a s o t : Bool)
    → (a && (if s then false else if o then false else not t)) ≡ true
    → (a ≡ true) × (s ≡ false) × (o ≡ false) × (t ≡ false)
split_test true false false false h = (refl, refl, refl, refl)
split_test _ _ _ _ h = cc

no_other :
    (db : Db) (raw : RawEmail) (b : Booking)
    → has_other_events db b raw ≡ false
    → (e : BookingEvent) → In e db.events
    → e.booking ≡ some b.id
    → e.raw_email ≡ some raw.id
unfolding has_other_events is_event_of
no_other db raw b f e i q = elim (Bool-cases (opt_eq e.raw_email (some raw.id))) [
  | inl t ↦ opt_eq→eq _ _ t
  | inr n ↦
      let own : opt_eq e.booking (some b.id) ≡ true = rw q (opt_eq_refl (some b.id)) in
      let hit : (opt_eq e.booking (some b.id) && not (opt_eq e.raw_email (some raw.id))) ≡ true =
        rw (own, n) refl in
      let c : true ≡ false = sym (any-In _ e db.events i hit) ∙ f in cc
]

none_other :
    (db : Db) (raw : RawEmail) (b : Booking)
    → ((e : BookingEvent) → In e db.events → e.booking ≡ some b.id → e.raw_email ≡ some raw.id)
    → has_other_events db b raw ≡ false
unfolding has_other_events is_event_of
none_other db raw b h = elim (Bool-cases (has_other_events db b raw)) [
  | inr f ↦ f
  | inl t ↦
      let (e, i, k) =
        In-any (λ e. is_event_of b e && not (opt_eq e.raw_email (some raw.id))) db.events t in
      let (own, other) = both (opt_eq e.booking (some b.id)) (opt_eq e.raw_email (some raw.id)) k in
      let q : opt_eq e.raw_email (some raw.id) ≡ true =
        rw (h e i (opt_eq→eq _ _ own)) (opt_eq_refl (some raw.id)) in
      cc
]
  where
    both : (x y : Bool) → (x && not y) ≡ true → (x ≡ true) × (y ≡ false)
    both x y k = ground arith

pub is_false_booking_iff :
    (db : Db) (raw : RawEmail) (b : Booking)
    → (is_false_booking db raw b ≡ true) ↔ IsFalseBooking db raw b
unfolding is_false_booking is_event_of safe safe_to_cancel_ignored_raw_email_booking status_in
is_false_booking_iff db raw b = (
  (λ t.
      let (made, settled, others, thread) =
        split_test (any (λ e. is_event_of b e && opt_eq e.raw_email (some raw.id)) db.events)
          (status_in is_settled b) (has_other_events db b raw)
          (other_thread raw.gmail_thread_id b.source_thread_id) t in
      let (e, i, k) =
        In-any (λ e. is_event_of b e && opt_eq e.raw_email (some raw.id)) db.events made in
      let own : opt_eq e.booking (some b.id) ≡ true = ground arith in
      record {
        event = e;
        stored = i;
        of_booking = opt_eq→eq _ _ own;
        only = no_other db raw b others;
        live = (
          settled_value _ cancelled refl settled,
          settled_value _ rejected refl settled,
          settled_value _ duplicate_ignored refl settled,
        );
        thread = other_thread-SameThread _ _ thread;
      }),
  (λ h.
      let own : opt_eq h.event.booking (some b.id) ≡ true =
        rw h.of_booking (opt_eq_refl (some b.id)) in
      let mine : opt_eq h.event.raw_email (some raw.id) ≡ true =
        rw (h.only h.event h.stored h.of_booking) (opt_eq_refl (some raw.id)) in
      let made : any (λ e. is_event_of b e && opt_eq e.raw_email (some raw.id)) db.events ≡ true =
        any-In (λ e. is_event_of b e && opt_eq e.raw_email (some raw.id)) h.event db.events h.stored
          (rw (own, mine) refl) in
      let settled : status_in is_settled b ≡ false =
        live_value (b.columns "status") h.live.0 h.live.1 h.live.2 in
      rw (made, settled, none_other db raw b h.only, same_thread _ _ h.thread) refl),
)
