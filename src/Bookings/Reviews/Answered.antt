-- ===== src/Bookings/Reviews/Answered.antt =====
-- What answers an open review: `review_issue_is_obsolete` case by case.
use ticketmirror.Base.{
  ℕ, String, ◌≡◌, ◌≢◌, refl, ◌⊎◌, inl, inr, ◌↔◌, Bool, true, false, not, ◌&&◌, ◌||◌, Option, none,
  some, List, [], ◌∷◌, In, is_some, eq_iff, if◌then◌else◌,
}
use ticketmirror.Base.Membership.{any-In, In-any}
use ticketmirror.Data.{
  Db, Booking, Value, null, slot_type, full_day, half_day, value_eq, value_eq→eq, value_eq_refl,
  truthy, RawEmail, ParseStatus, ignored, IssueType, provider_not_detected, reference_missing,
  date_missing, time_missing, traveler_count_missing, lead_traveler_missing, provider_alias_missing,
  product_mismatch, low_confidence_parse,
}
use ticketmirror.Bookings.Reviews.{
  has_text, is_day_slot, booking_has_parsed_travel_date, booking_has_parsed_time,
  booking_has_parsed_traveler_count, booking_has_parsed_product, booking_provider_omits_lead_name,
  booking_has_required_parse_content, was_detected, was_ignored, is_ignored, obsolete_for_booking,
  obsolete_with, review_issue_is_obsolete, obsolete_for_any,
}

-- The column has a value that is not empty.
abbrev pub Filled : Booking → String → Type 0
Filled b name = truthy (b.columns name) ≡ true

abbrev pub HasDate : Booking → Type 0
HasDate b = Filled b "active_travel_date" ⊎ Filled b "provider_travel_date"

-- A time of day, or a slot that takes the day or half of it.
abbrev pub IsWhole : Value → Type 0
IsWhole v = (v ≡ slot_type full_day) ⊎ (v ≡ slot_type half_day)

abbrev pub HasTime : Booking → Type 0
HasTime b =
    Filled b "active_start_time"
    ⊎ (Filled b "provider_start_time"
        ⊎ (IsWhole (b.columns "active_slot_type") ⊎ IsWhole (b.columns "provider_slot_type")))

-- A count of zero is one.
abbrev pub HasCount : Booking → Type 0
HasCount b =
    (b.columns "active_traveler_count" ≢ null) ⊎ (b.columns "provider_traveler_count" ≢ null)

abbrev pub HasProduct : Booking → Type 0
HasProduct b = Filled b "activity" ⊎ Filled b "raw_product_name"

-- A name, or a provider that gives none.
abbrev pub HasLead : Db → Option RawEmail → Booking → Type 0
HasLead db raw b =
    Filled b "lead_traveler_name" ⊎ (booking_provider_omits_lead_name db raw b ≡ true)

-- The booking has what the review says is missing.
abbrev pub Answers : Db → Option RawEmail → String → IssueType → Booking → Type 0
Answers db raw title reference_missing b = b.provider_booking_reference ≢ ""
Answers db raw title provider_alias_missing b = Filled b "activity"
Answers db raw title product_mismatch b = Filled b "activity"
Answers db raw title date_missing b = HasDate b
Answers db raw title time_missing b = (title ≢ "Schedule slot needs confirmation") × HasTime b
Answers db raw title traveler_count_missing b = HasCount b
Answers db raw title lead_traveler_missing b = HasLead db raw b
Answers db raw title low_confidence_parse b =
    (b.provider_booking_reference ≢ "")
    × (HasProduct b × (HasDate b × (HasTime b × (HasCount b × HasLead db raw b))))
Answers db raw title _ b = ⊥

abbrev pub IsDetected : Option RawEmail → Type 0
IsDetected none = ⊥
IsDetected (some raw) = raw.provider_detected ≢ none

abbrev pub IsIgnoredEmail : Option RawEmail → Type 0
IsIgnoredEmail none = ⊥
IsIgnoredEmail (some raw) = raw.parse_status ≡ ignored

-- The email itself settles the review: its provider is known by now, or it is no booking.
abbrev pub SettledByEmail : IssueType → Option RawEmail → Type 0
SettledByEmail provider_not_detected raw = IsDetected raw
SettledByEmail reference_missing raw = IsIgnoredEmail raw
SettledByEmail _ raw = ⊥

abbrev Reflects : Bool → Type 0 → Type 0
Reflects b P = (b ≡ true) ↔ P

same-Reflects : (b : Bool) → Reflects b (b ≡ true)
same-Reflects b = ((λ h. h), (λ h. h))

never-Reflects : Reflects false ⊥
never-Reflects = ((λ h. cc), (λ h. absurd h))

or-Reflects : {a b : Bool} {P Q : Type 0} → Reflects a P → Reflects b Q → Reflects (a || b) (P ⊎ Q)
or-Reflects {a = true} p q = ((λ h. inl (p.0 refl)), (λ h. refl))
or-Reflects {a = false} p q = (
  (λ h. inr (q.0 h)),
  (λ h. elim h [ inl x ↦ (let c : false ≡ true = p.1 x in cc) | inr y ↦ q.1 y ]),
)

and-Reflects : {a b : Bool} {P Q : Type 0} → Reflects a P → Reflects b Q → Reflects (a && b) (P × Q)
and-Reflects {a = true} p q = ((λ h. (p.0 refl, q.0 h)), (λ h. q.1 h.1))
and-Reflects {a = false} p q = ((λ h. cc), (λ h. p.1 h.0))

not-Reflects : {a : Bool} {P : Type 0} → Reflects a P → Reflects (not a) (¬ P)
not-Reflects {a = true} p = ((λ h. cc), (λ h. absurd (h (p.0 refl))))
not-Reflects {a = false} p = ((λ h x. let c : false ≡ true = p.1 x in cc), (λ h. refl))

value-Reflects : (v w : Value) → Reflects (value_eq v w) (v ≡ w)
value-Reflects v w = (value_eq→eq v w, (λ e. rw e (value_eq_refl w)))

text-Reflects : (s : String) → Reflects (has_text s) (s ≢ "")
text-Reflects s = not-Reflects (eq_iff s "")

slot-Reflects : (v : Value) → Reflects (is_day_slot v) (IsWhole v)
slot-Reflects v =
    or-Reflects (value-Reflects v (slot_type full_day)) (value-Reflects v (slot_type half_day))

module _ (b : Booking) where
  date-Reflects : Reflects (booking_has_parsed_travel_date b) (HasDate b)
  unfolding booking_has_parsed_travel_date
  date-Reflects = or-Reflects (same-Reflects _) (same-Reflects _)

  time-Reflects : Reflects (booking_has_parsed_time b) (HasTime b)
  unfolding booking_has_parsed_time
  time-Reflects =
      or-Reflects (same-Reflects _)
        (or-Reflects (same-Reflects _) (or-Reflects (slot-Reflects _) (slot-Reflects _)))

  count-Reflects : Reflects (booking_has_parsed_traveler_count b) (HasCount b)
  unfolding booking_has_parsed_traveler_count
  count-Reflects =
      or-Reflects (not-Reflects (value-Reflects _ null)) (not-Reflects (value-Reflects _ null))

  product-Reflects : Reflects (booking_has_parsed_product b) (HasProduct b)
  unfolding booking_has_parsed_product
  product-Reflects = or-Reflects (same-Reflects _) (same-Reflects _)

if_true-Reflects :
    {a b : Bool} {P Q : Type 0}
    → Reflects a P
    → Reflects b Q
    → Reflects (if a then true else b) (P ⊎ Q)
if_true-Reflects {a = true} p q = ((λ h. inl (p.0 refl)), (λ h. refl))
if_true-Reflects {a = false} p q = (
  (λ h. inr (q.0 h)),
  (λ h. elim h [ inl x ↦ (let c : false ≡ true = p.1 x in cc) | inr y ↦ q.1 y ]),
)

if_false-Reflects :
    {a b : Bool} {P Q : Type 0}
    → Reflects a P
    → Reflects b Q
    → Reflects (if a then false else b) ((¬ P) × Q)
if_false-Reflects {a = true} p q = ((λ h. cc), (λ h. absurd (h.0 (p.0 refl))))
if_false-Reflects {a = false} p q =
    ((λ h. ((λ x. let c : false ≡ true = p.1 x in cc), q.0 h)), (λ h. q.1 h.1))

never_or-Reflects : {a : Bool} {P : Type 0} → Reflects a P → Reflects a (⊥ ⊎ P)
never_or-Reflects p = ((λ h. inr (p.0 h)), (λ h. elim h [ inl x ↦ absurd x | inr y ↦ p.1 y ]))

or_never-Reflects : {a : Bool} {P : Type 0} → Reflects a P → Reflects a (P ⊎ ⊥)
or_never-Reflects p = ((λ h. inl (p.0 h)), (λ h. elim h [ inl x ↦ p.1 x | inr y ↦ absurd y ]))

and_true-Reflects : {a : Bool} {P : Type 0} → Reflects a P → Reflects (a && true) P
and_true-Reflects {a = true} p = p
and_true-Reflects {a = false} p = p

provider-Reflects : (raw : Option RawEmail) → Reflects (was_detected raw) (IsDetected raw)
provider-Reflects none = never-Reflects
provider-Reflects (some raw) = some-Reflects raw.provider_detected
  where
    some-Reflects : (o : Option ℕ) → Reflects (is_some o) (o ≢ none)
    some-Reflects none = ((λ h. cc), (λ h. absurd (h refl)))
    some-Reflects (some n) = ((λ h q. cc), (λ h. refl))

ignored-Reflects : (raw : Option RawEmail) → Reflects (was_ignored raw) (IsIgnoredEmail raw)
ignored-Reflects none = never-Reflects
ignored-Reflects (some raw) = status-Reflects raw.parse_status
  where
    status-Reflects : (s : ParseStatus) → Reflects (is_ignored s) (s ≡ ignored)
    status-Reflects ignored = ((λ h. refl), (λ h. refl))
    status-Reflects _ = ((λ h. cc), (λ h. cc))

module _ (db : Db) (raw : Option RawEmail) (title : String) where
  lead-Reflects :
      (b : Booking)
      → Reflects
          (truthy (b.columns "lead_traveler_name") || booking_provider_omits_lead_name db raw b)
          (HasLead db raw b)
  lead-Reflects b = or-Reflects (same-Reflects _) (same-Reflects _)

  content-Reflects :
      (b : Booking)
      → Reflects
          (booking_has_required_parse_content db raw b)
          (Answers db raw title low_confidence_parse b)
  unfolding booking_has_required_parse_content
  content-Reflects b = and-Reflects (text-Reflects b.provider_booking_reference) (
      and-Reflects (product-Reflects b) (
        and-Reflects (date-Reflects b) (
          and-Reflects (time-Reflects b)
            (and-Reflects (count-Reflects b) (and_true-Reflects (lead-Reflects b))))))

  booking-Reflects :
      (issue : IssueType) (b : Booking)
      → Reflects
          (review_issue_is_obsolete db issue title (some b) raw)
          (SettledByEmail issue raw ⊎ Answers db raw title issue b)
  unfolding review_issue_is_obsolete obsolete_with obsolete_for_booking
  booking-Reflects provider_not_detected b = or_never-Reflects (provider-Reflects raw)
  booking-Reflects reference_missing b = if_true-Reflects (ignored-Reflects raw) (text-Reflects _)
  booking-Reflects provider_alias_missing b = never_or-Reflects (same-Reflects _)
  booking-Reflects product_mismatch b = never_or-Reflects (same-Reflects _)
  booking-Reflects date_missing b = never_or-Reflects (date-Reflects b)
  booking-Reflects time_missing b =
      never_or-Reflects
        (if_false-Reflects (eq_iff title "Schedule slot needs confirmation") (time-Reflects b))
  booking-Reflects traveler_count_missing b = never_or-Reflects (count-Reflects b)
  booking-Reflects lead_traveler_missing b = never_or-Reflects (lead-Reflects b)
  booking-Reflects low_confidence_parse b = never_or-Reflects (content-Reflects b)
  booking-Reflects _ b = never_or-Reflects never-Reflects

  email-Reflects :
      (issue : IssueType)
      → Reflects (review_issue_is_obsolete db issue title none raw) (SettledByEmail issue raw)
  unfolding review_issue_is_obsolete obsolete_with
  email-Reflects provider_not_detected = provider-Reflects raw
  email-Reflects reference_missing =
      let r = if_true-Reflects (ignored-Reflects raw) never-Reflects in
      ((λ h. elim (r.0 h) [ inl x ↦ x | inr y ↦ absurd y ]), (λ x. r.1 (inl x)))
  email-Reflects _ = never-Reflects

  -- A review is obsolete among some bookings exactly where the email settles it, or one of the bookings
  -- has what it says is missing.
  pub obsolete_for_any_iff :
      (issue : IssueType) (bs : List Booking)
      → (obsolete_for_any db issue title raw bs ≡ true)
        ↔ (SettledByEmail issue raw ⊎ (b : Booking) × In b bs × Answers db raw title issue b)
  unfolding obsolete_for_any
  obsolete_for_any_iff issue [] = (
    (λ h. inl ((email-Reflects issue).0 h)),
    (λ h. elim h [ inl x ↦ (email-Reflects issue).1 x | inr y ↦ absurd y.1 ]),
  )
  obsolete_for_any_iff issue (c ∷ cs) =
      let test : Booking → Bool = λ b. review_issue_is_obsolete db issue title (some b) raw in
      (
        (λ h.
            let (b, i, t) = In-any test (c ∷ cs) h in
            elim ((booking-Reflects issue b).0 t) [ inl x ↦ inl x | inr y ↦ inr (b, i, y) ]),
        (λ h. elim h [
          | inl x ↦ any-In test c (c ∷ cs) (inl refl) ((booking-Reflects issue c).1 (inl x))
          | inr (b, i, y) ↦ any-In test b (c ∷ cs) i ((booking-Reflects issue b).1 (inr y))
        ]),
      )
