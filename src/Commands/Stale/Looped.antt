-- ===== src/Commands/Stale/Looped.antt =====
-- What the loop of the sweep leaves.
use ticketmirror.Base.{
  ℕ, ◌+◌, ◌≡◌, refl, sym, ◌∙◌, ap, Bool, true, false, ◌&&◌, ◌||◌, Option, none, some, List, [], ◌∷◌,
  ◌==◌, String, if◌then◌else◌, map, any, arith, length, inl, inr, Bool-cases,
}
use ticketmirror.Data.{Db, ReviewQueueItem, IssueType, provider_not_detected, RawEmail, Booking}
use ticketmirror.Bookings.Reviews.{
  review_issue_is_obsolete_for_context, review_issue_is_obsolete, obsolete_for_any, obsolete_with,
  obsolete_for_booking, booking_has_required_parse_content, booking_provider_omits_lead_name,
  detected_code, provider_code,
}
use ticketmirror.Ingestion.Ignored.Hits.{map_cong, map-map}
use ticketmirror.Commands.Stale.{closed}
use ticketmirror.Commands.Stale.Sweep.{is_obsolete, Sweep, close_review, count_stale, sweep_reviews}

-- The tests do not read the queue.
obsolete_same :
    (db : Db) (reviews : List ReviewQueueItem) (issue : IssueType) (title : String)
    (o : Option Booking) (raw : Option RawEmail)
    → review_issue_is_obsolete (record db { reviews = reviews }) issue title o raw
      ≡ review_issue_is_obsolete db issue title o raw
unfolding review_issue_is_obsolete obsolete_with obsolete_for_booking
    booking_has_required_parse_content booking_provider_omits_lead_name detected_code provider_code
obsolete_same db reviews provider_not_detected title none raw = refl
obsolete_same db reviews provider_not_detected title (some b) raw = refl
obsolete_same db reviews _ title none raw = refl
obsolete_same db reviews _ title (some b) none = refl
obsolete_same db reviews _ title (some b) (some raw) = refl

any_same :
    (f g : Booking → Bool) (bs : List Booking) → ((b : Booking) → f b ≡ g b) → any f bs ≡ any g bs
any_same f g [] h = refl
any_same f g (b ∷ bs) h = rw (h b, any_same f g bs h) refl

for_any_same :
    (db : Db) (reviews : List ReviewQueueItem) (issue : IssueType) (title : String)
    (raw : Option RawEmail) (bs : List Booking)
    → obsolete_for_any (record db { reviews = reviews }) issue title raw bs
      ≡ obsolete_for_any db issue title raw bs
unfolding obsolete_for_any
for_any_same db reviews issue title raw [] = obsolete_same db reviews issue title none raw
for_any_same db reviews issue title raw (b ∷ bs) =
    any_same _ _ (b ∷ bs) (λ c. obsolete_same db reviews issue title (some c) raw)

pub is_obsolete_same :
    (db : Db) (reviews : List ReviewQueueItem) (r : ReviewQueueItem)
    → is_obsolete (record db { reviews = reviews }) r ≡ is_obsolete db r
unfolding is_obsolete review_issue_is_obsolete_for_context
is_obsolete_same db reviews r = for_any_same db reviews r.issue_type r.title _ _

-- A review of the rows with the same id no longer stands.
unfoldable pub is_hit : Db → List ReviewQueueItem → ReviewQueueItem → Bool
is_hit db rows r = any (λ x. r.id == x.id && is_obsolete db x) rows

abbrev pub close_if : Bool → ℕ → ReviewQueueItem → ReviewQueueItem
close_if test now r = if test then closed now r else r

is_hit_same :
    (db : Db) (reviews rows : List ReviewQueueItem) (r : ReviewQueueItem)
    → is_hit (record db { reviews = reviews }) rows r ≡ is_hit db rows r
unfolding is_hit
is_hit_same db reviews [] r = refl
is_hit_same db reviews (x ∷ rows) r =
    rw (is_obsolete_same db reviews x, is_hit_same db reviews rows r) refl

-- What the loop leaves.
pub record IsLooped (now : ℕ) (db : Db) (s : Sweep) (rows : List ReviewQueueItem) (out : Sweep × Db)
    : Type 0 where
  pub same : out.1 ≡ record db { reviews = map (λ r. close_if (is_hit db rows r) now r) db.reviews }
  pub scanned : out.0.scanned ≡ s.scanned + length rows
  pub counted :
      out.0.resolved + out.0.unchanged + s.scanned ≡ s.resolved + s.unchanged + out.0.scanned

map_self :
    (f : ReviewQueueItem → ReviewQueueItem) (rs : List ReviewQueueItem)
    → ((r : ReviewQueueItem) → f r ≡ r)
    → map f rs ≡ rs
map_self f [] h = refl
map_self f (r ∷ rs) h = rw (h r, map_self f rs h) refl

is_hit-cons :
    (db : Db) (x : ReviewQueueItem) (rows : List ReviewQueueItem) (r : ReviewQueueItem)
    → is_hit db (x ∷ rows) r ≡ ((r.id == x.id && is_obsolete db x) || is_hit db rows r)
unfolding is_hit
is_hit-cons db x rows r = refl

is_hit-closed :
    (now : ℕ) (db : Db) (rows : List ReviewQueueItem) (r : ReviewQueueItem)
    → is_hit db rows (closed now r) ≡ is_hit db rows r
unfolding is_hit
is_hit-closed now db rows r = refl

close_twice :
    (now : ℕ) (db : Db) (x : ReviewQueueItem) (rows : List ReviewQueueItem) (r : ReviewQueueItem)
    → is_obsolete db x ≡ true
    → close_if (is_hit db rows (close_if (r.id == x.id) now r)) now (close_if (r.id == x.id) now r)
      ≡ close_if (is_hit db (x ∷ rows) r) now r
close_twice now db x rows r t = elim (Bool-cases (r.id == x.id)) [
  | inr f ↦
      let q : is_hit db (x ∷ rows) r ≡ is_hit db rows r = is_hit-cons db x rows r ∙ rw f refl in
      rw (f, q) refl
  | inl e ↦
      let q : is_hit db (x ∷ rows) r ≡ true = is_hit-cons db x rows r ∙ rw (e, t) refl in
      rw (e, q) (twice (is_hit db rows (closed now r)))
]
  where
    twice : (b : Bool) → close_if b now (closed now r) ≡ closed now r
    twice true = refl
    twice false = refl

passed_over :
    (now : ℕ) (db : Db) (x : ReviewQueueItem) (rows : List ReviewQueueItem) (r : ReviewQueueItem)
    → is_obsolete db x ≡ false
    → close_if (is_hit db rows r) now r ≡ close_if (is_hit db (x ∷ rows) r) now r
passed_over now db x rows r f =
    let q : is_hit db (x ∷ rows) r ≡ is_hit db rows r =
      is_hit-cons db x rows r ∙ rw f (no_test (r.id == x.id) (is_hit db rows r)) in
    rw q refl
  where
    no_test : (b c : Bool) → ((b && false) || c) ≡ c
    no_test true c = refl
    no_test false c = refl

map_with :
    (f g : ReviewQueueItem → ReviewQueueItem) (rs : List ReviewQueueItem)
    → ((r : ReviewQueueItem) → f r ≡ g r)
    → map f rs ≡ map g rs
map_with f g rs h = map_cong f g rs (λ r i. h r)

closes :
    (now : ℕ) (db : Db) (x : ReviewQueueItem) (rows : List ReviewQueueItem)
    → is_obsolete db x ≡ true
    → map
        (λ r. close_if (is_hit (close_review now db x) rows r) now r)
        (close_review now db x).reviews
      ≡ map (λ r. close_if (is_hit db (x ∷ rows) r) now r) db.reviews
unfolding close_review
closes now db x rows t =
    let once : ReviewQueueItem → ReviewQueueItem = λ r. close_if (r.id == x.id) now r in
    let db' = record db { reviews = map once db.reviews } in
    map-map (λ r. close_if (is_hit db' rows r) now r) once db.reviews
    ∙ map_with _ _ db.reviews (λ r.
      ap (λ b. close_if b now (once r)) (is_hit_same db (map once db.reviews) rows (once r))
      ∙ close_twice now db x rows r t)

pub sweep_reviews-IsLooped :
    (now : ℕ) (db : Db) (s : Sweep) (rows : List ReviewQueueItem)
    → IsLooped now db s rows (sweep_reviews now db s rows)
unfolding sweep_reviews
sweep_reviews-IsLooped now db s [] = record {
  same =
      ap (λ reviews. record db { reviews = reviews })
        (sym (
          map_self (λ r. close_if (is_hit db [] r) now r) db.reviews
            (λ r. (unfold is_hit in refl))));
  scanned = omega arith;
  counted = omega arith;
}
sweep_reviews-IsLooped now db s (x ∷ rows) = elim (Bool-cases (is_obsolete db x)) [
  | inr f ↦
      let rest = sweep_reviews-IsLooped now db (count_stale false s) rows in
      rw f (record {
        same =
            rest.same
            ∙ ap (λ reviews. record db { reviews = reviews })
                (map_with _ _ db.reviews (λ r. passed_over now db x rows r f));
        scanned = omega (arith, rest.scanned);
        counted = omega (arith, rest.counted);
      })
  | inl t ↦
      let db' = close_review now db x in
      let rest = sweep_reviews-IsLooped now db' (count_stale true s) rows in
      rw t (record {
        same = rest.same ∙ ap (λ reviews. record db { reviews = reviews }) (closes now db x rows t);
        scanned = omega (arith, rest.scanned);
        counted = omega (arith, rest.counted);
      })
]
