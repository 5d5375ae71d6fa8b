-- ===== src/Bookings/Queue/OneOpen.antt =====
-- At most one open item for each email, booking and issue.
use ticketmirror.Base.{
  ℕ, ◌+◌, ◌≤◌, String, ◌≡◌, ◌≢◌, refl, sym, ap, suc, ◌∙◌, inl, inr, Bool, true, false, ◌&&◌, List,
  [], ◌∷◌, ◌++◌, arith, ◌==◌, if◌then◌else◌, filter, map, length, Bool-cases,
}
use ticketmirror.Base.Result.{Result, ok}
use ticketmirror.Data.{
  Db, ReviewQueueItem, issue_eq, issue_eq→eq, issue_eq_refl, opt_eq, opt_eq→eq, opt_eq_refl,
  is_open, Details,
}
use ticketmirror.Bookings.Errors.{ServiceError}
use ticketmirror.Bookings.Queue.{
  Key, matches, new_item, retitle, store_item, create_review_item, resolve_if, resolve_items,
}

abbrev pub count : Key → List ReviewQueueItem → ℕ
count k rs = length (filter (matches k) rs)

-- The invariant of the queue.
pub record IsQueue (rs : List ReviewQueueItem) : Type 0 where
  pub one_open : (k : Key) → count k rs ≤ 1

count-append :
    (k : Key) (rs : List ReviewQueueItem) (r : ReviewQueueItem)
    → count k (rs ++ r ∷ []) ≡ count k rs + (if matches k r then 1 else 0)
count-append k [] r = ground arith
count-append k (x ∷ rs) r = ground (arith, count-append k rs r)

matches-retitle :
    (k : Key) (id : ℕ) (t : String) (d : Details) (r : ReviewQueueItem)
    → matches k (retitle id t d r) ≡ matches k r
unfolding matches
matches-retitle k id t d r = elim (Bool-cases (r.id == id)) [ inl e ↦ rw e | inr e ↦ rw e ]

count-retitle :
    (k : Key) (id : ℕ) (t : String) (d : Details) (rs : List ReviewQueueItem)
    → count k (map (retitle id t d) rs) ≡ count k rs
count-retitle k id t d [] = refl
count-retitle k id t d (x ∷ rs) = rw (matches-retitle k id t d x) (elim (Bool-cases (matches k x)) [
  | inl e ↦ rw e (ap suc (count-retitle k id t d rs))
  | inr e ↦ rw e (count-retitle k id t d rs)
])

-- Resolving an item cannot make it match.
matches-resolve_if :
    (k : Key) (p : ReviewQueueItem → Bool) (now : ℕ) (r : ReviewQueueItem)
    → matches k r ≡ false
    → matches k (resolve_if p now r) ≡ false
unfolding matches
matches-resolve_if k p now r h = elim (Bool-cases (is_open r.status && p r)) [
  | inl e ↦ rw e
  | inr e ↦ rw e h
]

count-resolve_if :
    (k : Key) (p : ReviewQueueItem → Bool) (now : ℕ) (rs : List ReviewQueueItem)
    → count k (map (resolve_if p now) rs) ≤ count k rs
count-resolve_if k p now [] = omega arith
count-resolve_if k p now (x ∷ rs) = elim (Bool-cases (matches k x)) [
  | inr e ↦ rw (e, matches-resolve_if k p now x e) (count-resolve_if k p now rs)
  | inl e ↦ rw e (elim (Bool-cases (matches k (resolve_if p now x))) [
    | inl f ↦ rw f (omega (arith, count-resolve_if k p now rs))
    | inr f ↦ rw f (omega (arith, count-resolve_if k p now rs))
  ])
]

matches-new_item :
    (k j : Key) (id : ℕ) (t : String) (d : Details) → matches k (new_item id j t d) ≡ true → k ≡ j
unfolding new_item matches
matches-new_item k j id t d h =
    let p : opt_eq j.raw_email k.raw_email ≡ true = ground arith in
    let q : opt_eq j.booking k.booking ≡ true = ground arith in
    let r : issue_eq j.issue_type k.issue_type ≡ true = ground arith in
    let p' = opt_eq→eq _ _ p in
    let q' = opt_eq→eq _ _ q in
    let r' = issue_eq→eq _ _ r in
    λ i. record { raw_email = sym p' i; booking = sym q' i; issue_type = sym r' i }

new_item-matches :
    (k : Key) (id : ℕ) (t : String) (d : Details) → matches k (new_item id k t d) ≡ true
unfolding new_item matches
new_item-matches k id t d =
    rw (opt_eq_refl k.raw_email) (rw (opt_eq_refl k.booking) (issue_eq_refl k.issue_type))

-- What `update_or_create` of a key gives: the queue stays well formed, and holds exactly one open
-- item of the key.
pub record IsStored (old : Db) (k : Key) (r : Result ServiceError Db) : Type 0 where
  pub db : Db
  pub stored : r ≡ ok db
  pub queue : IsQueue db.reviews
  pub once : count k db.reviews ≡ 1
  pub others : (j : Key) → j ≢ k → count j db.reviews ≡ count j old.reviews
  pub bookings : db.bookings ≡ old.bookings
  pub raw_emails : db.raw_emails ≡ old.raw_emails

new_item_ne :
    (k j : Key) (id : ℕ) (t : String) (d : Details) (rs : List ReviewQueueItem)
    → j ≢ k
    → count j (rs ++ new_item id k t d ∷ []) ≡ count j rs
new_item_ne k j id t d rs ne = elim (Bool-cases (matches j (new_item id k t d))) [
  | inl m ↦ absurd (ne (matches-new_item j k id t d m))
  | inr m ↦ count-append j rs (new_item id k t d) ∙ rw m (omega arith)
]

new_item-IsQueue :
    (k : Key) (id : ℕ) (t : String) (d : Details) (rs : List ReviewQueueItem)
    → count k rs ≡ 0
    → IsQueue rs
    → (j : Key) → count j (rs ++ new_item id k t d ∷ []) ≤ 1
new_item-IsQueue k id t d rs e q j = elim (Bool-cases (matches j (new_item id k t d))) [
  | inl m ↦
      let p : j ≡ k = matches-new_item j k id t d m in
      rw count-append (rw m (rw p (omega (arith, e))))
  | inr m ↦ rw count-append (rw m (omega (arith, q.one_open j)))
]

store_item-IsStored :
    (db : Db) (k : Key) (t : String) (d : Details) (found : List ReviewQueueItem)
    → filter (matches k) db.reviews ≡ found
    → IsQueue db.reviews
    → IsStored db k (store_item db k t d found)
unfolding store_item
store_item-IsStored db k t d [] e q = record {
  db = record db {
    reviews = db.reviews ++ new_item db.next_id k t d ∷ [];
    next_id = db.next_id + 1;
  };
  stored = refl;
  queue = record { one_open = new_item-IsQueue k db.next_id t d db.reviews (ap length e) q };
  once =
      count-append k db.reviews (new_item db.next_id k t d)
      ∙ rw (new_item-matches k db.next_id t d) (rw e refl);
  others = λ j ne. new_item_ne k j db.next_id t d db.reviews ne;
  bookings = refl;
  raw_emails = refl;
}
store_item-IsStored db k t d (r ∷ []) e q = record {
  db = record db { reviews = map (retitle r.id t d) db.reviews };
  stored = refl;
  queue = record { one_open = λ j. rw (count-retitle j r.id t d db.reviews) (q.one_open j) };
  once = count-retitle k r.id t d db.reviews ∙ ap length e;
  others = λ j ne. count-retitle j r.id t d db.reviews;
  bookings = refl;
  raw_emails = refl;
}
store_item-IsStored db k t d (r ∷ s ∷ rest) e q = absurd (omega (arith, q.one_open k, ap length e))

-- On a queue with at most one open item for each email, booking and issue, `_create_review_item`
-- never meets two rows: it succeeds, leaves exactly one open item of its key and as many of every
-- other key as before, keeps the queue well formed and touches no booking.
pub create_review_item-IsStored :
    (db : Db) (k : Key) (t : String) (d : Details)
    → IsQueue db.reviews
    → IsStored db k (create_review_item db k t d)
unfolding create_review_item
create_review_item-IsStored db k t d q =
    store_item-IsStored db k t d (filter (matches k) db.reviews) refl q

pub resolve_items-IsQueue :
    (db : Db) (p : ReviewQueueItem → Bool) (now : ℕ)
    → IsQueue db.reviews
    → IsQueue (resolve_items db p now).reviews
unfolding resolve_items
resolve_items-IsQueue db p now q = record {
  one_open = λ k. omega (arith, count-resolve_if k p now db.reviews, q.one_open k);
}
