-- ===== src/Commands/Stale/Swept.antt =====
-- The sweep closes exactly the open reviews that no longer stand.
use ticketmirror.Base.{
  ℕ, ◌+◌, ◌≡◌, refl, sym, ◌∙◌, ap, Bool, true, false, ◌&&◌, Option, none, some, List, ◌==◌, ==_iff,
  if◌then◌else◌, filter, take, ◌↔◌, map, arith, length, inl, inr, Bool-cases, In, In-filter,
  filter-In,
}
use ticketmirror.Base.Membership.{In-any, any-In, In-take}
use ticketmirror.Data.{Db, ReviewQueueItem, is_open}
use ticketmirror.Ingestion.Identity.Promotion.{In-map}
use ticketmirror.Commands.Stale.{closed}
use ticketmirror.Commands.Stale.Over.{IsOver, is_obsolete_iff}
use ticketmirror.Base.Int.{ℤ, pos_part}
use ticketmirror.Commands.Stale.Sweep.{
  is_obsolete, Sweep, sweep_reviews, no_sweep, sweep_open, limited,
}
use ticketmirror.Commands.Stale.Looped.{is_obsolete_same, is_hit, close_if, sweep_reviews-IsLooped}

-- The reviews that the sweep takes up: the first ones that are open, as many as the limit allows.
abbrev pub first_open : Db → Option ℤ → List ReviewQueueItem
first_open db none = filter (λ r. is_open r.status) db.reviews
first_open db (some n) = take (pos_part n) (filter (λ r. is_open r.status) db.reviews)

-- What the sweep leaves.
pub record IsSwept (now : ℕ) (db : Db) (limit : Option ℤ) (out : Sweep × Db) : Type 0 where
  -- Some reviews are closed, and nothing else changes.
  pub closes_row : ReviewQueueItem → Bool
  pub same :
      out.1 ≡ record db { reviews = map (λ r. if closes_row r then closed now r else r) db.reviews }
  -- They are the ones taken up that no longer stand.
  pub exactly :
      (r : ReviewQueueItem)
      → In r db.reviews
      → (closes_row r ≡ true) ↔ (In r (first_open db limit) × IsOver db r)
  pub none_left :
      limit ≡ none
      → (r : ReviewQueueItem) → In r out.1.reviews
      → is_open r.status ≡ true
      → ¬ IsOver out.1 r
  pub counted : out.0.resolved + out.0.unchanged ≡ out.0.scanned
  pub scanned : out.0.scanned ≡ length (first_open db limit)

both : (a b : Bool) → (a && b) ≡ true → (a ≡ true) × (b ≡ true)
both true b h = (refl, h)
both false b h = cc

In-first_open :
    (db : Db) (limit : Option ℤ) (r : ReviewQueueItem)
    → In r (first_open db limit)
    → In r db.reviews × (is_open r.status ≡ true)
In-first_open db none r i = In-filter (λ x. is_open x.status) r db.reviews i
In-first_open db (some n) r i =
    In-filter (λ x. is_open x.status) r db.reviews
      (In-take r (pos_part n) (filter (λ x. is_open x.status) db.reviews) i)

first_open-limited :
    (db : Db) (limit : Option ℤ)
    → limited limit (filter (λ r. is_open r.status) db.reviews) ≡ first_open db limit
first_open-limited db none = refl
first_open-limited db (some n) = refl

module _ (db : Db) (limit : Option ℤ)
    (ids : (x y : ReviewQueueItem) → In x db.reviews → In y db.reviews → x.id ≡ y.id → x ≡ y) where
  hit_iff :
      (r : ReviewQueueItem)
      → In r db.reviews
      → (is_hit db (first_open db limit) r ≡ true) ↔ (In r (first_open db limit) × IsOver db r)
  unfolding is_hit
  hit_iff r i = (
    (λ t.
        let (x, j, h) = In-any (λ x. r.id == x.id && is_obsolete db x) (first_open db limit) t in
        let (e, stale) = both (r.id == x.id) (is_obsolete db x) h in
        let q : r ≡ x = ids r x i (In-first_open db limit x j).0 ((==_iff r.id x.id).0 e) in
        rw q (j, (is_obsolete_iff db x).0 stale)),
    (λ (j, over).
        any-In (λ x. r.id == x.id && is_obsolete db x) r (first_open db limit) j
          (rw ((==_iff r.id r.id).1 refl, (is_obsolete_iff db r).1 over) refl)),
  )

-- After a sweep over all of them an open review still stands.
swept-stands :
    (db : Db) (now : ℕ) (limit : Option ℤ) (r : ReviewQueueItem)
    → limit ≡ none
    → ((x y : ReviewQueueItem) → In x db.reviews → In y db.reviews → x.id ≡ y.id → x ≡ y)
    → In r (map (λ x. close_if (is_hit db (first_open db limit) x) now x) db.reviews)
    → is_open r.status ≡ true
    → ¬ IsOver db r
swept-stands db now limit r all ids i o over =
    let f = λ (x : ReviewQueueItem). close_if (is_hit db (first_open db limit) x) now x in
    let (x, j, e) = In-map f r db.reviews i in
    elim (Bool-cases (is_hit db (first_open db limit) x)) [
      | inl t ↦ let q : r ≡ closed now x = e ∙ rw t refl in let c : false ≡ true = rw q at o in cc
      | inr g ↦
          let q : r ≡ x = e ∙ rw g refl in
          let taken : In x (first_open db limit) =
            rw all (filter-In (λ y. is_open y.status) x db.reviews j (rw q at o)) in
          let c : true ≡ false = sym ((hit_iff db limit ids x j).1 (taken, rw q at over)) ∙ g in cc
    ]

-- Where every review has an id of its own, the sweep takes up the open reviews, the first ones as far as
-- the limit allows, and closes of these exactly those that no longer stand: the email settles it, or
-- the booking of the review or the one that its email was last about has what the review says is
-- missing. It changes nothing else; without a limit every open review still stands afterwards; and
-- each one taken up is counted, as resolved or as unchanged.
pub sweep_open-IsSwept :
    (now : ℕ) (db : Db) (limit : Option ℤ)
    → ((x y : ReviewQueueItem) → In x db.reviews → In y db.reviews → x.id ≡ y.id → x ≡ y)
    → IsSwept now db limit (sweep_open now db limit)
unfolding sweep_open
sweep_open-IsSwept now db limit ids = rw (first_open-limited db limit) (
    let l = sweep_reviews-IsLooped now db no_sweep (first_open db limit) in
    record {
      closes_row = is_hit db (first_open db limit);
      same = l.same;
      exactly = hit_iff db limit ids;
      none_left = λ all r i o over.
          let stale =
            (is_obsolete_iff (sweep_reviews now db no_sweep (first_open db limit)).1 r).1 over in
          let before : is_obsolete db r ≡ true =
            sym (
              is_obsolete_same db
                (map (λ x. close_if (is_hit db (first_open db limit) x) now x) db.reviews) r)
            ∙ (sym (ap (λ x. is_obsolete x r) l.same) ∙ stale) in
          swept-stands db now limit r all ids (rw l.same at i) o ((is_obsolete_iff db r).0 before);
      counted = omega (arith, l.counted);
      scanned = omega (arith, l.scanned);
    })
