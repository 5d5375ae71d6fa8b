-- ===== src/Bookings/Queue.antt =====
-- The review queue as a table: `ReviewQueueItem.objects.update_or_create` on open items, of
-- `_create_review_item` (apps/ingestion/services.py) and `create_capacity_overbooked_review_item`
-- (apps/bookings/services.py), and the closing of items.
pub mod OneOpen
use ticketmirror.Base.{
  ℕ, ◌+◌, String, Bool, true, false, ◌&&◌, Option, none, some, List, [], ◌∷◌, ◌++◌, ◌==◌,
  if◌then◌else◌, filter, map,
}
use ticketmirror.Base.Result.{Result, ok, err}
use ticketmirror.Data.{
  Db, ReviewQueueItem, IssueType, issue_eq, opt_eq, open_review, resolved, is_open, Details,
}
use ticketmirror.Bookings.Errors.{ServiceError, multiple_objects}

-- What `update_or_create` looks an open item up by.
pub record Key : Type 0 where
  pub raw_email : Option ℕ
  pub booking : Option ℕ
  pub issue_type : IssueType

unfoldable pub matches : Key → ReviewQueueItem → Bool
matches k r =
    is_open r.status
    && (opt_eq r.raw_email k.raw_email
        && (opt_eq r.booking k.booking && issue_eq r.issue_type k.issue_type))

unfoldable pub new_item : ℕ → Key → String → Details → ReviewQueueItem
new_item id k title details = record {
  id = id;
  raw_email = k.raw_email;
  booking = k.booking;
  issue_type = k.issue_type;
  status = open_review;
  title = title;
  details = details;
  resolved_at = none;
}

abbrev pub retitle : ℕ → String → Details → ReviewQueueItem → ReviewQueueItem
retitle id title details r = if r.id == id then record r { title = title; details = details } else r

unfoldable pub store_item :
    Db → Key → String → Details → List ReviewQueueItem → Result ServiceError Db
unfolding new_item
store_item db k title details [] = ok (record db {
  reviews = db.reviews ++ new_item db.next_id k title details ∷ [];
  next_id = db.next_id + 1;
})
store_item db k title details (r ∷ []) =
    ok (record db { reviews = map (retitle r.id title details) db.reviews })
store_item db k title details _ = err multiple_objects

unfoldable pub create_review_item : Db → Key → String → Details → Result ServiceError Db
unfolding store_item matches
create_review_item db k title details =
    store_item db k title details (filter (matches k) db.reviews)

-- `.update(status=RESOLVED, resolved_at=…)` on the open items that pass a test.
abbrev pub resolve_if : (ReviewQueueItem → Bool) → ℕ → ReviewQueueItem → ReviewQueueItem
resolve_if test now r =
    if is_open r.status && test r then record r { status = resolved; resolved_at = some now } else r

unfoldable pub resolve_items : Db → (ReviewQueueItem → Bool) → ℕ → Db
resolve_items db test now = record db { reviews = map (resolve_if test now) db.reviews }
