-- ===== src/Polling/Lock.antt =====
-- `_acquire_poll_lock` and `_release_poll_lock`: the lease that keeps two pollers of a mailbox
-- apart. Both touch the one row of GmailSyncState that belongs to the mailbox (`mailbox_email` is
-- unique). Times are in seconds.
use ticketmirror.Base.{
  ℕ, ◌-◌, String, Bool, true, false, ◌||◌, Option, none, some, ltb, str_eq, if◌then◌else◌,
}

-- GmailSyncState of apps/ingestion/models.py
pub record SyncState : Type 0 where
  pub latest_history_id : Option String
  pub last_successful_sync : Option ℕ
  pub last_error : Option String
  pub poll_lock_token : Option String
  pub poll_lock_acquired_at : Option ℕ

-- timedelta(minutes=10)
abbrev pub lock_stale_after : ℕ
lock_stale_after = 600

abbrev pub new_state : SyncState
new_state = record {
  latest_history_id = none;
  last_successful_sync = none;
  last_error = none;
  poll_lock_token = none;
  poll_lock_acquired_at = none;
}

-- `get_or_create(mailbox_email=mailbox)`
abbrev pub get_or_create_state : Option SyncState → SyncState
get_or_create_state none = new_state
get_or_create_state (some s) = s

-- `Q(poll_lock_token__isnull=True) | Q(poll_lock_token="")`
abbrev pub has_no_token : Option String → Bool
has_no_token none = true
has_no_token (some token) = str_eq token ""

-- `Q(poll_lock_acquired_at__lt=stale_before)`: a comparison with NULL is not true. A clock below the
-- ten minutes finds no time before it, and so does the difference that stops at 0.
abbrev pub is_before : Option ℕ → ℕ → Bool
is_before none time = false
is_before (some acquired) time = ltb acquired time

unfoldable pub can_acquire : ℕ → SyncState → Bool
can_acquire now s =
    has_no_token s.poll_lock_token || is_before s.poll_lock_acquired_at (now - lock_stale_after)

-- The token that the poller holds, if any, and the row afterwards.
unfoldable pub acquire_poll_lock : String → ℕ → Option SyncState → Option String × SyncState
unfolding can_acquire
acquire_poll_lock token now row =
    let s = get_or_create_state row in
    if can_acquire now s
    then (some token, record s { poll_lock_token = some token; poll_lock_acquired_at = some now })
    else (none, s)

abbrev pub holds_token : String → Option String → Bool
holds_token token none = false
holds_token token (some t) = str_eq t token

unfoldable pub release_poll_lock : String → SyncState → SyncState
release_poll_lock token s =
    if holds_token token s.poll_lock_token
    then record s { poll_lock_token = none; poll_lock_acquired_at = none }
    else s
