-- ===== src/Gmail/Client.antt =====
-- `list_history` and `list_recent_messages`: the loops over the pages that the server gives.
pub mod Recent
pub mod Gathered
use Prim.Native.Nat.{min}
use ticketmirror.Base.{
  ℕ, zero, suc, ◌-◌, String, Bool, true, false, not, ◌&&◌, ◌||◌, Option, none, some, List, [], ◌∷◌,
  ◌++◌, ltb, if◌then◌else◌, length,
}
use ticketmirror.Base.Int.{ℤ, pos_part}
use ticketmirror.Base.Names.{member}
use ticketmirror.Base.Result.{Result, ok, err}
use ticketmirror.Bookings.Reviews.{has_text}

-- What a request raises: an HTTPError with its status, or any other exception; both with the text
-- that `str(exc)` gives.
pub data Fault : Type 0 where
  http_error : ℕ → String → Fault
  other_error : String → Fault

-- `messages` of a page, by the `id` of each, and `nextPageToken`
pub record MessagesPage : Type 0 where
  pub ids : List (Option String)
  pub next_page_token : Option String

-- `historyId` of a page, and the messages added of its `history`, by the `id` of each
pub record HistoryPage : Type 0 where
  pub history_id : Option String
  pub added : List (Option String)

-- The pages of one listing of the history: each but the last has a `nextPageToken`.
pub data HistoryPages : Type 0 where
  fails : Fault → HistoryPages
  last : HistoryPage → HistoryPages
  more : HistoryPage → HistoryPages → HistoryPages

pub record History : Type 0 where
  pub history_id : String
  pub message_ids : List String

-- The truth of an optional text.
abbrev pub given : Option String → Bool
given none = false
given (some s) = has_text s

-- `value or other`
abbrev pub text_else : Option String → String → String
text_else none other = other
text_else (some s) other = if has_text s then s else other

-- `if message_id and message_id not in seen`: `seen` holds the ids of the list.
unfoldable pub add_message : List String → Option String → List String
add_message ids none = ids
add_message ids (some id) = if has_text id && not (member id ids) then ids ++ id ∷ [] else ids

unfoldable pub add_messages : List String → List (Option String) → List String
unfolding add_message
add_messages ids [] = ids
add_messages ids (m ∷ ms) = add_messages (add_message ids m) ms

unfoldable pub history_from : List String → String → HistoryPages → Result Fault History
unfolding add_messages
history_from ids latest (fails e) = err e
history_from ids latest (last p) =
    ok (record {
      history_id = text_else p.history_id latest;
      message_ids = add_messages ids p.added;
    })
history_from ids latest (more p ps) =
    history_from (add_messages ids p.added) (text_else p.history_id latest) ps

unfoldable pub list_history : (String → HistoryPages) → String → Result Fault History
unfolding history_from
list_history pages start =
    if has_text start
    then history_from [] start (pages start)
    else err (other_error "start_history_id is required")

-- `[item["id"] for item in … if item.get("id")]`
unfoldable pub batch_of : List (Option String) → List String
batch_of [] = []
batch_of (none ∷ ms) = batch_of ms
batch_of (some id ∷ ms) = let rest = batch_of ms in if has_text id then id ∷ rest else rest

abbrev pub is_empty_list : List String → Bool
is_empty_list [] = true
is_empty_list (x ∷ xs) = false

-- `if not page_token or not batch: break`
unfoldable pub is_last : MessagesPage → Bool
unfolding batch_of
is_last p = not (given p.next_page_token) || is_empty_list (batch_of p.ids)

-- The answer to a request with a page token and `maxResults`.
abbrev pub Server : Type 0
Server = Option String → ℕ → Result Fault MessagesPage

-- A round of the loop with the page that it got; `later` is the loop from there.
unfoldable pub after_page :
    (Option String → List String → Result Fault (List String))
    → List String
    → Result Fault MessagesPage
    → Result Fault (List String)
unfolding is_last batch_of
after_page later ids (err e) = err e
after_page later ids (ok p) =
    let ids' = ids ++ batch_of p.ids in
    let rest = later p.next_page_token ids' in if is_last p then ok ids' else rest

-- `while remaining > 0`, for at most `rounds` rounds.
unfoldable pub recent_from :
    Server → ℕ → ℕ → Option String → List String → Result Fault (List String)
unfolding after_page
recent_from server limit zero token ids = ok ids
recent_from server limit (suc rounds) token ids =
    let later = recent_from server limit rounds in
    if ltb (length ids) limit
    then after_page later ids (server token (min (limit - length ids) 100))
    else ok ids

-- A limit of 0 or below lists nothing. Every round but the last adds a message, so `limit` rounds
-- are enough (Recent).
unfoldable pub list_recent_messages : Server → ℤ → Result Fault (List String)
unfolding recent_from
list_recent_messages server limit = recent_from server (pos_part limit) (pos_part limit) none []
