-- ===== src/Gmail/Tests.antt =====
-- Two pages of messages, and a history of two pages that names a message twice.
use ticketmirror.Base.{
  ℕ, zero, suc, ◌≤◌, String, ◌≡◌, refl, Option, none, some, List, [], ◌∷◌, arith, length, take,
}
use ticketmirror.Base.Int.{pos}
use ticketmirror.Base.Result.{Result, ok}
use ticketmirror.Gmail.Client.{
  Fault, MessagesPage, HistoryPages, last, more, History, Server, list_history,
  list_recent_messages,
}
use ticketmirror.Gmail.Client.Recent.{
  Rounds, list_recent_messages-Rounds, Respects, list_recent_messages-le,
}
use ticketmirror.Gmail.Client.Gathered.{IsListed, list_history-IsListed}

abbrev page_one : MessagesPage
page_one = record { ids = some "m1" ∷ none ∷ some "m2" ∷ []; next_page_token = some "two" }

abbrev page_two : MessagesPage
page_two = record { ids = some "m3" ∷ some "m4" ∷ []; next_page_token = none }

-- A page of at most as many messages as were asked for.
abbrev at_most : ℕ → MessagesPage → MessagesPage
at_most most page = record page { ids = take most page.ids }

abbrev server : Server
server none most = ok (at_most most page_one)
server (some token) most = ok (at_most most page_two)

abbrev three : List String
three = "m1" ∷ "m2" ∷ "m3" ∷ []

lists_three : list_recent_messages server (pos 3) ≡ ok three
unfolding list_recent_messages
lists_three = refl

length-take-le : (most : ℕ) (ids : List (Option String)) → length (take most ids) ≤ most
length-take-le zero ids = omega arith
length-take-le (suc most) [] = omega arith
length-take-le (suc most) (x ∷ ids) = omega (arith, length-take-le most ids)

returned : (r : Result Fault MessagesPage) → MessagesPage
returned (Result.err e) = page_one
returned (ok p) = p

server-Respects : Respects server
unfolding returned
server-Respects = record { asked = asked }
  where
    asked :
        (token : Option String) (most : ℕ) (p : MessagesPage)
        → server token most ≡ ok p
        → length p.ids ≤ most
    asked none most p e =
        let q : at_most most page_one ≡ p = λ i. returned (e i) in
        rw (← q) (length-take-le most page_one.ids)
    asked (some token) most p e =
        let q : at_most most page_two ≡ p = λ i. returned (e i) in
        rw (← q) (length-take-le most page_two.ids)

list_recent_messages-Rounds_example : Rounds server 3 none [] (list_recent_messages server (pos 3))
list_recent_messages-Rounds_example = list_recent_messages-Rounds server (pos 3)

list_recent_messages-le_example : length three ≤ 3
list_recent_messages-le_example =
    list_recent_messages-le server (pos 3) three server-Respects lists_three

abbrev pages : String → HistoryPages
pages start =
    more (record { history_id = some "20"; added = some "m1" ∷ some "m2" ∷ [] })
      (last (record { history_id = none; added = some "m1" ∷ some "m3" ∷ [] }))

abbrev listed : History
listed = record { history_id = "20"; message_ids = "m1" ∷ "m2" ∷ "m3" ∷ [] }

lists_history : list_history pages "10" ≡ ok listed
unfolding list_history
lists_history = refl

list_history-IsListed_example : IsListed "10" (pages "10") listed
list_history-IsListed_example = list_history-IsListed pages "10" listed lists_history
