-- ===== src/Gmail/Client/Recent.antt =====
-- The loop of `list_recent_messages` ends, and gives at most as many messages as it was asked for.
use Prim.Native.Nat.{min}
use ticketmirror.Base.{
  ℕ, zero, suc, ◌+◌, ◌-◌, ◌≤◌, ◌<◌, ◌≡◌, refl, String, true, false, Option, none, some, List, [],
  ◌∷◌, ◌++◌, ◌⊎◌, inl, inr, arith, ltb, length, length-append, Bool-cases,
}
use ticketmirror.Base.Int.{ℤ, pos_part}
use ticketmirror.Base.Result.{Result, ok, err}
use ticketmirror.Gmail.Client.{
  Fault, MessagesPage, batch_of, is_last, is_empty_list, Server, after_page, recent_from,
  list_recent_messages,
}

-- The rounds of the loop as the source writes them: from a page token and the messages so far, to
-- the messages returned or the exception raised.
pub data Rounds (server : Server) (limit : ℕ)
    : Option String → List String → Result Fault (List String) → Type 0 where
  enough :
      {token : Option String} {ids : List String}
      → limit ≤ length ids
      → Rounds server limit token ids (ok ids)
  raises :
      {token : Option String} {ids : List String} (e : Fault)
      → length ids < limit
      → server token (min (limit - length ids) 100) ≡ err e
      → Rounds server limit token ids (err e)
  stops :
      {token : Option String} {ids : List String} (p : MessagesPage)
      → length ids < limit
      → server token (min (limit - length ids) 100) ≡ ok p
      → is_last p ≡ true
      → Rounds server limit token ids (ok (ids ++ batch_of p.ids))
  goes_on :
      {token : Option String} {ids : List String} {r : Result Fault (List String)}
      (p : MessagesPage)
      → length ids < limit
      → server token (min (limit - length ids) 100) ≡ ok p
      → is_last p ≡ false
      → Rounds server limit p.next_page_token (ids ++ batch_of p.ids) r
      → Rounds server limit token ids r

Result-cases :
    (r : Result Fault MessagesPage)
    → ((e : Fault) × (r ≡ err e)) ⊎ ((p : MessagesPage) × (r ≡ ok p))
Result-cases (err e) = inl (e, refl)
Result-cases (ok p) = inr (p, refl)

-- A page that the loop goes on from has a message.
batch_pos : (p : MessagesPage) → is_last p ≡ false → 0 < length (batch_of p.ids)
unfolding is_last
batch_pos p h = nonempty (batch_of p.ids) (ground arith)
  where
    nonempty : (ids : List String) → is_empty_list ids ≡ false → 0 < length ids
    nonempty [] e = cc
    nonempty (x ∷ xs) e = omega arith

recent_from-Rounds :
    (server : Server) (limit rounds : ℕ) (token : Option String) (ids : List String)
    → limit ≤ rounds + length ids
    → Rounds server limit token ids (recent_from server limit rounds token ids)
unfolding recent_from after_page
recent_from-Rounds server limit zero token ids h = enough (omega arith)
recent_from-Rounds server limit (suc rounds) token ids h =
    elim (Bool-cases (ltb (length ids) limit)) [
      | inr f ↦ rw f (enough (ground arith))
      | inl t ↦
          let below : length ids < limit = ground arith in
          elim (Result-cases (server token (min (limit - length ids) 100))) [
            | inl (e, q) ↦ rw (t, q) (raises e below q)
            | inr (p, q) ↦ elim (Bool-cases (is_last p)) [
              | inl l ↦ rw (t, q, l) (stops p below q l)
              | inr g ↦
                  rw (t, q, g)
                    (goes_on p below q g (
                      recent_from-Rounds server limit rounds p.next_page_token
                        (ids ++ batch_of p.ids)
                        (omega (arith, batch_pos p g, length-append {0} ids (batch_of p.ids)))))
            ]
          ]
    ]

-- The loop of `list_recent_messages` ends, whatever the server answers: it gives what the rounds of
-- the source give, from no page token and no messages, until the limit is reached, a page has no
-- token or no message, or a request raises.
pub list_recent_messages-Rounds :
    (server : Server) (limit : ℤ)
    → Rounds server (pos_part limit) none [] (list_recent_messages server limit)
unfolding list_recent_messages
list_recent_messages-Rounds server limit =
    recent_from-Rounds server (pos_part limit) (pos_part limit) none [] (omega arith)

-- A server that answers with no more messages than asked for.
pub record Respects (server : Server) : Type 0 where
  pub asked :
      (token : Option String) (most : ℕ) (p : MessagesPage)
      → server token most ≡ ok p
      → length p.ids ≤ most

length-batch_of-le : (ms : List (Option String)) → length (batch_of ms) ≤ length ms
unfolding batch_of
length-batch_of-le [] = omega arith
length-batch_of-le (none ∷ ms) = omega (arith, length-batch_of-le ms)
length-batch_of-le (some id ∷ ms) = ground (arith, length-batch_of-le ms)

module _ (server : Server) (limit : ℕ) (respects : Respects server) where
  page-le :
      (token : Option String) (ids : List String) (p : MessagesPage)
      → length ids < limit
      → server token (min (limit - length ids) 100) ≡ ok p
      → length (ids ++ batch_of p.ids) ≤ limit
  page-le token ids p h q = omega (
    arith,
    respects.asked token _ p q,
    length-batch_of-le p.ids,
    length-append {0} ids (batch_of p.ids),
  )

  Rounds-le :
      {token : Option String} {ids : List String} {r : Result Fault (List String)}
      (found : List String)
      → Rounds server limit token ids r
      → length ids ≤ limit
      → r ≡ ok found
      → length found ≤ limit
  Rounds-le found (enough h) le e = ground arith
  Rounds-le found (raises f h q) le e = cc
  Rounds-le found (stops p h q l) le e = ground (arith, page-le _ _ p h q)
  Rounds-le found (goes_on p h q g r) le e = Rounds-le found r (page-le _ _ p h q) e

-- A server that answers with no more messages than asked for gives at most `limit` of them, and
-- none where the limit is 0 or below.
pub list_recent_messages-le :
    (server : Server) (limit : ℤ) (found : List String)
    → Respects server
    → list_recent_messages server limit ≡ ok found
    → length found ≤ pos_part limit
list_recent_messages-le server limit found respects e =
    Rounds-le server (pos_part limit) respects found (list_recent_messages-Rounds server limit)
      (omega arith) e
