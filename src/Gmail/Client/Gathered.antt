-- ===== src/Gmail/Client/Gathered.antt =====
-- `list_history` gives every message of the pages, once.
use ticketmirror.Base.{
  ◌≡◌, refl, sym, ◌∙◌, ap, String, true, false, Option, none, some, List, [], ◌∷◌, ◌++◌, ◌⊎◌, inl,
  inr, ◌↔◌, In, Bool-cases, eq_iff, str_eq,
}
use ticketmirror.Base.Names.{member}
use ticketmirror.Base.Result.{Result, ok, err}
use ticketmirror.Bookings.Reviews.{has_text}
use ticketmirror.Gmail.Client.{
  Fault, other_error, HistoryPages, fails, last, more, History, text_else, add_message,
  add_messages, history_from, list_history,
}

-- No text stands twice in the list.
abbrev pub IsOnce : List String → Type 0
IsOnce [] = Unit
IsOnce (x ∷ xs) = (In x xs → ⊥) × IsOnce xs

-- A message that a page adds.
abbrev pub Added : String → HistoryPages → Type 0
Added id (fails e) = ⊥
Added id (last p) = In (some id) p.added
Added id (more p ps) = In (some id) p.added ⊎ Added id ps

member-In : (id : String) (ids : List String) → member id ids ≡ true → In id ids
member-In id [] h = cc
member-In id (x ∷ xs) h = elim (Bool-cases (str_eq x id)) [
  | inl t ↦ inl (sym ((eq_iff x id).0 t))
  | inr f ↦ inr (member-In id xs (rw f at h))
]

In-member : (id : String) (ids : List String) → In id ids → member id ids ≡ true
In-member id [] i = absurd i
In-member id (x ∷ xs) (inl e) = rw ((eq_iff x id).1 (sym e)) refl
In-member id (x ∷ xs) (inr i) = elim (Bool-cases (str_eq x id)) [
  | inl t ↦ rw t refl
  | inr f ↦ rw f (In-member id xs i)
]

module _ (id : String) where
  In-append_last : (x : String) (xs : List String) → In id (xs ++ x ∷ []) ↔ (In id xs ⊎ (id ≡ x))
  In-append_last x [] = (
    (λ h. elim h [ inl e ↦ inr e | inr i ↦ absurd i ]),
    (λ h. elim h [ inl i ↦ absurd i | inr e ↦ inl e ]),
  )
  In-append_last x (y ∷ ys) =
      let ih = In-append_last x ys in
      (
        (λ h. elim h [
          | inl e ↦ inl (inl e)
          | inr i ↦ elim (ih.0 i) [ inl j ↦ inl (inr j) | inr e ↦ inr e ]
        ]),
        (λ h. elim h [
          | inl j ↦ elim j [ inl e ↦ inl e | inr i ↦ inr (ih.1 (inl i)) ]
          | inr e ↦ inr (ih.1 (inr e))
        ]),
      )

append-IsOnce : (x : String) (xs : List String) → IsOnce xs → (In x xs → ⊥) → IsOnce (xs ++ x ∷ [])
append-IsOnce x [] o n = ((λ h. h), tt)
append-IsOnce x (y ∷ ys) o n = (
  (λ h. elim ((In-append_last y x ys).0 h) [ inl i ↦ o.0 i | inr e ↦ n (inl (sym e)) ]),
  append-IsOnce x ys o.1 (λ i. n (inr i)),
)

-- What the ids are after some more messages: each once, the old ones and the new ones with a text.
record Gathers (before after : List String) (Adds : String → Type 0) : Type 0 where
  pub once : IsOnce before → IsOnce after
  pub all_of : (id : String) → has_text id ≡ true → (In id after) ↔ (In id before ⊎ Adds id)

add_message-Gathers :
    (ids : List String) (m : Option String) → Gathers ids (add_message ids m) (λ id. some id ≡ m)
unfolding add_message
add_message-Gathers ids none = record {
  once = λ o. o;
  all_of = λ id t. ((λ i. inl i), (λ h. elim h [ inl i ↦ i | inr e ↦ cc ]));
}
add_message-Gathers ids (some x) = elim (Bool-cases (has_text x)) [
  | inr f ↦ rw f (record {
    once = λ o. o;
    all_of = λ id t. (
      (λ i. inl i),
      (λ h. elim h [
        | inl i ↦ i
        | inr e ↦ (let p : id ≡ x = cc in let u : has_text x ≡ true = rw (← p) t in cc)
      ]),
    );
  })
  | inl t ↦ elim (Bool-cases (member x ids)) [
    | inl m ↦
        rw (t, m)
          (record {
            once = λ o. o;
            all_of = λ id u. (
              (λ i. inl i),
              (λ h. elim h [
                | inl i ↦ i
                | inr e ↦ (let p : id ≡ x = cc in rw p (member-In x ids m))
              ]),
            );
          })
    | inr n ↦
        rw (t, n)
          (record {
            once = λ o.
                append-IsOnce x ids o
                  (λ i. let q : true ≡ false = sym (In-member x ids i) ∙ n in cc);
            all_of = λ id u. (
              (λ h. elim ((In-append_last id x ids).0 h) [
                | inl i ↦ inl i
                | inr e ↦ inr (ap some e)
              ]),
              (λ h. elim h [
                | inl i ↦ (In-append_last id x ids).1 (inl i)
                | inr e ↦ (In-append_last id x ids).1 (inr (cc))
              ]),
            );
          })
  ]
]

Gathers-trans :
    (l m n : List String) (P Q : String → Type 0)
    → Gathers l m P
    → Gathers m n Q
    → Gathers l n (λ id. P id ⊎ Q id)
Gathers-trans l m n P Q f g = record {
  once = λ o. g.once (f.once o);
  all_of = λ id t. (
    (λ h. elim ((g.all_of id t).0 h) [
      | inl i ↦ elim ((f.all_of id t).0 i) [ inl j ↦ inl j | inr p ↦ inr (inl p) ]
      | inr q ↦ inr (inr q)
    ]),
    (λ h. elim h [
      | inl i ↦ (g.all_of id t).1 (inl ((f.all_of id t).1 (inl i)))
      | inr r ↦ elim r [
        | inl p ↦ (g.all_of id t).1 (inl ((f.all_of id t).1 (inr p)))
        | inr q ↦ (g.all_of id t).1 (inr q)
      ]
    ]),
  );
}

add_messages-Gathers :
    (ids : List String) (ms : List (Option String))
    → Gathers ids (add_messages ids ms) (λ id. In (some id) ms)
unfolding add_messages
add_messages-Gathers ids [] = record {
  once = λ o. o;
  all_of = λ id t. ((λ i. inl i), (λ h. elim h [ inl i ↦ i | inr i ↦ absurd i ]));
}
add_messages-Gathers ids (m ∷ ms) =
    Gathers-trans ids (add_message ids m) (add_messages (add_message ids m) ms) (λ id. some id ≡ m)
      (λ id. In (some id) ms) (add_message-Gathers ids m)
      (add_messages-Gathers (add_message ids m) ms)

returned : History → Result Fault History → History
returned h (err e) = h
returned h (ok r) = r

err-ne-ok : (e : Fault) (h : History) → Result.err e ≡ ok h → ⊥
err-ne-ok e h q = cc

history_from-Gathers :
    (ids : List String) (latest : String) (ps : HistoryPages) (h : History)
    → history_from ids latest ps ≡ ok h
    → Gathers ids h.message_ids (λ id. Added id ps)
unfolding history_from returned
history_from-Gathers ids latest (fails e) h q = cc
history_from-Gathers ids latest (last p) h q =
    let same : add_messages ids p.added ≡ h.message_ids = ap (λ r. (returned h r).message_ids) q in
    rw (← same) (add_messages-Gathers ids p.added)
history_from-Gathers ids latest (more p ps) h q =
    Gathers-trans ids (add_messages ids p.added) h.message_ids (λ id. In (some id) p.added)
      (λ id. Added id ps) (add_messages-Gathers ids p.added)
      (history_from-Gathers (add_messages ids p.added) (text_else p.history_id latest) ps h q)

-- The history id that the last of the pages with one gives.
abbrev pub last_history_id : String → HistoryPages → String
last_history_id latest (fails e) = latest
last_history_id latest (last p) = text_else p.history_id latest
last_history_id latest (more p ps) = last_history_id (text_else p.history_id latest) ps

history_from-history_id :
    (ids : List String) (latest : String) (ps : HistoryPages) (h : History)
    → history_from ids latest ps ≡ ok h
    → h.history_id ≡ last_history_id latest ps
unfolding history_from returned
history_from-history_id ids latest (fails e) h q = cc
history_from-history_id ids latest (last p) h q = ap (λ r. (returned h r).history_id) (sym q)
history_from-history_id ids latest (more p ps) h q =
    history_from-history_id (add_messages ids p.added) (text_else p.history_id latest) ps h q

-- What a listing of the history from `start` gives.
pub record IsListed (start : String) (ps : HistoryPages) (h : History) : Type 0 where
  pub once : IsOnce h.message_ids
  pub complete : (id : String) → has_text id ≡ true → (In id h.message_ids) ↔ Added id ps
  pub cursor : h.history_id ≡ last_history_id start ps

-- A listing of the history that succeeds gives each message that one of the pages adds and no other,
-- each once, and the history id of the last page that has one, or else the one it started from.
pub list_history-IsListed :
    (pages : String → HistoryPages) (start : String) (h : History)
    → list_history pages start ≡ ok h
    → IsListed start (pages start) h
unfolding list_history
list_history-IsListed pages start h q = elim (Bool-cases (has_text start)) [
  | inr f ↦ absurd (err-ne-ok (other_error "start_history_id is required") h (rw f at q))
  | inl t ↦
      let e : history_from [] start (pages start) ≡ ok h = rw t at q in
      let g = history_from-Gathers [] start (pages start) h e in
      record {
        once = g.once tt;
        complete = λ id u. (
          (λ i. elim ((g.all_of id u).0 i) [ inl j ↦ absurd j | inr a ↦ a ]),
          (λ a. (g.all_of id u).1 (inr a)),
        );
        cursor = history_from-history_id [] start (pages start) h e;
      }
]
