-- ===== src/Polling/Exclusion.antt =====
-- Pollers of one mailbox that take and release the lease in any order, over any time.
use ticketmirror.Base.{
  ℕ, ◌+◌, ◌-◌, ◌≤◌, ◌<◌, String, ◌≡◌, refl, sym, ap, ◌∙◌, ◌≢◌, ◌⊎◌, inl, inr, Bool, true, false,
  not, Option, none, some, List, [], ◌∷◌, In, filter, In-filter, arith, ltb, str_eq, Bool-cases,
}
use ticketmirror.Polling.Lock.{
  SyncState, lock_stale_after, get_or_create_state, can_acquire, acquire_poll_lock,
  release_poll_lock,
}

-- A poller that took the lease and did not release it; it may have crashed.
pub record Holder : Type 0 where
  pub token : String
  pub since : ℕ

-- The clock, the row of the mailbox, and the pollers at work.
pub record System : Type 0 where
  pub now : ℕ
  pub row : Option SyncState
  pub holders : List Holder

abbrev pub is_other : String → Holder → Bool
is_other token h = not (str_eq h.token token)

-- The clock goes forward with every attempt; a token is a UUID, so it is not empty.
pub data Step : System → System → Type 0 where
  acquires :
      (s : System) (token : String) (now : ℕ) (row : SyncState)
      → s.now ≤ now
      → str_eq token "" ≡ false
      → acquire_poll_lock token now s.row ≡ (some token, row)
      → Step s (record {
        now = now;
        row = some row;
        holders = record { token = token; since = now } ∷ s.holders;
      })
  is_refused :
      (s : System) (token : String) (now : ℕ) (row : SyncState)
      → s.now ≤ now
      → acquire_poll_lock token now s.row ≡ (none, row)
      → Step s (record { now = now; row = some row; holders = s.holders })
  releases :
      (s : System) (h : Holder) (row : SyncState)
      → In h s.holders
      → s.row ≡ some row
      → Step s (record {
        now = s.now;
        row = some (release_poll_lock h.token row);
        holders = filter (is_other h.token) s.holders;
      })

pub data Reachable : System → Type 0 where
  start : (now : ℕ) → Reachable (record { now = now; row = none; holders = [] })
  next : (s t : System) → Reachable s → Step s t → Reachable t

abbrev pub IsStale : ℕ → Holder → Type 0
IsStale now h = h.since + lock_stale_after < now

-- The row shows the holder's lease.
pub record Shows (row : Option SyncState) (h : Holder) : Type 0 where
  pub state : SyncState
  pub here : row ≡ some state
  pub token : state.poll_lock_token ≡ some h.token
  pub since : state.poll_lock_acquired_at ≡ some h.since
  pub named : str_eq h.token "" ≡ false

-- Every lease but a stale one is the one that the row shows.
abbrev Kept : System → Type 0
Kept s = (h : Holder) → In h s.holders → Shows s.row h ⊎ IsStale s.now h

taken_over :
    (s : SyncState) (h : Holder) (now : ℕ)
    → s.poll_lock_token ≡ some h.token
    → s.poll_lock_acquired_at ≡ some h.since
    → str_eq h.token "" ≡ false
    → can_acquire now s ≡ true
    → IsStale now h
unfolding can_acquire
taken_over s h now t a n c =
    let q : ltb h.since (now - lock_stale_after) ≡ true = rw (t, n, a) at c in ground arith

-- The two outcomes of an attempt.
pub acquired :
    (token : String) (now : ℕ) (o : Option SyncState) (row : SyncState)
    → acquire_poll_lock token now o ≡ (some token, row)
    → (can_acquire now (get_or_create_state o) ≡ true)
      × (row.poll_lock_token ≡ some token)
      × (row.poll_lock_acquired_at ≡ some now)
unfolding acquire_poll_lock
acquired token now o row e = elim (Bool-cases (can_acquire now (get_or_create_state o))) [
  | inl c ↦
      let q = rw c at e in
      (c, sym (ap (λ x. x.1.poll_lock_token) q), sym (ap (λ x. x.1.poll_lock_acquired_at) q))
  | inr c ↦ let q : none ≡ some token = ap (λ x. x.0) (rw c at e) in cc
]

pub refused :
    (token : String) (now : ℕ) (o : Option SyncState) (row : SyncState)
    → acquire_poll_lock token now o ≡ (none, row)
    → row ≡ get_or_create_state o
unfolding acquire_poll_lock
refused token now o row e = elim (Bool-cases (can_acquire now (get_or_create_state o))) [
  | inl c ↦ let q : some token ≡ none = ap (λ x. x.0) (rw c at e) in cc
  | inr c ↦ let q = rw c at e in sym (ap (λ x. x.1) q)
]

-- A lease that the row shows stays shown by a row that leaves the token and its time alone.
still_shown :
    (o : Option SyncState) (h : Holder) (row : SyncState)
    → row ≡ get_or_create_state o
    → Shows o h
    → Shows (some row) h
still_shown o h row e k =
    let r : get_or_create_state o ≡ k.state = rw k.here in
    let q : row ≡ k.state = e ∙ r in
    record { state = k.state; here = ap some q; token = k.token; since = k.since; named = k.named }

released_other :
    (token : String) (row : SyncState) (h : Holder)
    → str_eq h.token token ≡ false
    → Shows (some row) h
    → Shows (some (release_poll_lock token row)) h
unfolding release_poll_lock
released_other token row h ne k =
    let q : row ≡ k.state = cc (k.here) in
    let t : row.poll_lock_token ≡ some h.token = rw q k.token in
    record { state = row; here = rw t (rw ne); token = t; since = rw q k.since; named = k.named }

Kept-Step : (s t : System) → Step s t → Kept s → Kept t
Kept-Step s _ (acquires _ token now row le named e) k h (inl q) =
    let (_, p, r) = acquired token now s.row row e in
    inl (rw q (record { state = row; here = refl; token = p; since = r; named = named }))
Kept-Step s _ (acquires _ token now row le named e) k h (inr i) =
    let (c, _, _) = acquired token now s.row row e in
    elim (k h i) [
      | inl shown ↦
          let f : get_or_create_state s.row ≡ shown.state = rw shown.here in
          inr (taken_over shown.state h now shown.token shown.since shown.named (rw f at c))
      | inr stale ↦ inr (omega (arith, stale, le))
    ]
Kept-Step s _ (is_refused _ token now row le e) k h i = elim (k h i) [
  | inl shown ↦ inl (still_shown s.row h row (refused token now s.row row e) shown)
  | inr stale ↦ inr (omega (arith, stale, le))
]
Kept-Step s _ (releases _ g row j e) k h i =
    let (old, other) = In-filter (is_other g.token) h s.holders i in
    let ne : str_eq h.token g.token ≡ false = ground (arith, other) in
    elim (k h old) [
      | inl shown ↦ inl (released_other g.token row h ne (rw e at shown))
      | inr stale ↦ inr stale
    ]

Reachable-Kept : (s : System) → Reachable s → Kept s
Reachable-Kept _ (start now) = λ h i. absurd i
Reachable-Kept _ (next s t r step) = Kept-Step s t step (Reachable-Kept s r)

-- Whatever the order in which pollers take, fail to take and release the lease of a mailbox, of two
-- pollers at work with different tokens at least one has held its lease for more than ten minutes.
pub acquire_poll_lock-exclusive :
    (s : System) (g h : Holder)
    → Reachable s
    → In g s.holders
    → In h s.holders
    → g.token ≢ h.token
    → IsStale s.now g ⊎ IsStale s.now h
acquire_poll_lock-exclusive s g h r i j ne = elim (Reachable-Kept s r g i) [
  | inr stale ↦ inl stale
  | inl a ↦ elim (Reachable-Kept s r h j) [
    | inr stale ↦ inr stale
    | inl b ↦
        let q : a.state ≡ b.state = cc (a.here, b.here) in
        let p : some g.token ≡ some h.token =
          sym a.token ∙ (ap (λ x. x.poll_lock_token) q ∙ b.token) in
        absurd (ne cc)
  ]
]
