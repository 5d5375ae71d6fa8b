-- ===== src/Polling/Recovery.antt =====
-- A lease that nobody renews is not lost: the next poller gets it.
use ticketmirror.Base.{
  ℕ, ◌-◌, String, ◌≡◌, refl, sym, ◌∙◌, inl, inr, true, false, some, List, In, filter, filter-In,
  arith, Bool-cases,
}
use ticketmirror.Polling.Lock.{
  SyncState, lock_stale_after, get_or_create_state, has_no_token, is_before, can_acquire,
  acquire_poll_lock, holds_token, release_poll_lock,
}
use ticketmirror.Polling.Exclusion.{
  Holder, System, is_other, Step, acquires, is_refused, releases, Reachable, start, next, IsStale,
  acquired, refused,
}

-- The poller whose lease a row shows.
record Owner (holders : List Holder) (row : SyncState) : Type 0 where
  pub holder : Holder
  pub at_work : In holder holders
  pub token : row.poll_lock_token ≡ some holder.token
  pub since : row.poll_lock_acquired_at ≡ some holder.since

-- A row with a token is the lease of a poller at work.
abbrev Owned : System → Type 0
Owned s =
    (row : SyncState)
    → get_or_create_state s.row ≡ row
    → has_no_token row.poll_lock_token ≡ false
    → Owner s.holders row

released-Owner :
    (token : String) (row : SyncState) (holders : List Holder)
    → (has_no_token row.poll_lock_token ≡ false → Owner holders row)
    → has_no_token (release_poll_lock token row).poll_lock_token ≡ false
    → Owner (filter (is_other token) holders) (release_poll_lock token row)
unfolding release_poll_lock
released-Owner token row holders owned h =
    elim (Bool-cases (holds_token token row.poll_lock_token)) [
      | inl t ↦ let q : true ≡ false = rw t at h in cc
      | inr f ↦
          let o = owned (rw f at h) in
          let ne : holds_token token (some o.holder.token) ≡ false = rw o.token at f in
          rw f (record {
            holder = o.holder;
            at_work = filter-In (is_other token) o.holder holders o.at_work (rw ne refl);
            token = o.token;
            since = o.since;
          })
    ]

Owned-Step : (s t : System) → Step s t → Owned s → Owned t
Owned-Step s _ (acquires _ token now row le named e) owned row' q h =
    let (_, p, r) = acquired token now s.row row e in
    rw (← q) (record {
      holder = record { token = token; since = now };
      at_work = inl refl;
      token = p;
      since = r;
    })
Owned-Step s _ (is_refused _ token now row le e) owned row' q h =
    owned row' (sym (refused token now s.row row e) ∙ q) h
Owned-Step s _ (releases _ g row i e) owned row' q h =
    let o = released-Owner g.token row s.holders (owned row (rw e refl)) (rw (← q) at h) in
    rw (← q) o

Reachable-Owned : (s : System) → Reachable s → Owned s
Reachable-Owned _ (start now) = λ row q h. let r : true ≡ false = rw (← q) at h in cc
Reachable-Owned _ (next s t r step) = Owned-Step s t step (Reachable-Owned s r)

stale-is_before :
    (now : ℕ) (h : Holder)
    → IsStale now h
    → is_before (some h.since) (now - lock_stale_after) ≡ true
stale-is_before now h stale = ground arith

-- However the pollers took and released the lease of a mailbox, and whichever of them crashed: when
-- every lease that was not released is older than ten minutes, the next attempt succeeds.
pub acquire_poll_lock-recovers :
    (s : System) (token : String) (now : ℕ)
    → Reachable s
    → ((h : Holder) → In h s.holders → IsStale now h)
    → (acquire_poll_lock token now s.row).0 ≡ some token
unfolding acquire_poll_lock can_acquire
acquire_poll_lock-recovers s token now r stale =
    let row = get_or_create_state s.row in
    elim (Bool-cases (has_no_token row.poll_lock_token)) [
      | inl t ↦ rw t refl
      | inr f ↦
          let o = Reachable-Owned s r row refl f in
          let b : is_before row.poll_lock_acquired_at (now - lock_stale_after) ≡ true =
            rw o.since (stale-is_before now o.holder (stale o.holder o.at_work)) in
          rw (f, b) refl
    ]
