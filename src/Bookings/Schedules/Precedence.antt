-- ===== src/Bookings/Schedules/Precedence.antt =====
-- Which schedule `resolve_active_schedule` picks.
use ticketmirror.Base.{
  ℕ, ◌≤◌, ◌<◌, ◌≡◌, refl, ◌⊎◌, inl, inr, [], head?, Option-cases, true, Option, none, some, List,
  In, arith, leb, ◌==◌, ==_iff, In-filter, filter-In, filter,
}
use ticketmirror.Base.Order.{lex_total, lex_trans}
use ticketmirror.Base.Sort.{IsOrder, sort, head-sort_least, head-sort-none}
use ticketmirror.Data.{Db, ActivitySchedule}
use ticketmirror.Bookings.Schedules.{
  covers, schedule_date_span, kind_rank, precedes, schedules_of, resolve_active_schedule,
}

-- The schedule is active and the date lies within its optional bounds.
abbrev pub IsInForce : ℕ → ActivitySchedule → Type 0
IsInForce service_date s =
    (s.active ≡ true)
    × ((d : ℕ) → s.date_from ≡ some d → d ≤ service_date)
    × ((d : ℕ) → s.date_to ≡ some d → service_date ≤ d)

-- A schedule of the activity that is in force on the date.
pub record IsCandidate (db : Db) (activity service_date : ℕ) (s : ActivitySchedule) : Type 0 where
  pub stored : In s db.schedules
  pub of_activity : s.activity ≡ activity
  pub in_force : IsInForce service_date s

-- The shorter span, then the current kind, then the smaller priority number, then the older row.
abbrev pub IsBefore : ActivitySchedule → ActivitySchedule → Type 0
IsBefore s t =
    (schedule_date_span s < schedule_date_span t)
    ⊎ ((schedule_date_span s ≡ schedule_date_span t)
        × ((kind_rank s.schedule_kind < kind_rank t.schedule_kind)
            ⊎ ((kind_rank s.schedule_kind ≡ kind_rank t.schedule_kind)
                × ((s.priority < t.priority) ⊎ ((s.priority ≡ t.priority) × (s.id ≤ t.id))))))

precedes-IsOrder : IsOrder precedes
unfolding precedes
precedes-IsOrder = record {
  total = λ s t. lex_total (schedule_date_span s) (schedule_date_span t) _ _ (
      lex_total (kind_rank s.schedule_kind) (kind_rank t.schedule_kind) _ _
        (lex_total s.priority t.priority (leb s.id t.id) (leb t.id s.id) (λ h. ground arith)));
  trans = λ r s t.
      lex_trans (schedule_date_span r) (schedule_date_span s) (schedule_date_span t) _ _ _ (
        lex_trans (kind_rank r.schedule_kind) (kind_rank s.schedule_kind)
          (kind_rank t.schedule_kind) _ _ _
          (lex_trans r.priority s.priority t.priority (leb r.id s.id) (leb s.id t.id)
            (leb r.id t.id) (λ h k. ground arith)));
}

precedes-IsBefore : (s t : ActivitySchedule) → precedes s t ≡ true → IsBefore s t
unfolding precedes
precedes-IsBefore s t h = ground arith

covers-IsInForce : (d : ℕ) (s : ActivitySchedule) → covers d s ≡ true → IsInForce d s
unfolding covers
covers-IsInForce d s h = ground arith

IsInForce-covers : (d : ℕ) (s : ActivitySchedule) → IsInForce d s → covers d s ≡ true
unfolding covers
IsInForce-covers d s (a, b, c) = elim (Option-cases s.date_from) [
  | inl e ↦ elim (Option-cases s.date_to) [
    | inl k ↦ ground arith
    | inr (y, k) ↦ let p : d ≤ y = c y k in ground arith
  ]
  | inr (x, e) ↦
      let q : x ≤ d = b x e in
      elim (Option-cases s.date_to) [
        | inl k ↦ ground arith
        | inr (y, k) ↦ let p : d ≤ y = c y k in ground arith
      ]
]

schedules_of-In :
    (db : Db) (a d : ℕ) (s : ActivitySchedule)
    → IsCandidate db a d s
    → In s (filter (covers d) (schedules_of db a))
unfolding schedules_of
schedules_of-In db a d s h =
    filter-In (covers d) s _
      (filter-In (λ t. t.activity == a) s db.schedules h.stored ((==_iff _ _).1 h.of_activity))
      (IsInForce-covers d s h.in_force)

In-schedules_of :
    (db : Db) (a d : ℕ) (s : ActivitySchedule)
    → In s (filter (covers d) (schedules_of db a))
    → IsCandidate db a d s
unfolding schedules_of
In-schedules_of db a d s h =
    let (m, c) = In-filter (covers d) s _ h in
    let (stored, e) = In-filter (λ t. t.activity == a) s db.schedules m in
    record { stored = stored; of_activity = (==_iff _ _).0 e; in_force = covers-IsInForce d s c }

-- What is resolved, by whether a schedule is found.
abbrev pub Resolves : Db → ℕ → ℕ → Option ActivitySchedule → Type 0
Resolves db a d none = (s : ActivitySchedule) → ¬ IsCandidate db a d s
Resolves db a d (some s) =
    IsCandidate db a d s × ((t : ActivitySchedule) → IsCandidate db a d t → IsBefore s t)

Resolves-head :
    (db : Db) (a d : ℕ) (o : Option ActivitySchedule)
    → head? (sort precedes (filter (covers d) (schedules_of db a))) ≡ o
    → Resolves db a d o
Resolves-head db a d none e =
    λ s h. empty_In s (head-sort-none precedes precedes-IsOrder _ e) (schedules_of-In db a d s h)
  where
    empty_In : (s : ActivitySchedule) {l : List ActivitySchedule} → l ≡ [] → In s l → ⊥
    empty_In s e h = rw e at h
Resolves-head db a d (some s) e =
    let (m, least) = head-sort_least precedes precedes-IsOrder s _ e in
    (
      In-schedules_of db a d s m,
      λ t h. precedes-IsBefore s t (least t (schedules_of-In db a d t h)),
    )

-- `resolve_active_schedule` returns a stored schedule of the activity that is active and covers
-- the date, and that comes before every other such schedule (shorter span, then current kind, then
-- smaller priority, then smaller id); it returns `None` exactly where no schedule qualifies.
pub resolve_active_schedule_least :
    (db : Db) (activity service_date : ℕ)
    → Resolves db activity service_date (resolve_active_schedule db activity service_date)
unfolding resolve_active_schedule
resolve_active_schedule_least db a d = Resolves-head db a d _ refl
