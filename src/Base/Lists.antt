-- ===== src/Base/Lists.antt =====
-- Lists under Boolean tests, as Python's comprehensions, `any`, `all`, `next` and `sum` read them.
use Prim.Native.Nat.{ℕ, zero, suc, ◌+◌, ◌≤◌}
use mathlib.Core.Path.{◌≡◌, sym}
use mathlib.Core.Logic.{◌⊎◌, inl, inr}
use mathlib.Core.Bool.{Bool, true, false, ◌&&◌, ◌||◌}
use mathlib.Core.List.{List, [], ◌∷◌, ◌++◌}
use mathlib.Core.Option.{Option, none, some}
use native.Mathlib.Omega.{arith}
use ticketmirror.Base.Tests.{if◌then◌else◌, Bool-cases}

module _ {ℓ} {A : Type ℓ} where
  abbrev pub length : List A → ℕ
  length [] = 0
  length (x ∷ xs) = suc (length xs)

  abbrev pub filter : (A → Bool) → List A → List A
  filter p [] = []
  filter p (x ∷ xs) = let rest = filter p xs in if p x then x ∷ rest else rest

  abbrev pub any : (A → Bool) → List A → Bool
  any p [] = false
  any p (x ∷ xs) = p x || any p xs

  abbrev pub all : (A → Bool) → List A → Bool
  all p [] = true
  all p (x ∷ xs) = p x && all p xs

  -- The first element that passes the test.
  abbrev pub find? : (A → Bool) → List A → Option A
  find? p [] = none
  find? p (x ∷ xs) = if p x then some x else find? p xs

  abbrev pub head? : List A → Option A
  head? [] = none
  head? (x ∷ xs) = some x

  abbrev pub sum_by : (A → ℕ) → List A → ℕ
  sum_by f [] = 0
  sum_by f (x ∷ xs) = f x + sum_by f xs

  abbrev pub take : ℕ → List A → List A
  take zero xs = []
  take (suc n) [] = []
  take (suc n) (x ∷ xs) = x ∷ take n xs

  -- Quantification by recursion.
  abbrev pub All {κ} : (A → Type κ) → List A → Type κ
  All P [] = Unit
  All P (x ∷ xs) = P x × All P xs

-- Membership by recursion.
abbrev pub In : {A : Type 0} → A → List A → Type 0
In x [] = ⊥
In x (y ∷ ys) = (x ≡ y) ⊎ In x ys

module _ {ℓ} {A : Type ℓ} where
  pub length-filter-le : (p : A → Bool) (xs : List A) → length (filter p xs) ≤ length xs
  length-filter-le p [] = omega arith
  length-filter-le p (x ∷ xs) = ground (arith, length-filter-le p xs)

  pub length-append : (xs ys : List A) → length (xs ++ ys) ≡ length xs + length ys
  length-append [] ys = omega arith
  length-append (x ∷ xs) ys = omega (arith, length-append xs ys)

  pub sum_by-append : (f : A → ℕ) (xs ys : List A) → sum_by f (xs ++ ys) ≡ sum_by f xs + sum_by f ys
  sum_by-append f [] ys = omega arith
  sum_by-append f (x ∷ xs) ys = omega (arith, sum_by-append f xs ys)

-- Membership in a filtered list, in both directions.
module _ {A : Type 0} (p : A → Bool) where
  pub In-filter : (x : A) (xs : List A) → In x (filter p xs) → In x xs × (p x ≡ true)
  In-filter x [] h = absurd h
  In-filter x (y ∷ ys) h = elim (Bool-cases (p y)) [
    | inl e ↦ split e (In-filter x ys) (rw e at h)
    | inr e ↦ let r = In-filter x ys (rw e at h) in (inr r.0, r.1)
  ]
    where
      split :
          p y ≡ true
          → (In x (filter p ys) → In x ys × (p x ≡ true))
          → (x ≡ y) ⊎ In x (filter p ys)
          → In x (y ∷ ys) × (p x ≡ true)
      split e ih (inl q) = (inl q, rw q e)
      split e ih (inr r) = (inr (ih r).0, (ih r).1)

  pub filter-In : (x : A) (xs : List A) → In x xs → p x ≡ true → In x (filter p xs)
  filter-In x [] h e = absurd h
  filter-In x (y ∷ ys) (inl q) e = rw (let r : p y ≡ true = rw (← q) e in r) (inl q)
  filter-In x (y ∷ ys) (inr h) e = elim (Bool-cases (p y)) [
    | inl t ↦ rw t (inr (filter-In x ys h e))
    | inr f ↦ rw f (filter-In x ys h e)
  ]

  -- What `find?` finds passes the test, and where it finds nothing no element does.
  pub find?-some : (x : A) (xs : List A) → find? p xs ≡ some x → In x xs × (p x ≡ true)
  find?-some x [] h = cc
  find?-some x (y ∷ ys) h = elim (Bool-cases (p y)) [
    | inl t ↦ let e : some y ≡ some x = rw t at h in let q : y ≡ x = cc in (inl (sym q), rw (← q) t)
    | inr f ↦ let r = find?-some x ys (rw f at h) in (inr r.0, r.1)
  ]

  pub find?-none : (x : A) (xs : List A) → find? p xs ≡ none → In x xs → p x ≡ false
  find?-none x [] h m = absurd m
  find?-none x (y ∷ ys) h m = elim (Bool-cases (p y)) [
    | inl t ↦ let q : some y ≡ none = rw t at h in cc
    | inr f ↦ elim m [ inl q ↦ rw q f | inr r ↦ find?-none x ys (rw f at h) r ]
  ]
