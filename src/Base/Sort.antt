-- ===== src/Base/Sort.antt =====
-- Python's `sorted`, as a stable insertion sort by a Boolean order on the keys.
use ticketmirror.Base.Lists.{length, In, All, head?}
use ticketmirror.Base.Tests.{if◌then◌else◌, Bool-cases}
use Prim.Native.Nat.{suc}
use mathlib.Core.Path.{◌≡◌, refl}
use mathlib.Core.Logic.{◌⊎◌, inl, inr, ◌↔◌}
use mathlib.Core.Bool.{Bool, true, false}
use mathlib.Core.Option.{none, some}
use mathlib.Core.List.{List, [], ◌∷◌}
use native.Mathlib.Omega.{arith}

module _ {A : Type 0} (le : A → A → Bool) where
  unfoldable pub insert : A → List A → List A
  insert x [] = x ∷ []
  insert x (y ∷ ys) = let rest = insert x ys in if le x y then x ∷ y ∷ ys else y ∷ rest

  unfoldable pub sort : List A → List A
  unfolding insert
  sort [] = []
  sort (x ∷ xs) = insert x (sort xs)

  -- Every element is at most every later one.
  abbrev pub IsSorted : List A → Type 0
  IsSorted [] = Unit
  IsSorted (x ∷ xs) = All (λ y. le x y ≡ true) xs × IsSorted xs

module _ {A : Type 0} (le : A → A → Bool) where
  In-insert : (z x : A) (ys : List A) → In z (insert le x ys) ↔ ((z ≡ x) ⊎ In z ys)
  unfolding insert
  In-insert z x [] = ((λ h. h), (λ h. h))
  In-insert z x (y ∷ ys) = elim (Bool-cases (le x y)) [
    | inl e ↦ rw e ((λ h. h), (λ h. h))
    | inr e ↦ rw e (
      (λ h. elim h [ inl p ↦ inr (inl p) | inr q ↦ swap ((In-insert z x ys).0 q) ]),
      (λ h. elim h [
        | inl p ↦ inr ((In-insert z x ys).1 (inl p))
        | inr q ↦ elim q [ inl r ↦ inl r | inr s ↦ inr ((In-insert z x ys).1 (inr s)) ]
      ]),
    )
  ]
    where
      swap : (z ≡ x) ⊎ In z ys → (z ≡ x) ⊎ ((z ≡ y) ⊎ In z ys)
      swap (inl p) = inl p
      swap (inr q) = inr (inr q)

  pub In-sort : (z : A) (xs : List A) → In z (sort le xs) ↔ In z xs
  unfolding sort
  In-sort z [] = ((λ h. h), (λ h. h))
  In-sort z (x ∷ xs) = (
    (λ h. elim ((In-insert z x (sort le xs)).0 h) [
      | inl p ↦ inl p
      | inr q ↦ inr ((In-sort z xs).0 q)
    ]),
    (λ h. elim h [
      | inl p ↦ (In-insert z x (sort le xs)).1 (inl p)
      | inr q ↦ (In-insert z x (sort le xs)).1 (inr ((In-sort z xs).1 q))
    ]),
  )

  length-insert : (x : A) (xs : List A) → length (insert le x xs) ≡ suc (length xs)
  unfolding insert
  length-insert x [] = refl
  length-insert x (y ∷ ys) = ground (arith, length-insert x ys)

  pub length-sort : (xs : List A) → length (sort le xs) ≡ length xs
  unfolding sort
  length-sort [] = refl
  length-sort (x ∷ xs) = ground (arith, length-insert x (sort le xs), length-sort xs)

-- The order is total and transitive, as an order of keys is.
pub record IsOrder {A : Type 0} (le : A → A → Bool) : Type 0 where
  pub total : (x y : A) → le x y ≡ false → le y x ≡ true
  pub trans : (x y z : A) → le x y ≡ true → le y z ≡ true → le x z ≡ true

module _ {A : Type 0} (le : A → A → Bool) (order : IsOrder le) where
  All-le :
      (x y : A) (ys : List A)
      → le x y ≡ true
      → All (λ z. le y z ≡ true) ys
      → All (λ z. le x z ≡ true) ys
  All-le x y [] h hs = tt
  All-le x y (z ∷ zs) h hs = (order.trans x y z h hs.0, All-le x y zs h hs.1)

  All-insert :
      (w x : A) (ys : List A)
      → le w x ≡ true
      → All (λ z. le w z ≡ true) ys
      → All (λ z. le w z ≡ true) (insert le x ys)
  unfolding insert
  All-insert w x [] h hs = (h, tt)
  All-insert w x (y ∷ ys) h hs = elim (Bool-cases (le x y)) [
    | inl e ↦ rw e (h, hs)
    | inr e ↦ rw e (hs.0, All-insert w x ys h hs.1)
  ]

  insert-IsSorted : (x : A) (ys : List A) → IsSorted le ys → IsSorted le (insert le x ys)
  unfolding insert
  insert-IsSorted x [] s = (tt, tt)
  insert-IsSorted x (y ∷ ys) s = elim (Bool-cases (le x y)) [
    | inl e ↦ rw e ((e, All-le x y ys e s.0), s)
    | inr e ↦ rw e (All-insert y x ys (order.total x y e) s.0, insert-IsSorted x ys s.1)
  ]

  pub sort-IsSorted : (xs : List A) → IsSorted le (sort le xs)
  unfolding sort
  sort-IsSorted [] = tt
  sort-IsSorted (x ∷ xs) = insert-IsSorted x (sort le xs) (sort-IsSorted xs)

  All-In : (m y : A) (ys : List A) → All (λ z. le m z ≡ true) ys → In y ys → le m y ≡ true
  All-In m y [] hs h = absurd h
  All-In m y (z ∷ zs) hs (inl p) = rw p hs.0
  All-In m y (z ∷ zs) hs (inr q) = All-In m y zs hs.1 q

  -- The order is reflexive, since it is total.
  le_refl : (x : A) → le x x ≡ true
  le_refl x = elim (Bool-cases (le x x)) [ inl e ↦ e | inr e ↦ order.total x x e ]

  head-le : (m y : A) (ys : List A) → IsSorted le ys → head? ys ≡ some m → In y ys → le m y ≡ true
  head-le m y [] s e h = absurd h
  head-le m y (z ∷ zs) s e (inl p) = let q : m ≡ z = cc in rw (p, q) (le_refl z)
  head-le m y (z ∷ zs) s e (inr h) = let q : m ≡ z = cc in rw q (All-In z y zs s.0 h)

  head-In : (m : A) (ys : List A) → head? ys ≡ some m → In m ys
  head-In m [] e = cc
  head-In m (z ∷ zs) e = inl (cc)

  -- `sorted(xs, key=…)[0]` is an element of `xs` and least among them.
  pub head-sort_least :
      (m : A) (xs : List A)
      → head? (sort le xs) ≡ some m
      → In m xs × ((y : A) → In y xs → le m y ≡ true)
  head-sort_least m xs e = (
    (In-sort le m xs).0 (head-In m (sort le xs) e),
    λ y h. head-le m y (sort le xs) (sort-IsSorted xs) e ((In-sort le y xs).1 h),
  )

  pub head-sort-none : (xs : List A) → head? (sort le xs) ≡ none → xs ≡ []
  head-sort-none [] e = refl
  head-sort-none (x ∷ xs) e =
      absurd (head-some x (sort le (x ∷ xs)) e ((In-sort le x (x ∷ xs)).1 (inl refl)))
    where
      head-some : (y : A) (ys : List A) → head? ys ≡ none → In y ys → ⊥
      head-some y [] e h = h
      head-some y (z ∷ zs) e h = cc
