-- ===== src/Base/Membership.antt =====
-- Membership in joined and mapped lists, and under `any`.
use mathlib.Core.Path.{◌≡◌, refl, ap}
use mathlib.Core.Logic.{◌⊎◌, inl, inr}
use mathlib.Core.Bool.{Bool, true}
use mathlib.Core.List.{List, [], ◌∷◌, ◌++◌, map}
use ticketmirror.Base.Tests.{Bool-cases}
use Prim.Native.Nat.{ℕ, zero, suc}
use ticketmirror.Base.Lists.{any, take, In}

module _ {A : Type 0} where
  pub In-split : (x : A) (xs ys : List A) → In x (xs ++ ys) → In x xs ⊎ In x ys
  In-split x [] ys i = inr i
  In-split x (y ∷ xs) ys (inl e) = inl (inl e)
  In-split x (y ∷ xs) ys (inr i) = elim (In-split x xs ys i) [ inl j ↦ inl (inr j) | inr j ↦ inr j ]

  pub In-left : (x : A) (xs ys : List A) → In x xs → In x (xs ++ ys)
  In-left x [] ys i = absurd i
  In-left x (y ∷ xs) ys (inl e) = inl e
  In-left x (y ∷ xs) ys (inr i) = inr (In-left x xs ys i)

  pub In-right : (x : A) (xs ys : List A) → In x ys → In x (xs ++ ys)
  In-right x [] ys i = i
  In-right x (y ∷ xs) ys i = inr (In-right x xs ys i)

  pub any-In : (p : A → Bool) (x : A) (xs : List A) → In x xs → p x ≡ true → any p xs ≡ true
  any-In p x [] i h = absurd i
  any-In p x (y ∷ ys) (inl e) h = let q : p y ≡ true = rw (← e) h in rw q refl
  any-In p x (y ∷ ys) (inr i) h = elim (Bool-cases (p y)) [
    | inl t ↦ rw t refl
    | inr f ↦ rw f (any-In p x ys i h)
  ]

  pub In-any : (p : A → Bool) (xs : List A) → any p xs ≡ true → (x : A) × In x xs × (p x ≡ true)
  In-any p [] h = cc
  In-any p (y ∷ ys) h = elim (Bool-cases (p y)) [
    | inl t ↦ (y, inl refl, t)
    | inr f ↦ let (x, i, t) = In-any p ys (rw f at h) in (x, inr i, t)
  ]

pub map-In : {A B : Type 0} (f : A → B) (x : A) (xs : List A) → In x xs → In (f x) (map f xs)
map-In f x [] i = absurd i
map-In f x (y ∷ ys) (inl e) = inl (ap f e)
map-In f x (y ∷ ys) (inr i) = inr (map-In f x ys i)

pub In-take : {A : Type 0} (x : A) (n : ℕ) (xs : List A) → In x (take n xs) → In x xs
In-take x zero xs i = absurd i
In-take x (suc n) [] i = absurd i
In-take x (suc n) (y ∷ ys) (inl e) = inl e
In-take x (suc n) (y ∷ ys) (inr i) = inr (In-take x n ys i)
