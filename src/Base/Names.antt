-- ===== src/Base/Names.antt =====
-- Sets, dictionaries and attributes under names: Python's `set` of strings, `dict` with string
-- keys in insertion order, and `getattr`/`setattr` on a function of the name.
use ticketmirror.Base.Tests.{if◌then◌else◌, Bool-cases}
use ticketmirror.Base.Sort.{sort, insert}
use Prim.Native.String.{String, compare}
use mathlib.Core.Path.{◌≡◌, refl}
use mathlib.Core.Logic.{inl, inr}
use mathlib.Core.Bool.{Bool, true, false, ◌||◌}
use mathlib.Core.Option.{Option, none, some}
use mathlib.Core.List.{List, [], ◌∷◌, ◌++◌}
use native.Mathlib.Omega.{arith}
use text.Mathlib.Text.{◌==◌ as str_eq, is_le}
use text.Mathlib.TextEquality.{eq_iff}
use text.Mathlib.TextPositions.{eq_refl}

-- `name in names`
abbrev pub member : String → List String → Bool
member name [] = false
member name (k ∷ names) = str_eq k name || member name names

-- `names.add(name)`
abbrev pub add_name : String → List String → List String
add_name name names = if member name names then names else name ∷ names

abbrev pub text_le : String → String → Bool
text_le s t = is_le (compare s t)

-- `sorted(names)`
unfoldable pub sorted_names : List String → List String
unfolding sort
sorted_names names = sort text_le names

module _ {ℓ} {V : Type ℓ} where
  -- `values.get(name)`
  abbrev pub lookup : String → List (String × V) → Option V
  lookup name [] = none
  lookup name ((k, v) ∷ rest) = if str_eq k name then some v else lookup name rest

  abbrev pub keys : List (String × V) → List String
  keys [] = []
  keys ((k, v) ∷ rest) = k ∷ keys rest

  -- A dictionary holds each key once.
  abbrev pub IsDict : List (String × V) → Type 0
  IsDict [] = Unit
  IsDict ((k, v) ∷ rest) = (member k (keys rest) ≡ false) × IsDict rest

  -- `setattr(row, name, value)`
  abbrev pub update : (String → V) → String → V → String → V
  update f name v j = if str_eq name j then v else f j

  pub lookup-not_member :
      (name : String) (d : List (String × V)) → member name (keys d) ≡ false → lookup name d ≡ none
  lookup-not_member name [] h = refl
  lookup-not_member name ((k, v) ∷ rest) h = elim (Bool-cases (str_eq k name)) [
    | inl e ↦ let p : true ≡ false = rw e at h in cc
    | inr e ↦ rw e (lookup-not_member name rest (rw e at h))
  ]

pub member-add_name :
    (j name : String) (names : List String)
    → member j (add_name name names) ≡ (str_eq name j || member j names)
member-add_name j name names = elim (Bool-cases (member name names)) [
  | inl old ↦ rw old (elim (Bool-cases (str_eq name j)) [
    | inl e ↦ let p : name ≡ j = (eq_iff name j).0 e in rw (← p) (rw (old, eq_refl))
    | inr e ↦ rw e
  ])
  | inr new ↦ rw new
]

-- `names.append(name)`
pub member-append :
    (j name : String) (names : List String)
    → member j (names ++ name ∷ []) ≡ (str_eq name j || member j names)
member-append j name [] = refl
member-append j name (k ∷ names) = ground (arith, member-append j name names)

member-insert :
    (j k : String) (l : List String) → member j (insert text_le k l) ≡ (str_eq k j || member j l)
unfolding insert
member-insert j k [] = refl
member-insert j k (x ∷ l) = ground (arith, member-insert j k l)

member-sort : (j : String) (l : List String) → member j (sort text_le l) ≡ member j l
unfolding sort
member-sort j [] = refl
member-sort j (x ∷ l) = ground (arith, member-insert j x (sort text_le l), member-sort j l)

-- Sorting does not change which names there are.
pub member-sorted_names : (j : String) (l : List String) → member j (sorted_names l) ≡ member j l
unfolding sorted_names
member-sorted_names j l = member-sort j l
