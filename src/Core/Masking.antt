-- ===== src/Core/Masking.antt =====
-- How much of a contact the masking leaves.
use Prim.Native.String.{count, ◌++◌ as join}
use text.Mathlib.TextLemmas.{length-nil, length-cons, length-append}
use ticketmirror.Base.{
  ◌≢◌, ℕ, zero, suc, ◌+◌, ◌-◌, ◌≤◌, ◌<◌, ◌≡◌, refl, String, ltb, leb, str_eq, arith, Bool-cases,
  ◌⊎◌, inl, inr,
}
use ticketmirror.Core.Privacy.{
  Patterns, take_text, drop_text, before_at, after_at, visible_part, mask_email, digits_of,
  mask_phone, shortened, mask_contact_text,
}
use ticketmirror.Core.Hiding.{IsSubstitution, DifferInContacts, mask_contact_text-hides}

count-take_text-le : (n : ℕ) (s : String) → count (take_text n s) ≤ n
unfolding take_text
count-take_text-le zero s = omega (arith, length-nil)
count-take_text-le (suc n) String.[] = omega (arith, length-nil)
count-take_text-le (suc n) (String.◌∷◌ c s) =
    omega (arith, length-cons c (take_text n s), count-take_text-le n s)

count-take_text_short : (n : ℕ) (s : String) → count (take_text n s) ≤ count s
unfolding take_text
count-take_text_short zero s = omega (arith, length-nil)
count-take_text_short (suc n) String.[] = omega (arith, length-nil)
count-take_text_short (suc n) (String.◌∷◌ c s) =
    omega (arith, length-cons c (take_text n s), length-cons c s, count-take_text_short n s)

count-drop_text : (n : ℕ) (s : String) → n ≤ count s → count (drop_text n s) + n ≡ count s
unfolding drop_text
count-drop_text zero s h = omega arith
count-drop_text (suc n) String.[] h = absurd (omega (arith, length-nil))
count-drop_text (suc n) (String.◌∷◌ c s) h =
    omega (arith, length-cons c s, count-drop_text n s (omega (arith, length-cons c s)))

-- The shown part of the local name: at most two characters, and never all of a name of two or more.
count-visible_part :
    (local : String)
    → (count (visible_part local) ≤ 2)
      × (1 < count local → count (visible_part local) < count local)
unfolding visible_part
count-visible_part local = elim (Bool-cases (ltb 2 (count local))) [
  | inl t ↦
      rw t (count-take_text-le 2 local, λ h. let a = count-take_text-le 2 local in ground arith)
  | inr f ↦ rw f (
    (let a = count-take_text-le 1 local in omega arith),
    λ h. let a = count-take_text-le 1 local in omega arith,
  )
]

shortened-le : (limit : ℕ) (s : String) → count (shortened limit s) ≤ limit + 3
unfolding shortened
shortened-le limit s = elim (Bool-cases (ltb limit (count s))) [
  | inl t ↦
      rw t
        (omega (arith, length-append (take_text limit s) "...", count-take_text-le limit s, dots))
  | inr f ↦ rw f (ground arith)
]
  where
    dots : count "..." ≡ 3
    dots = refl

-- What is left of an address that has a domain.
pub record ShowsAddress (value : String) : Type 0 where
  pub shown : String
  pub same : mask_email value ≡ join shown (join "***@" (after_at value))
  pub few : count shown ≤ 2
  pub part : 1 < count (before_at value) → count shown < count (before_at value)

mask_email-ShowsAddress : (value : String) → (mask_email value ≡ "[email]") ⊎ ShowsAddress value
unfolding mask_email
mask_email-ShowsAddress value = elim (Bool-cases (str_eq (after_at value) "")) [
  | inl t ↦ inl (rw t refl)
  | inr f ↦
      let v = count-visible_part (before_at value) in
      inr
        (record { shown = visible_part (before_at value); same = rw f refl; few = v.0; part = v.1 })
]

-- What is left of a number of more than four digits.
pub record ShowsEnd (re : Patterns) (value : String) : Type 0 where
  pub shown : String
  pub same : mask_phone re value ≡ join "[phone ending " (join shown "]")
  pub four : count shown ≡ 4
  pub part : count shown < count (digits_of re value)

mask_phone-ShowsEnd :
    (re : Patterns) (value : String) → (mask_phone re value ≡ "[phone]") ⊎ ShowsEnd re value
unfolding mask_phone
mask_phone-ShowsEnd re value = elim (Bool-cases (leb (count (digits_of re value)) 4)) [
  | inl t ↦ inl (rw t refl)
  | inr f ↦
      let digits = digits_of re value in
      let long : 4 < count digits = ground arith in
      let left = count-drop_text (count digits - 4) digits (omega arith) in
      inr (record {
        shown = drop_text (count digits - 4) digits;
        same = rw f refl;
        four = omega (arith, left);
        part = omega (arith, left);
      })
]

pub record IsMasked (re : Patterns) (emails : IsSubstitution re.sub_email)
    (phones : IsSubstitution re.sub_phone) (limit : ℕ) (value : String) : Type 0 where
  pub email : (mask_email value ≡ "[email]") ⊎ ShowsAddress value
  pub phone : (mask_phone re value ≡ "[phone]") ⊎ ShowsEnd re value
  -- The text that is left does not tell the contacts apart.
  pub hides :
      (other : String)
      → value ≢ ""
      → other ≢ ""
      → DifferInContacts re emails phones value other
      → mask_contact_text re limit value ≡ mask_contact_text re limit other
  pub short : count (mask_contact_text re limit value) ≤ limit + 3

-- Of an address with a domain masking leaves the domain and at most two characters of the local name,
-- and not all of a name of two or more; of a phone number either nothing or four digits of more than
-- four. Where `re.sub` replaces the matches of a pattern and keeps the rest, the masked text is the same
-- for two texts that differ only in addresses (of the same domain, with names of more than two characters
-- that start with the same two), or only in numbers (of more than four digits, with the same last
-- four); it has at most the characters of the limit and three dots.
pub masking_bounds :
    (re : Patterns) (emails : IsSubstitution re.sub_email) (phones : IsSubstitution re.sub_phone)
    (limit : ℕ) (value : String)
    → IsMasked re emails phones limit value
unfolding mask_contact_text
masking_bounds re emails phones limit value = record {
  email = mask_email-ShowsAddress value;
  phone = mask_phone-ShowsEnd re value;
  hides = λ other m n h. mask_contact_text-hides re emails phones value other limit m n h;
  short = elim (Bool-cases (str_eq value "")) [
    | inl t ↦ rw t (omega (arith, length-nil))
    | inr f ↦
        rw f (shortened-le limit (re.sub_phone (mask_phone re) (re.sub_email mask_email value)))
  ];
}
