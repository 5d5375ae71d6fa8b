-- ===== src/Core/Hiding.antt =====
-- What the masked text does not tell apart.
use Prim.Native.String.{count, ◌++◌ as join}
use ticketmirror.Base.{
  ◌≢◌, sym, ◌∙◌, ap, true, false, List, [], ◌∷◌, eq_iff, ℕ, ◌-◌, ◌<◌, ◌≡◌, refl, String, ltb, leb,
  str_eq, arith, Bool-cases, ◌⊎◌, inl, inr,
}
use ticketmirror.Core.Privacy.{
  Patterns, take_text, drop_text, before_at, after_at, visible_part, mask_email, digits_of,
  mask_phone, shortened, mask_contact_text,
}

-- A piece of a text: what lies between the matches of a pattern, or a match.
pub data Piece : Type 0 where
  between : String → Piece
  matched : String → Piece

abbrev pub replaced : (String → String) → Piece → String
replaced mask (between s) = s
replaced mask (matched s) = mask s

abbrev pub rendered : (String → String) → List Piece → String
rendered mask [] = ""
rendered mask (p ∷ ps) = join (replaced mask p) (rendered mask ps)

-- What `re.sub` does with a function: the pattern alone cuts the text into pieces, the function gives
-- what stands for each match, and the rest of the text stays.
pub record IsSubstitution (sub : (String → String) → String → String) : Type 0 where
  pub pieces : String → List Piece
  pub replaces : (mask : String → String) (s : String) → sub mask s ≡ rendered mask (pieces s)

-- Two texts whose pieces differ in the matches only, and there in what the relation lets differ.
abbrev pub AlikeIn : (String → String → Type 0) → List Piece → List Piece → Type 0
AlikeIn R [] [] = Unit
AlikeIn R (between s ∷ ps) (between t ∷ qs) = (s ≡ t) × AlikeIn R ps qs
AlikeIn R (matched s ∷ ps) (matched t ∷ qs) = R s t × AlikeIn R ps qs
AlikeIn R _ _ = ⊥

-- Two addresses of a domain whose names have more than two characters, and the same first two.
pub record SameAddress (s t : String) : Type 0 where
  pub domain : after_at s ≡ after_at t
  pub start : take_text 2 (before_at s) ≡ take_text 2 (before_at t)
  pub long : (2 < count (before_at s)) × (2 < count (before_at t))

-- Two numbers of more than four digits that end in the same four.
pub record SameNumber (re : Patterns) (s t : String) : Type 0 where
  pub end :
      drop_text (count (digits_of re s) - 4) (digits_of re s)
      ≡ drop_text (count (digits_of re t) - 4) (digits_of re t)
  pub long : (4 < count (digits_of re s)) × (4 < count (digits_of re t))

SameAddress-mask_email : (s t : String) → SameAddress s t → mask_email s ≡ mask_email t
unfolding mask_email visible_part
SameAddress-mask_email s t h =
    let a : ltb 2 (count (before_at s)) ≡ true = ltb_true 2 _ h.long.0 in
    let b : ltb 2 (count (before_at t)) ≡ true = ltb_true 2 _ h.long.1 in
    rw (a, b, h.domain, h.start) refl
  where
    ltb_true : (m n : ℕ) → m < n → ltb m n ≡ true
    ltb_true m n l = ground arith

SameNumber-mask_phone :
    (re : Patterns) (s t : String) → SameNumber re s t → mask_phone re s ≡ mask_phone re t
unfolding mask_phone
SameNumber-mask_phone re s t h =
    let a : leb (count (digits_of re s)) 4 ≡ false = leb_false _ 4 h.long.0 in
    let b : leb (count (digits_of re t)) 4 ≡ false = leb_false _ 4 h.long.1 in rw (a, b, h.end) refl
  where
    leb_false : (m n : ℕ) → n < m → leb m n ≡ false
    leb_false m n l = ground arith

rendered-AlikeIn :
    (mask : String → String) (R : String → String → Type 0)
    → ((s t : String) → R s t → mask s ≡ mask t)
    → (ps qs : List Piece) → AlikeIn R ps qs
    → rendered mask ps ≡ rendered mask qs
rendered-AlikeIn mask R f [] [] h = refl
rendered-AlikeIn mask R f (between s ∷ ps) (between t ∷ qs) h =
    rw (h.0, rendered-AlikeIn mask R f ps qs h.1) refl
rendered-AlikeIn mask R f (matched s ∷ ps) (matched t ∷ qs) h =
    rw (f s t h.0, rendered-AlikeIn mask R f ps qs h.1) refl
rendered-AlikeIn mask R f [] (q ∷ qs) h = absurd h
rendered-AlikeIn mask R f (between s ∷ ps) [] h = absurd h
rendered-AlikeIn mask R f (matched s ∷ ps) [] h = absurd h
rendered-AlikeIn mask R f (between s ∷ ps) (matched t ∷ qs) h = absurd h
rendered-AlikeIn mask R f (matched s ∷ ps) (between t ∷ qs) h = absurd h

-- Two texts that differ only in what masking is to hide: in addresses, or, once these are masked, in
-- numbers.
abbrev pub DifferInContacts :
    (re : Patterns)
    → IsSubstitution re.sub_email
    → IsSubstitution re.sub_phone
    → String
    → String
    → Type 0
DifferInContacts re emails phones s t =
    AlikeIn SameAddress (emails.pieces s) (emails.pieces t)
    ⊎ AlikeIn (SameNumber re) (phones.pieces (re.sub_email mask_email s))
        (phones.pieces (re.sub_email mask_email t))

module _ (re : Patterns) (emails : IsSubstitution re.sub_email)
    (phones : IsSubstitution re.sub_phone) (s t : String) where
  masked_alike :
      DifferInContacts re emails phones s t
      → re.sub_phone (mask_phone re) (re.sub_email mask_email s)
        ≡ re.sub_phone (mask_phone re) (re.sub_email mask_email t)
  masked_alike (inl h) = ap (re.sub_phone (mask_phone re)) (
      emails.replaces mask_email s
      ∙ (rendered-AlikeIn mask_email SameAddress SameAddress-mask_email (emails.pieces s)
            (emails.pieces t) h
          ∙ sym (emails.replaces mask_email t)))
  masked_alike (inr h) =
      phones.replaces (mask_phone re) (re.sub_email mask_email s)
      ∙ (rendered-AlikeIn (mask_phone re) (SameNumber re) (SameNumber-mask_phone re)
            (phones.pieces (re.sub_email mask_email s)) (phones.pieces (re.sub_email mask_email t))
            h
          ∙ sym (phones.replaces (mask_phone re) (re.sub_email mask_email t)))

  pub mask_contact_text-hides :
      (limit : ℕ)
      → s ≢ ""
      → t ≢ ""
      → DifferInContacts re emails phones s t
      → mask_contact_text re limit s ≡ mask_contact_text re limit t
  unfolding mask_contact_text
  mask_contact_text-hides limit m n h =
      let a : str_eq s "" ≡ false = differ s m in
      let b : str_eq t "" ≡ false = differ t n in rw (a, b) (ap (shortened limit) (masked_alike h))
    where
      differ : (x : String) → x ≢ "" → str_eq x "" ≡ false
      differ x k = elim (Bool-cases (str_eq x "")) [
        | inl e ↦ absurd (k ((eq_iff x "").0 e))
        | inr e ↦ e
      ]
