-- ===== src/Core/Privacy.antt =====
-- apps/core/privacy.py: contact data is masked before it is logged or shown.
use Prim.Native.Char.{Char, code}
use Prim.Native.String.{count, ◌++◌ as join}
use ticketmirror.Base.{ℕ, zero, suc, ◌-◌, String, Bool, ltb, leb, ◌==◌, str_eq, if◌then◌else◌}

-- What the module takes from Python's `re`: the substitution of the matches of EMAIL_RE and of
-- PHONE_RE, and the characters that `\d` matches.
pub record Patterns : Type 0 where
  pub sub_email : (String → String) → String → String
  pub sub_phone : (String → String) → String → String
  pub is_digit : Char → Bool

-- `value[:n]`
unfoldable pub take_text : ℕ → String → String
take_text zero s = ""
take_text (suc n) String.[] = ""
take_text (suc n) (String.◌∷◌ c s) = String.◌∷◌ c (take_text n s)

unfoldable pub drop_text : ℕ → String → String
drop_text zero s = s
drop_text (suc n) String.[] = ""
drop_text (suc n) (String.◌∷◌ c s) = drop_text n s

-- `value.partition("@")`: what stands before the first "@", and what stands after it.
unfoldable pub before_at : String → String
before_at String.[] = ""
before_at (String.◌∷◌ c s) =
    let rest = before_at s in if code c == b'@' then "" else String.◌∷◌ c rest

unfoldable pub after_at : String → String
after_at String.[] = ""
after_at (String.◌∷◌ c s) = let rest = after_at s in if code c == b'@' then s else rest

unfoldable pub visible_part : String → String
unfolding take_text
visible_part local = if ltb 2 (count local) then take_text 2 local else take_text 1 local

unfoldable pub mask_email : String → String
unfolding before_at after_at visible_part
mask_email value =
    let domain = after_at value in
    if str_eq domain ""
    then "[email]"
    else join (visible_part (before_at value)) (join "***@" domain)

-- `re.sub(r"\D", "", value)`
unfoldable pub digits_of : Patterns → String → String
digits_of re String.[] = ""
digits_of re (String.◌∷◌ c s) =
    let rest = digits_of re s in if re.is_digit c then String.◌∷◌ c rest else rest

unfoldable pub mask_phone : Patterns → String → String
unfolding digits_of drop_text
mask_phone re value =
    let digits = digits_of re value in
    if leb (count digits) 4
    then "[phone]"
    else join "[phone ending " (join (drop_text (count digits - 4) digits) "]")

unfoldable pub shortened : ℕ → String → String
unfolding take_text
shortened limit masked =
    if ltb limit (count masked) then join (take_text limit masked) "..." else masked

-- A missing text is masked as the empty one.
unfoldable pub mask_contact_text : Patterns → ℕ → String → String
unfolding mask_email mask_phone shortened
mask_contact_text re limit value =
    if str_eq value ""
    then ""
    else shortened limit (re.sub_phone (mask_phone re) (re.sub_email mask_email value))
