-- ===== src/Core/Tests.antt =====
-- Contacts masked.
use Prim.Native.Char.{code}
use text.Mathlib.TextLemmas.{append-nil}
use ticketmirror.Base.{◌≡◌, refl, sym, [], ◌∷◌, arith}
use ticketmirror.Polling.Decimal.{is_digit}
use ticketmirror.Core.Privacy.{before_at, after_at, take_text, Patterns, mask_email, mask_phone}
use ticketmirror.Core.Hiding.{between, matched, IsSubstitution, SameAddress}
use ticketmirror.Core.Masking.{IsMasked, masking_bounds}

-- A text that is one contact.
abbrev whole : Patterns
whole = record {
  sub_email = λ mask s. mask s;
  sub_phone = λ mask s. s;
  is_digit = λ c. is_digit (code c);
}

masks_email : mask_email "anna@example.com" ≡ "an***@example.com"
unfolding mask_email
masks_email = refl

masks_phone : mask_phone whole "+90 (212) 555 77" ≡ "[phone ending 5577]"
unfolding mask_phone
masks_phone = refl

emails : IsSubstitution whole.sub_email
emails = record { pieces = λ s. matched s ∷ []; replaces = λ mask s. sym (append-nil (mask s)) }

phones : IsSubstitution whole.sub_phone
phones = record { pieces = λ s. between s ∷ []; replaces = λ mask s. sym (append-nil s) }

masking_bounds_example : IsMasked whole emails phones 500 "anna@example.com"
masking_bounds_example = masking_bounds whole emails phones 500 "anna@example.com"

same_names : SameAddress "anna@example.com" "andrew@example.com"
unfolding before_at after_at take_text
same_names = record { domain = refl; start = refl; long = (omega arith, omega arith) }
