-- ===== src/Polling/Decimal.antt =====
-- Python's `int(text)` and `str(number)`, as `_newer_history_id` uses them on the history ids of
-- Gmail. `int` strips white space and takes a sign and single underscores between digits; digits are
-- ASCII here.
pub mod RoundTrip
use Prim.Native.Char.{Char, code}
use mathlib.Core.Logic.{dite}
use mathlib.Core.WellFounded.{Acc, WellFounded}
use native.Mathlib.Decide.{dec_lt}
use ticketmirror.Base.{
  ℕ, zero, suc, ◌+◌, ◌-◌, ◌*◌, ◌/◌, ◌%◌, ◌<◌, ◌≡◌, refl, String, Bool, true, false, ◌&&◌, Option,
  none, some, arith, leb, ◌==◌, if◌then◌else◌,
}
use ticketmirror.Base.Int.{ℤ, pos, negsuc}
use ticketmirror.Ingestion.Text.{is_space, strip_left, strip_right, cons_unless_blank}

abbrev pub is_digit : ℕ → Bool
is_digit c = leb b'0' c && leb c b'9'

-- The digits that are left, after `n`; `after_digit` says that the last character was a digit.
unfoldable pub scan : Bool → String → ℕ → Option ℕ
scan after_digit String.[] n = if after_digit then some n else none
scan after_digit (String.◌∷◌ c s) n =
    let next = scan true s (n * 10 + (code c - b'0')) in
    let joined = scan false s n in
    if is_digit (code c)
    then next
    else if code c == b'_'
    then (if after_digit then joined else none)
    else none

abbrev pub negated : ℕ → ℤ
negated zero = pos 0
negated (suc n) = negsuc n

abbrev pub signed : (ℕ → ℤ) → Option ℕ → Option ℤ
signed sign none = none
signed sign (some n) = some (sign n)

unfoldable pub read_signed : String → Option ℤ
unfolding scan
read_signed String.[] = none
read_signed (String.◌∷◌ c s) =
    if code c == b'-'
    then signed negated (scan false s 0)
    else if code c == b'+'
    then signed pos (scan false s 0)
    else signed pos (scan false (String.◌∷◌ c s) 0)

-- `int(text)`: nothing is a ValueError.
unfoldable pub int : String → Option ℤ
unfolding read_signed strip_left strip_right
int s = read_signed (strip_right (strip_left s))

abbrev pub digit : ℕ → Char
digit d =
    if d == 0
    then "0"
    else if d == 1
    then "1"
    else if d == 2
    then "2"
    else if d == 3
    then "3"
    else if d == 4
    then "4"
    else if d == 5
    then "5"
    else if d == 6
    then "6"
    else if d == 7
    then "7"
    else if d == 8
    then "8"
    else "9"

below-Acc : (k n : ℕ) → n < k → Acc ◌<◌ n
below-Acc zero n h = absurd (omega arith)
below-Acc (suc k) n h = Acc.intro n λ m lt. below-Acc k m (omega arith)

unfoldable pub size_wf : WellFounded ◌<◌
unfolding below-Acc
size_wf = record { apply = λ n. below-Acc (suc n) n (omega arith) }

-- The digits of `n` before `out`.
unfoldable pub write : (n : ℕ) → Acc ◌<◌ n → String → String
write n (Acc.intro _ smaller) out =
    dite (dec_lt n 10) (λ _. String.◌∷◌ (digit n) out)
      (λ h. write (n / 10) (smaller (n / 10) (omega arith)) (String.◌∷◌ (digit (n % 10)) out))

unfoldable pub natural : ℕ → String
unfolding write size_wf dec_lt
natural n = write n (size_wf.apply n) ""

-- `str(number)`
unfoldable pub str : ℤ → String
unfolding natural
str (pos n) = natural n
str (negsuc n) = String.◌∷◌ "-" (natural (suc n))

str_runs : str (pos 907) ≡ "907"
unfolding str
str_runs = refl

int_runs : (int " 1_0 " ≡ some (pos 10)) × (int "-7" ≡ some (negsuc 6)) × (int "1__0" ≡ none)
unfolding int is_space cons_unless_blank
int_runs = (refl, refl, refl)
