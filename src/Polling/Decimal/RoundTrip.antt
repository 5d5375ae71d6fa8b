-- ===== src/Polling/Decimal/RoundTrip.antt =====
-- What `str` writes, `int` reads.
use Prim.Native.Char.{code}
use mathlib.Core.Logic.{dif_pos, dif_neg}
use mathlib.Core.WellFounded.{Acc}
use native.Mathlib.Bridge.{le_prop}
use native.Mathlib.Decide.{dec_lt}
use ticketmirror.Base.{
  ℕ, zero, suc, ◌+◌, ◌-◌, ◌*◌, ◌/◌, ◌%◌, ◌<◌, ◌≡◌, refl, ◌∙◌, ap, String, Bool, true, false, some,
  arith, ◌==◌, ==_iff, not, if◌then◌else◌,
}
use ticketmirror.Base.Int.{ℤ, pos, negsuc}
use ticketmirror.Ingestion.Text.{is_space, strip_left, strip_right, cons_unless_blank}
use ticketmirror.Polling.Decimal.{
  is_digit, scan, signed, negated, read_signed, int, digit, size_wf, write, natural, str,
}

-- The test of every number under the bound, from the largest down.
each_under : (ℕ → Bool) → ℕ → Bool
each_under test zero = true
each_under test (suc top) = if test top then each_under test top else false

each_under_lem :
    (test : ℕ → Bool) (bound d : ℕ) → d < bound → each_under test bound ≡ true → test d ≡ true
unfolding each_under
each_under_lem test zero d under e = absurd (omega arith)
each_under_lem test (suc top) d under e = ground (arith, each_under_lem test top d)

digit_table : each_under (λ d. code (digit d) == b'0' + d) 10 ≡ true
unfolding each_under
digit_table = refl

space_table : each_under (λ d. not (is_space (digit d))) 10 ≡ true
unfolding each_under is_space
space_table = refl

digit-code : (d : ℕ) → d < 10 → code (digit d) ≡ b'0' + d
digit-code d h = (==_iff _ _).0 (each_under_lem _ 10 d h digit_table)

digit-is_space : (d : ℕ) → d < 10 → is_space (digit d) ≡ false
digit-is_space d h = not-true _ (each_under_lem _ 10 d h space_table)
  where
    not-true : (b : Bool) → not b ≡ true → b ≡ false
    not-true true e = cc
    not-true false e = refl

scan-digit :
    (b : Bool) (d : ℕ) (out : String) (m : ℕ)
    → d < 10
    → scan b (String.◌∷◌ (digit d) out) m ≡ scan true out (m * 10 + d)
unfolding scan
scan-digit b d out m h =
    let t : is_digit (b'0' + d) ≡ true = ground arith in
    let e : m * 10 + (b'0' + d - b'0') ≡ m * 10 + d = omega arith in rw (digit-code d h, t, e) refl

-- The numeral is read back in front of any text, and starts with a digit.
scan-write :
    (b : Bool) (n : ℕ) (w : Acc ◌<◌ n) (out : String) → scan b (write n w out) 0 ≡ scan true out n
unfolding write
scan-write b n (Acc.intro _ smaller) out = elim (dec_lt n 10) [
  | yes h ↦
      rw (dif_pos (dec_lt n 10) le_prop h)
        (scan-digit b n out 0 h ∙ ap (scan true out) (omega arith))
  | no h ↦ rw (dif_neg (dec_lt n 10) h) (
      scan-write b (n / 10) (smaller (n / 10) (omega arith)) (String.◌∷◌ (digit (n % 10)) out)
      ∙ scan-digit true (n % 10) out (n / 10) (omega arith)
      ∙ ap (scan true out) (omega arith))
]

record Starts (s : String) : Type 0 where
  pub first : ℕ
  pub rest : String
  pub below : first < 10
  pub same : s ≡ String.◌∷◌ (digit first) rest

write-Starts : (n : ℕ) (w : Acc ◌<◌ n) (out : String) → Starts (write n w out)
unfolding write
write-Starts n (Acc.intro _ smaller) out = elim (dec_lt n 10) [
  | yes h ↦
      rw (dif_pos (dec_lt n 10) le_prop h)
        (record { first = n; rest = out; below = h; same = refl })
  | no h ↦
      rw (dif_neg (dec_lt n 10) h)
        (write-Starts (n / 10) (smaller (n / 10) (omega arith)) (String.◌∷◌ (digit (n % 10)) out))
]

-- Neither end of a numeral is stripped.
strip_left-digit :
    (d : ℕ) (s : String) → d < 10 → strip_left (String.◌∷◌ (digit d) s) ≡ String.◌∷◌ (digit d) s
unfolding strip_left
strip_left-digit d s h = rw (digit-is_space d h) refl

strip_right-digit :
    (d : ℕ) (s : String)
    → d < 10
    → strip_right s ≡ s
    → strip_right (String.◌∷◌ (digit d) s) ≡ String.◌∷◌ (digit d) s
unfolding strip_right cons_unless_blank
strip_right-digit d String.[] h e = rw (digit-is_space d h) refl
strip_right-digit d (String.◌∷◌ c s) h e = rw e refl

strip_right-write :
    (n : ℕ) (w : Acc ◌<◌ n) (out : String)
    → strip_right out ≡ out
    → strip_right (write n w out) ≡ write n w out
unfolding write
strip_right-write n (Acc.intro _ smaller) out e = elim (dec_lt n 10) [
  | yes h ↦ rw (dif_pos (dec_lt n 10) le_prop h) (strip_right-digit n out h e)
  | no h ↦ rw (dif_neg (dec_lt n 10) h) (
      strip_right-write (n / 10) (smaller (n / 10) (omega arith)) (String.◌∷◌ (digit (n % 10)) out)
        (strip_right-digit (n % 10) out (omega arith) e))
]

read_signed-digit :
    (d : ℕ) (s : String)
    → d < 10
    → read_signed (String.◌∷◌ (digit d) s) ≡ signed pos (scan false (String.◌∷◌ (digit d) s) 0)
unfolding read_signed
read_signed-digit d s h =
    let minus : (code (digit d) == b'-') ≡ false = rw (digit-code d h) (ground arith) in
    let plus : (code (digit d) == b'+') ≡ false = rw (digit-code d h) (ground arith) in
    rw (minus, plus) refl

scan-natural : (n : ℕ) → scan false (natural n) 0 ≡ some n
unfolding natural
scan-natural n = scan-write false n (size_wf.apply n) "" ∙ (unfold scan in refl)

natural-Starts : (n : ℕ) → Starts (natural n)
unfolding natural
natural-Starts n = write-Starts n (size_wf.apply n) ""

strip_right-natural : (n : ℕ) → strip_right (natural n) ≡ natural n
unfolding natural
strip_right-natural n = strip_right-write n (size_wf.apply n) "" (unfold strip_right in refl)

int-natural : (n : ℕ) → int (natural n) ≡ some (pos n)
unfolding int
int-natural n =
    let s = natural-Starts n in
    let left : strip_left (natural n) ≡ natural n =
      rw s.same (strip_left-digit s.first s.rest s.below) in
    let read : read_signed (natural n) ≡ signed pos (scan false (natural n) 0) =
      rw s.same (read_signed-digit s.first s.rest s.below) in
    rw (left, strip_right-natural n, read, scan-natural n) refl

int-minus :
    (s : String) → strip_right s ≡ s → int (String.◌∷◌ "-" s) ≡ signed negated (scan false s 0)
unfolding int strip_left strip_right read_signed cons_unless_blank is_space
int-minus String.[] e = refl
int-minus (String.◌∷◌ c s) e = rw e refl

-- `int(str(z))` is `z`, for every integer `z`.
pub int-str : (z : ℤ) → int (str z) ≡ some z
unfolding str
int-str (pos n) = int-natural n
int-str (negsuc n) =
    int-minus (natural (suc n)) (strip_right-natural (suc n))
    ∙ ap (signed negated) (scan-natural (suc n))
