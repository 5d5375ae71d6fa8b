-- ===== src/Base/Order.antt =====
-- Lexicographic comparison, as Python compares tuples of numbers.
use Prim.Native.Nat.{ℕ}
use mathlib.Core.Path.{◌≡◌}
use mathlib.Core.Bool.{Bool, true, false}
use native.Mathlib.Omega.{arith}
use ticketmirror.Base.Tests.{ltb, if◌then◌else◌}

-- `(m, …) <= (n, …)`, where `rest` compares what follows.
abbrev pub lex : ℕ → ℕ → Bool → Bool
lex m n rest = if ltb m n then true else if ltb n m then false else rest

pub lex_total :
    (m n : ℕ) (b c : Bool) → (b ≡ false → c ≡ true) → lex m n b ≡ false → lex n m c ≡ true
lex_total m n b c f h = ground arith

pub lex_trans :
    (l m n : ℕ) (b c d : Bool)
    → (b ≡ true → c ≡ true → d ≡ true)
    → lex l m b ≡ true
    → lex m n c ≡ true
    → lex l n d ≡ true
lex_trans l m n b c d f h k = ground arith
