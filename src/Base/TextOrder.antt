-- ===== src/Base/TextOrder.antt =====
-- Comparison of tuples that begin with a text, as Python compares them: by the code points of the
-- texts, and where these are the same by what follows.
use Prim.Native.Nat.{ℕ, Ordering, compare as compare_ℕ}
use Prim.Native.Char.{Char, code}
use Prim.Native.String.{String, compare, then}
use Prim.Native.String.compare as compare_laws
use mathlib.Core.Path.{◌≡◌, refl, ap, ◌∙◌, sym}
use mathlib.Core.Bool.{Bool, true, false}
use native.Mathlib.Omega.{arith}
use ticketmirror.Base.Order.{lex, lex_total, lex_trans}

abbrev pub by_order : Ordering → Bool → Bool
by_order Ordering.lt rest = true
by_order Ordering.eq rest = rest
by_order Ordering.gt rest = false

-- `(s, …) <= (t, …)`, where `rest` compares what follows.
abbrev pub text_lex : String → String → Bool → Bool
text_lex s t rest = by_order (compare s t) rest

by_order-then :
    (m n : ℕ) (o : Ordering) (rest : Bool)
    → by_order (then (compare_ℕ m n) o) rest ≡ lex m n (by_order o rest)
by_order-then m n o rest = ground arith

text_lex-cons :
    (c d : Char) (s t : String) (rest : Bool)
    → text_lex (String.◌∷◌ c s) (String.◌∷◌ d t) rest ≡ lex (code c) (code d) (text_lex s t rest)
text_lex-cons c d s t rest =
    ap (λ o. by_order o rest) (compare_laws.cons-cons c d s t)
    ∙ by_order-then (code c) (code d) (compare s t) rest

pub text_lex_total :
    (s t : String) (b c : Bool)
    → (b ≡ false → c ≡ true)
    → text_lex s t b ≡ false
    → text_lex t s c ≡ true
text_lex_total String.[] String.[] b c f h = f h
text_lex_total String.[] (String.◌∷◌ d t) b c f h =
    let q : true ≡ false = rw (compare_laws.nil-cons d t) at h in cc
text_lex_total (String.◌∷◌ d t) String.[] b c f h = rw (compare_laws.nil-cons d t) refl
text_lex_total (String.◌∷◌ c s) (String.◌∷◌ d t) x y f h =
    text_lex-cons d c t s y
    ∙ lex_total (code c) (code d) (text_lex s t x) (text_lex t s y) (text_lex_total s t x y f)
        (sym (text_lex-cons c d s t x) ∙ h)

pub text_lex_trans :
    (s t u : String) (b c d : Bool)
    → (b ≡ true → c ≡ true → d ≡ true)
    → text_lex s t b ≡ true
    → text_lex t u c ≡ true
    → text_lex s u d ≡ true
text_lex_trans String.[] String.[] String.[] b c d f h k = f h k
text_lex_trans String.[] String.[] (String.◌∷◌ z u) b c d f h k =
    rw (compare_laws.nil-cons z u) refl
text_lex_trans String.[] (String.◌∷◌ y t) String.[] b c d f h k =
    let q : false ≡ true = rw (compare_laws.cons-nil y t) at k in cc
text_lex_trans String.[] (String.◌∷◌ y t) (String.◌∷◌ z u) b c d f h k =
    rw (compare_laws.nil-cons z u) refl
text_lex_trans (String.◌∷◌ x s) String.[] u b c d f h k =
    let q : false ≡ true = rw (compare_laws.cons-nil x s) at h in cc
text_lex_trans (String.◌∷◌ x s) (String.◌∷◌ y t) String.[] b c d f h k =
    let q : false ≡ true = rw (compare_laws.cons-nil y t) at k in cc
text_lex_trans (String.◌∷◌ x s) (String.◌∷◌ y t) (String.◌∷◌ z u) b c d f h k =
    text_lex-cons x z s u d
    ∙ lex_trans (code x) (code y) (code z) (text_lex s t b) (text_lex t u c) (text_lex s u d)
        (text_lex_trans s t u b c d f) (sym (text_lex-cons x y s t b) ∙ h)
        (sym (text_lex-cons y z t u c) ∙ k)
