-- ===== src/Polling/Cursor.antt =====
-- `_newer_history_id` does not go back.
use ticketmirror.Base.{
  ◌+◌, ◌≡◌, refl, String, true, some, none, ◌⊎◌, inl, inr, arith, ltb, Bool-cases, eq_iff, str_eq,
}
use ticketmirror.Base.Int.{ℤ, pos_part, neg_part, ◌≤ℤ◌}
use ticketmirror.Bookings.Reviews.{has_text}
use ticketmirror.Ingestion.Text.{strip_left, strip_right}
use ticketmirror.Polling.Decimal.{int, str, read_signed}
use ticketmirror.Polling.Decimal.RoundTrip.{int-str}
use ticketmirror.Polling.Cycle.{max_int, newer_number, newer_history_id}

-- The cursor after a candidate `b`, where it was `a`.
pub record IsLarger (current candidate : String) (a b : ℤ) : Type 0 where
  pub cursor : String
  pub kept : newer_history_id (some current) (some candidate) ≡ some cursor
  pub number : ℤ
  pub reads : int cursor ≡ some number
  pub from_current : a ≤ℤ number
  pub from_candidate : b ≤ℤ number
  pub least : (number ≡ a) ⊎ (number ≡ b)

max_int-bounds :
    (a b : ℤ) → (a ≤ℤ max_int a b) × (b ≤ℤ max_int a b) × ((max_int a b ≡ a) ⊎ (max_int a b ≡ b))
unfolding max_int
max_int-bounds a b = elim (Bool-cases (ltb (pos_part a + neg_part b) (pos_part b + neg_part a))) [
  | inl t ↦ rw t (ground arith, omega arith, inr refl)
  | inr f ↦ rw f (omega arith, ground arith, inl refl)
]

-- What `int` reads is not empty.
int-has_text : (s : String) (a : ℤ) → int s ≡ some a → has_text s ≡ true
int-has_text s a e = elim (Bool-cases (str_eq s "")) [
  | inr f ↦ rw f refl
  | inl t ↦
      let q : int "" ≡ some a = rw ((eq_iff s "").0 t) at e in
      let n : int "" ≡ none = (unfold int strip_left strip_right read_signed in refl) in cc
]

-- Where the cursor and the history id of a message are numerals, the new cursor is the numeral of the
-- larger of the two: it goes back behind neither.
pub newer_history_id-IsLarger :
    (current candidate : String) (a b : ℤ)
    → int current ≡ some a
    → int candidate ≡ some b
    → IsLarger current candidate a b
unfolding newer_history_id newer_number
newer_history_id-IsLarger current candidate a b e f =
    let (g, h, l) = max_int-bounds a b in
    record {
      cursor = str (max_int a b);
      kept = rw (int-has_text candidate b f, int-has_text current a e, e, f) refl;
      number = max_int a b;
      reads = int-str (max_int a b);
      from_current = g;
      from_candidate = h;
      least = l;
    }
