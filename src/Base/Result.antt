-- ===== src/Base/Result.antt =====
-- Code that may raise: the exception, or the value returned.
use mathlib.Core.Bool.{Bool, true, false}

pub data Result (Raised Returned : Type 0) : Type 0 where
  err : Raised → Result Raised Returned
  ok : Returned → Result Raised Returned

module _ {Raised : Type 0} where
  -- `if test: raise error`
  abbrev pub raise_if : Bool → Raised → Result Raised (Unit {0})
  raise_if false error = ok tt
  raise_if true error = err error

  infixl 5 ◌>>=◌
  abbrev pub ◌>>=◌ :
      {First Next : Type 0}
      → Result Raised First
      → (First → Result Raised Next)
      → Result Raised Next
  err error >>= continue = err error
  ok value >>= continue = continue value

  infixl 5 ◌>>◌
  -- A check, then the rest.
  abbrev pub ◌>>◌ :
      {Next : Type 0} → Result Raised (Unit {0}) → Result Raised Next → Result Raised Next
  err error >> rest = err error
  ok checked >> rest = rest
