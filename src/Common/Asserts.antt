-- ===== src/Common/Asserts.antt =====
-- C++ code with NS_ASSERT in it, as the default debug build runs it: a failed assertion, or a use of
-- a null pointer, ends the program.
use mathlib.Core.Path.{◌≡◌, refl}
use mathlib.Core.Bool.{Bool, true, false}

pub data Checked {ℓ} (Value : Type ℓ) : Type ℓ where
  abort : Checked Value
  ok : Value → Checked Value

-- NS_ASSERT
abbrev pub assert : Bool → Checked (Unit {0})
assert false = abort
assert true = ok tt

-- One statement after another, with and without a value passed on.
module _ {ℓ κ} {Value : Type ℓ} {Next : Type κ} where
  infixl 5 ◌>>=◌ ◌>>◌
  abbrev pub ◌>>=◌ : Checked Value → (Value → Checked Next) → Checked Next
  abort >>= rest = abort
  ok value >>= rest = rest value

  abbrev pub ◌>>◌ : Checked Value → Checked Next → Checked Next
  abort >> rest = abort
  ok value >> rest = rest

  -- What ends well began well.
  pub >>=-value :
      (run : Checked Value) (rest : Value → Checked Next) (end : Next)
      → (run >>= rest) ≡ ok end
      → (value : Value) × (run ≡ ok value) × (rest value ≡ ok end)
  >>=-value abort rest end ended = cc
  >>=-value (ok value) rest end ended = (value, refl, ended)
