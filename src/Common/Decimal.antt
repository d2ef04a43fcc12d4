-- ===== src/Common/Decimal.antt =====
-- Numbers as decimal text, a text being the list of its character codes.
use Prim.Native.Nat.{ℕ, zero, suc, ◌+◌, ◌-◌, ◌*◌, ◌/◌, ◌%◌, ◌<◌}
use Prim.Native.Char.{code}
use Prim.Native.String.{String}
use mathlib.Core.Path.{◌≡◌, refl, ◌∙◌}
use mathlib.Core.Logic.{inl, inr}
use mathlib.Core.Bool.{Bool, true, ◌&&◌}
use mathlib.Core.List.{List, [], ◌∷◌}
use native.Mathlib.Omega.{arith}
use cs621_network_programmin.Common.Tests.{ltb, leb, if◌then◌else◌, Bool-cases, ltb→lt, ltb→le}
use cs621_network_programmin.Common.Lists.{All}

abbrev pub codes : String → List ℕ
codes String.[] = []
codes (String.◌∷◌ c s) = code c ∷ codes s

abbrev pub is_digit : ℕ → Bool
is_digit c = leb b'0' c && leb c b'9'

-- The number that the digits at the start of a text make, after `n`.
unfoldable pub digits : ℕ → List ℕ → ℕ
digits n [] = n
digits n (c ∷ cs) = let rest = digits (n * 10 + (c - b'0')) cs in if is_digit c then rest else n

-- The digits of `n`, before a text.
unfoldable pub decimal_before : ℕ → ℕ → List ℕ → List ℕ
decimal_before zero n rest = rest
decimal_before (suc fuel) n rest =
    let more = decimal_before fuel (n / 10) ((n % 10 + b'0') ∷ rest) in
    if ltb n 10 then (n + b'0') ∷ rest else more

unfoldable pub decimal : ℕ → List ℕ
unfolding decimal_before
decimal n = decimal_before (suc n) n []

digits-step : (n : ℕ) (rest : List ℕ) → digits (n / 10) ((n % 10 + b'0') ∷ rest) ≡ digits n rest
unfolding digits
digits-step n rest =
    let digit : (is_digit (n % 10 + b'0') ≡ true) = ground arith in
    let whole : (n / 10 * 10 + (n % 10 + b'0' - b'0') ≡ n) = omega arith in rw (digit, whole) refl

digits-decimal_before :
    (fuel n : ℕ) (rest : List ℕ) → n < fuel → digits 0 (decimal_before fuel n rest) ≡ digits n rest
unfolding digits decimal_before
digits-decimal_before zero n rest h = absurd (omega arith)
digits-decimal_before (suc fuel) n rest h = elim (Bool-cases (ltb n 10)) [
  | inl one ↦ rw one (ground (arith, ltb→lt n 10 one))
  | inr more ↦
      rw more (
        digits-decimal_before fuel (n / 10) _ (omega (arith, ltb→le n 10 more))
        ∙ digits-step n rest)
]

pub digits-decimal : (n : ℕ) → digits 0 (decimal n) ≡ n
unfolding decimal digits
digits-decimal n = digits-decimal_before (suc n) n [] (omega arith)

-- A text that starts with a digit.
abbrev pub Starts : List ℕ → Type 0
Starts [] = ⊥
Starts (c ∷ cs) = is_digit c ≡ true

decimal_before-Starts :
    (fuel n : ℕ) (rest : List ℕ) → n < fuel → Starts (decimal_before fuel n rest)
unfolding decimal_before
decimal_before-Starts zero n rest h = absurd (omega arith)
decimal_before-Starts (suc fuel) n rest h = elim (Bool-cases (ltb n 10)) [
  | inl one ↦ rw one (ground (arith, ltb→lt n 10 one))
  | inr more ↦ rw more (decimal_before-Starts fuel (n / 10) _ (omega (arith, ltb→le n 10 more)))
]

pub decimal-Starts : (n : ℕ) → Starts (decimal n)
unfolding decimal
decimal-Starts n = decimal_before-Starts (suc n) n [] (omega arith)

decimal_before-All :
    (fuel n : ℕ) (rest : List ℕ)
    → n < fuel
    → All (λ c. is_digit c ≡ true) rest
    → All (λ c. is_digit c ≡ true) (decimal_before fuel n rest)
unfolding decimal_before
decimal_before-All zero n rest h a = absurd (omega arith)
decimal_before-All (suc fuel) n rest h a = elim (Bool-cases (ltb n 10)) [
  | inl one ↦ rw one (ground (arith, ltb→lt n 10 one), a)
  | inr more ↦
      rw more
        (decimal_before-All fuel (n / 10) _ (omega (arith, ltb→le n 10 more)) (ground arith, a))
]

pub decimal-All : (n : ℕ) → All (λ c. is_digit c ≡ true) (decimal n)
unfolding decimal
decimal-All n = decimal_before-All (suc n) n [] (omega arith) tt
