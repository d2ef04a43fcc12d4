-- ===== src/Common/Integers.antt =====
-- The integers over the native numbers.
use Prim.Native.Nat.{ℕ, zero, suc, ◌+◌, ◌-◌}
use mathlib.Core.Path.{◌≡◌, refl}
use mathlib.Core.Bool.{Bool, true, false}
use native.Mathlib.Omega.{arith}
use cs621_network_programmin.Common.Tests.{ltb, if◌then◌else◌}

-- `negsuc n` is -(n + 1)
pub data ℤ : Type 0 where
  pos : ℕ → ℤ
  negsuc : ℕ → ℤ

-- The difference of two numbers.
unfoldable pub minus : ℕ → ℕ → ℤ
minus m n = if ltb m n then negsuc (n - m - 1) else pos (m - n)

infix 65 ◌-ℤ◌
unfoldable pub ◌-ℤ◌ : ℤ → ℤ → ℤ
unfolding minus
pos m -ℤ pos n = minus m n
pos m -ℤ negsuc n = pos (m + n + 1)
negsuc m -ℤ pos n = negsuc (m + n)
negsuc m -ℤ negsuc n = minus n m

unfoldable pub abs : ℤ → ℕ
abs (pos n) = n
abs (negsuc n) = n + 1

-- n > i
unfoldable pub exceeds : ℕ → ℤ → Bool
exceeds n (pos t) = ltb t n
exceeds n (negsuc t) = true

unfoldable pub is_zero : ℤ → Bool
is_zero (pos zero) = true
is_zero (pos (suc n)) = false
is_zero (negsuc n) = false

-- The distance of two numbers.
abbrev pub distance : ℕ → ℕ → ℕ
distance m n = (m - n) + (n - m)

pub abs-minus : (m n : ℕ) → abs (minus m n) ≡ distance m n
unfolding minus abs
abs-minus m n = ground arith

pub abs-sym : (i j : ℤ) → abs (i -ℤ j) ≡ abs (j -ℤ i)
unfolding ◌-ℤ◌ abs
abs-sym (pos m) (pos n) = ground arith
abs-sym (pos m) (negsuc n) = ground arith
abs-sym (negsuc m) (pos n) = ground arith
abs-sym (negsuc m) (negsuc n) = ground arith

pub abs-zero : (i : ℤ) → abs (i -ℤ pos 0) ≡ abs i
unfolding ◌-ℤ◌ abs
abs-zero (pos m) = ground arith
abs-zero (negsuc m) = ground arith

pub is_zero→≡ : (i : ℤ) → is_zero i ≡ true → i ≡ pos 0
unfolding is_zero
is_zero→≡ (pos zero) h = refl
is_zero→≡ (pos (suc n)) h = ground arith
is_zero→≡ (negsuc n) h = ground arith
