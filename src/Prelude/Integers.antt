-- ===== src/Prelude/Integers.antt =====
-- Integers over the native numbers, as far as the program counts below 0.
use Prim.Native.Nat.{ℕ, ◌-◌}
use mathlib.Core.Path.{◌≡◌}
use mathlib.Core.Bool.{Bool, true, false}
use native.Mathlib.Omega.{arith}
use capd.Prelude.Tests.{ltb, if◌then◌else◌}

-- `negsuc n` is - (n + 1).
pub data ℤ : Type 0 where
  pos negsuc : ℕ → ℤ

abbrev pub ltz : ℤ → ℤ → Bool
ltz (pos a) (pos b) = ltb a b
ltz (pos a) (negsuc b) = false
ltz (negsuc a) (pos b) = true
ltz (negsuc a) (negsuc b) = ltb b a

-- m - n
abbrev pub difference : ℕ → ℕ → ℤ
difference m n = if ltb m n then negsuc (n - m - 1) else pos (m - n)

pub ltz_irrefl : (x : ℤ) → ltz x x ≡ false
ltz_irrefl (pos a) = ground arith
ltz_irrefl (negsuc a) = ground arith

-- What is not above x, which is not above y, is not above y.
pub not_above_trans : (x y z : ℤ) → ltz x y ≡ false → ltz y z ≡ false → ltz x z ≡ false
not_above_trans (pos a) (pos b) (pos c) h k = ground (arith, h, k)
not_above_trans (pos a) (pos b) (negsuc c) h k = ground (arith, h, k)
not_above_trans (pos a) (negsuc b) (pos c) h k = ground (arith, h, k)
not_above_trans (pos a) (negsuc b) (negsuc c) h k = ground (arith, h, k)
not_above_trans (negsuc a) (pos b) (pos c) h k = ground (arith, h, k)
not_above_trans (negsuc a) (pos b) (negsuc c) h k = ground (arith, h, k)
not_above_trans (negsuc a) (negsuc b) (pos c) h k = ground (arith, h, k)
not_above_trans (negsuc a) (negsuc b) (negsuc c) h k = ground (arith, h, k)

pub ltz_asym : (x y : ℤ) → ltz x y ≡ true → ltz y x ≡ false
ltz_asym (pos a) (pos b) h = ground (arith, h)
ltz_asym (pos a) (negsuc b) h = ground (arith, h)
ltz_asym (negsuc a) (pos b) h = ground (arith, h)
ltz_asym (negsuc a) (negsuc b) h = ground (arith, h)
