-- ===== src/Base/Integers.antt =====
-- The integers over the native numbers, with Python's comparison.
use Prim.Native.Nat.{ℕ}
use mathlib.Core.Path.{◌≡◌, refl}
use mathlib.Core.Bool.{Bool, true, false}
use native.Mathlib.Omega.{arith}
use petrus.Base.Tests.{ltb}

pub data ℤ : Type 0 where
  pos negsuc : ℕ → ℤ

-- `a < b`
abbrev pub int_ltb : ℤ → ℤ → Bool
int_ltb (pos a) (pos b) = ltb a b
int_ltb (pos a) (negsuc b) = false
int_ltb (negsuc a) (pos b) = true
int_ltb (negsuc a) (negsuc b) = ltb b a

-- A value below a bound is below everything that is not below the bound.
pub int_ltb_below : (a b c : ℤ) → int_ltb a b ≡ true → int_ltb c b ≡ false → int_ltb a c ≡ true
int_ltb_below (pos a) (pos b) (pos c) h k = ground arith
int_ltb_below (pos a) (pos b) (negsuc c) h k = ground arith
int_ltb_below (pos a) (negsuc b) c h k = ground arith
int_ltb_below (negsuc a) (pos b) (pos c) h k = refl
int_ltb_below (negsuc a) (pos b) (negsuc c) h k = ground arith
int_ltb_below (negsuc a) (negsuc b) (pos c) h k = refl
int_ltb_below (negsuc a) (negsuc b) (negsuc c) h k = ground arith

-- What is not below a value is not below a lower one.
pub int_not_below : (a b c : ℤ) → int_ltb a b ≡ true → int_ltb c b ≡ false → int_ltb c a ≡ false
int_not_below (pos a) (pos b) (pos c) h k = ground arith
int_not_below (pos a) (pos b) (negsuc c) h k = ground arith
int_not_below (pos a) (negsuc b) c h k = ground arith
int_not_below (negsuc a) (pos b) (pos c) h k = refl
int_not_below (negsuc a) (pos b) (negsuc c) h k = ground arith
int_not_below (negsuc a) (negsuc b) (pos c) h k = refl
int_not_below (negsuc a) (negsuc b) (negsuc c) h k = ground arith

-- What a value is not below is below everything that is above the value.
pub int_ltb_above : (a b c : ℤ) → int_ltb a b ≡ true → int_ltb a c ≡ false → int_ltb c b ≡ true
int_ltb_above (pos a) (pos b) (pos c) h k = ground arith
int_ltb_above (pos a) (pos b) (negsuc c) h k = refl
int_ltb_above (pos a) (negsuc b) c h k = ground arith
int_ltb_above (negsuc a) (pos b) (pos c) h k = ground arith
int_ltb_above (negsuc a) (pos b) (negsuc c) h k = refl
int_ltb_above (negsuc a) (negsuc b) (pos c) h k = ground arith
int_ltb_above (negsuc a) (negsuc b) (negsuc c) h k = ground arith

pub int_ltb_irrefl : (a : ℤ) → int_ltb a a ≡ false
int_ltb_irrefl (pos a) = ground arith
int_ltb_irrefl (negsuc a) = ground arith
