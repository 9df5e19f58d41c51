-- ===== src/Base/Double.antt =====
-- The C++ type `double` and the operations on it that the program uses. Its rounding is the
-- machine's, so it is a parameter.
use mathlib.Core.Bool.{Bool}
use Prim.Native.Nat.{ℕ}
use spot_grid_bot.Base.Int.{ℤ}

pub record Double : Type 1 where
  pub F : Type 0
  -- the conversion of an integer, and the literal `mantissa / 10 ^ digits`
  pub of_int : ℤ → F
  pub literal : ℕ → ℕ → F
  pub add : F → F → F
  pub sub : F → F → F
  pub mul : F → F → F
  pub div : F → F → F
  pub neg : F → F
  pub fabs : F → F
  pub floor : F → F
  pub llround : F → ℤ
  pub lt : F → F → Bool
  pub le : F → F → Bool
  pub eq : F → F → Bool
