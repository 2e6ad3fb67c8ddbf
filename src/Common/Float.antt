-- ===== src/Common/Float.antt =====
-- What the driver uses of Float64, which is no type of the model: a parameter.
use Prim.Native.Nat.{ℕ}
use mathlib.Core.Bool.{Bool}
use jack_router.Common.Int.{ℤ}

pub record Float64 : Type 1 where
  pub Value : Type 0
  pub of_u64 : ℕ → Value
  pub of_s64 : ℤ → Value
  pub to_u64 : Value → ℕ
  pub to_s64 : Value → ℤ
  pub add : Value → Value → Value
  pub mul : Value → Value → Value
  pub div : Value → Value → Value
  pub positive : Value → Bool
  pub eq : Value → Value → Bool
