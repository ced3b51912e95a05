-- ===== src/Prelude/Floats.antt =====
-- Go's float64, which the program uses and does not define.
use Prim.Native.Nat.{ℕ}
use mathlib.Core.Bool.{Bool}
use ristgo.Prelude.Int.{ℤ}

-- A float64 is its IEEE 754 bit pattern; the operations are those of Go's float64.
pub record Floats : Type 0 where
  pub of_int : ℤ → ℕ
  pub trunc : ℕ → ℤ
  pub mul : ℕ → ℕ → ℕ
  pub div : ℕ → ℕ → ℕ
  pub add : ℕ → ℕ → ℕ
  pub sub : ℕ → ℕ → ℕ
  pub lt : ℕ → ℕ → Bool
  pub le : ℕ → ℕ → Bool
