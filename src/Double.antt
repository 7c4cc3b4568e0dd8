-- ===== src/Double.antt =====
-- The floating-point arithmetic of C that the statistics use (`double`, `float`), as an interface:
-- the language of the model has no floats. No law is assumed here; a theorem that needs one names it.
use Prim.Native.Nat.{ℕ}
use mathlib.Core.Bool.{Bool}
use flo_watcher_dpdk.Common.Int.{ℤ}

-- `of_i64` reads the 64-bit pattern of an `int64_t`; `of_int` and `to_int` are the conversions from and
-- to `int`, the second towards zero; `single` rounds to `float`; `const_p` is the value of the macro P.
pub record Arithmetic (F : Type 0) : Type 0 where
  pub of_u32 : ℕ → F
  pub of_u64 : ℕ → F
  pub of_i64 : ℕ → F
  pub of_int : ℤ → F
  pub to_int : F → ℤ
  pub const_p : F
  pub single : F → F
  pub add : F → F → F
  pub sub : F → F → F
  pub mul : F → F → F
  pub div : F → F → F
  pub sqrt : F → F
  pub lt : F → F → Bool
  pub le : F → F → Bool
