-- ===== src/Prelude/Int.antt =====
-- Go's signed integers: `int` values as ℤ, and the conversion `int32(n)`, which keeps the low 32
-- bits.
use Prim.Native.Nat.{ℕ, ◌-◌, ◌%◌, ◌^◌}
use mathlib.Core.Path.{◌≡◌}
use mathlib.Core.Logic.{◌↔◌}
use mathlib.Core.Bool.{Bool, true, false}
use native.Mathlib.Omega.{arith}
use capi_noplane.Prelude.Tests.{ltb, nat_eqb, if◌then◌else◌}
use capi_noplane.Prelude.Equality.{Eq}

-- `negsuc n` is -(n + 1).
pub data ℤ : Type 0 where
  pos : ℕ → ℤ
  negsuc : ℕ → ℤ

abbrev pub int_eqb : ℤ → ℤ → Bool
int_eqb (pos a) (pos b) = nat_eqb a b
int_eqb (negsuc a) (negsuc b) = nat_eqb a b
int_eqb _ _ = false

pub int_eqb_iff : (a b : ℤ) → (int_eqb a b ≡ true) ↔ (a ≡ b)
int_eqb_iff a b = ground arith

instance abbrev pub int_eq : Eq ℤ
int_eq = record { beq = int_eqb; beq_iff = int_eqb_iff }

-- The 32-bit two's complement pattern of an integer, and the integer of a pattern.
abbrev pub int32_bits : ℤ → ℕ
int32_bits (pos n) = n % 2 ^ 32
int32_bits (negsuc n) = 2 ^ 32 - 1 - n % 2 ^ 32

abbrev pub of_int32_bits : ℕ → ℤ
of_int32_bits b = if ltb b (2 ^ 31) then pos b else negsuc (2 ^ 32 - 1 - b)

unfoldable pub int32 : ℤ → ℤ
int32 n = of_int32_bits (int32_bits n)
