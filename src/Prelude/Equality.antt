-- ===== src/Prelude/Equality.antt =====
-- Go's `==` on strings and integers, as an instance argument.
use Prim.Native.Nat.{ℕ}
use Prim.Native.String.{String}
use mathlib.Core.Path.{◌≡◌, refl}
use mathlib.Core.Logic.{◌↔◌, ◌≢◌}
use mathlib.Core.Bool.{Bool, true, false, not}
use native.Mathlib.Omega.{arith}
use text.Mathlib.Text.{◌==◌ as str_eqb}
use text.Mathlib.TextEquality.{eq_iff}
use capi_noplane.Prelude.Tests.{nat_eqb}

pub record Eq {ℓ} (A : Type ℓ) : Type ℓ where
  pub beq : A → A → Bool
  pub beq_iff : (x y : A) → (beq x y ≡ true) ↔ (x ≡ y)

pub nat_eqb_iff : (a b : ℕ) → (nat_eqb a b ≡ true) ↔ (a ≡ b)
nat_eqb_iff a b = ground arith

infix 50 ◌==◌
abbrev pub ◌==◌ {ℓ} : {A : Type ℓ} ⦃e : Eq A⦄ → A → A → Bool
◌==◌ ⦃e⦄ = e.beq

instance abbrev pub string_eq : Eq String
string_eq = record { beq = str_eqb; beq_iff = eq_iff }

instance abbrev pub nat_eq : Eq ℕ
nat_eq = record { beq = nat_eqb; beq_iff = nat_eqb_iff }

pub beq_refl {ℓ} : {A : Type ℓ} ⦃e : Eq A⦄ (a : A) → (a == a) ≡ true
beq_refl ⦃e⦄ a = (e.beq_iff a a).1 refl

pub ne_of_beq {ℓ} : {A : Type ℓ} ⦃e : Eq A⦄ (a b : A) → (a == b) ≡ false → a ≢ b
ne_of_beq ⦃e⦄ a b h p = cc (h, (e.beq_iff a b).1 p)

pub ne_of_not_beq {ℓ} : {A : Type ℓ} ⦃e : Eq A⦄ (a b : A) → not (a == b) ≡ true → a ≢ b
ne_of_not_beq a b h = ne_of_beq a b (ground arith)

pub eq_of_not_beq {ℓ} : {A : Type ℓ} ⦃e : Eq A⦄ (a b : A) → not (a == b) ≡ false → a ≡ b
eq_of_not_beq ⦃e⦄ a b h = (e.beq_iff a b).0 (ground arith)
