-- ===== src/Prelude/Lists.antt =====
-- Lists: a Go map as an association list, and counts and predicates by recursion.
use mathlib.Core.Bool.{Bool}
use mathlib.Core.Option.{Option, none, some}
use mathlib.Core.List.{List, [], ◌∷◌}
use Prim.Native.Nat.{ℕ, ◌+◌}
use capi_noplane.Prelude.Tests.{if◌then◌else◌}
use capi_noplane.Prelude.Equality.{Eq, ◌==◌, beq_refl}
use mathlib.Core.Path.{◌≡◌}
use native.Mathlib.Omega.{arith}

abbrev pub Dict {ℓ κ} : Type ℓ → Type κ → Type (ℓ ⊔ κ)
Dict K V = List (K × V)

module _ {ℓ κ} {K : Type ℓ} {V : Type κ} ⦃e : Eq K⦄ where
  -- `v, ok := m[k]`
  abbrev pub lookup : K → Dict K V → Option V
  lookup k [] = none
  lookup k ((j, v) ∷ m) = if j == k then some v else lookup k m

  -- `m[k] = v`
  abbrev pub insert : K → V → Dict K V → Dict K V
  insert k v [] = (k, v) ∷ []
  insert k v ((i, old) ∷ m) = if i == k then (k, v) ∷ m else (i, old) ∷ insert k v m

  pub lookup-insert : (k : K) (v : V) (m : Dict K V) → lookup k (insert k v m) ≡ some v
  lookup-insert k v [] = ground (arith, beq_refl k)
  lookup-insert k v ((j, w) ∷ m) = let rec = lookup-insert k v m in ground (arith, beq_refl k)

  -- `delete(m, k)`
  abbrev pub erase : K → Dict K V → Dict K V
  erase k [] = []
  erase k ((j, v) ∷ m) = let rest = erase k m in if j == k then rest else (j, v) ∷ rest

  pub lookup-erase : (k : K) (m : Dict K V) → lookup k (erase k m) ≡ none
  lookup-erase k [] = ground arith
  lookup-erase k ((j, v) ∷ m) = let rec = lookup-erase k m in ground arith

module _ {ℓ} {A : Type ℓ} where
  abbrev pub count : (A → Bool) → List A → ℕ
  count p [] = 0
  count p (x ∷ xs) = (if p x then 1 else 0) + count p xs

  abbrev pub All {κ} : (A → Type κ) → List A → Type κ
  All P [] = Unit
  All P (x ∷ xs) = P x × All P xs
