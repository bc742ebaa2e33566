-- ===== src/DeepCopy/Structs.antt =====
-- The structs, by their pieces.
use mathlib.Core.Path.{subst}
use capi_noplane.Prelude.{◌≡◌, refl, sym, ◌∙◌, ap, List, Option, none, nat_eq}
use capi_noplane.Prelude.Int.{ℤ}
use capi_noplane.DeepCopy.Memory.{Memory, Pointer, ForeignCopies, SpecStruct, StatusStruct}
use capi_noplane.DeepCopy.Copies.{copy_spec, copy_status}
use capi_noplane.DeepCopy.Kinds.{Kind, Copies, Pair, pair-Copies}
use capi_noplane.DeepCopy.Pieces.{ForeignLaw, IntCell, copy_int-Copies}
use capi_noplane.DeepCopy.Conditions.{ConditionArray, copy_conditions-Copies}

module _ {F : Type 0} (K A : Type 0) (Later : F → F → Type 0) {S X D V : Type 0}
    (k : Kind K A Later X V) (parts : S → X) (rest : S → D) where
  -- A struct looks like its pieces and the rest of its fields.
  abbrev pub Struct : Kind K A Later S (D × V)
  Struct = record {
    view = λ m s. (rest s, k.view m (parts s));
    Valid = λ m s. k.Valid m (parts s);
    Fresh = λ b m s. k.Fresh b m (parts s);
    stable = λ m m' s e v.
        let (same, w) = k.stable m m' (parts s) e v in (ap (λ x. (rest s, x)) same, w);
    still = λ b m m' s e v f. k.still b m m' (parts s) e v f;
    lower = λ b b' m s e f. k.lower b b' m (parts s) e f;
  }

  pub struct-Copies :
      (build : S → X → S)
      → ((s : S) (x : X) → parts (build s x) ≡ x)
      → ((s : S) (x : X) → rest (build s x) ≡ rest s)
      → {c : X → Memory F K A → X × Memory F K A} → Copies K A Later k c
      → Copies K A Later Struct (λ s m. let (x, m') = c (parts s) m in (build s x, m'))
  struct-Copies build pieces others {c} ck = record {
    at = λ s m v.
        let (x, m') = c (parts s) m in
        let one = ck.at (parts s) m v in
        record {
          extends = one.extends;
          same =
              ap (λ d. (d, k.view m' (parts (build s x)))) (others s x)
              ∙ ap (λ y. (rest s, y)) (ap (λ y. k.view m' y) (pieces s x) ∙ one.same);
          valid = subst (λ y. k.Valid m' y) (sym (pieces s x)) one.valid;
          fresh = subst (λ y. k.Fresh m m' y) (sym (pieces s x)) one.fresh;
        };
  }

-- What the theorems rely on of the types of other repositories: a copy of one is as the original, it
-- points at nothing that was there, and making it writes nothing that was there.
pub record ForeignLaws {F M L T K : Type 0} (V : Type 0) (Later : F → F → Type 0)
    (foreign : ForeignCopies F M L T K) : Type 1 where
  pub same : (f : F) → Later f f
  pub trans : (f g h : F) → Later f g → Later g h → Later f h
  pub meta : ForeignLaw V Later foreign.copy_meta
  pub list_meta : ForeignLaw V Later foreign.copy_list_meta
  pub template_meta : ForeignLaw V Later foreign.copy_template_meta
  pub condition : ForeignLaw V Later foreign.copy_condition

abbrev pub plain_spec : SpecStruct → SpecStruct
plain_spec s = record s { replicas = none }

abbrev pub plain_status : StatusStruct → StatusStruct
plain_status s = record s { replicas = none; ready_replicas = none; conditions = none }

module _ {F M L T K V : Type 0} {Later : F → F → Type 0} (foreign : ForeignCopies F M L T K)
    (laws : ForeignLaws V Later foreign) (A : Type 0) where
  abbrev pub StatusPieces :
      Kind K A Later (Pointer × (Pointer × Pointer)) (Option ℤ × (Option ℤ × Option (List V)))
  StatusPieces = Pair K A Later (IntCell K A Later laws.same) (
      Pair K A Later (IntCell K A Later laws.same)
        (ConditionArray Later laws.same laws.trans foreign.copy_condition laws.condition A))

  abbrev pub SpecKind : Kind K A Later SpecStruct (SpecStruct × Option ℤ)
  SpecKind = Struct K A Later (IntCell K A Later laws.same) (λ s. s.replicas) plain_spec

  abbrev pub StatusKind :
      Kind K A Later StatusStruct (StatusStruct × (Option ℤ × (Option ℤ × Option (List V))))
  StatusKind =
      Struct K A Later StatusPieces (λ s. (s.replicas, (s.ready_replicas, s.conditions)))
        plain_status

  pub copy_spec-Copies : Copies K A Later SpecKind copy_spec
  unfolding copy_spec
  copy_spec-Copies =
      struct-Copies K A Later (IntCell K A Later laws.same) (λ s. s.replicas) plain_spec
        (λ s x. record s { replicas = x }) (λ s x. refl) (λ s x. refl)
        (copy_int-Copies K A Later laws.same)

  pub copy_status-Copies : Copies K A Later StatusKind (copy_status foreign)
  unfolding copy_status
  copy_status-Copies =
      struct-Copies K A Later StatusPieces (λ s. (s.replicas, (s.ready_replicas, s.conditions)))
        plain_status
        (λ s x. record s { replicas = x.0; ready_replicas = x.1.0; conditions = x.1.1 })
        (λ s x. refl) (λ s x. refl)
        (pair-Copies K A Later _ _ laws.trans (copy_int-Copies K A Later laws.same) (
          pair-Copies K A Later _ _ laws.trans (copy_int-Copies K A Later laws.same)
            (copy_conditions-Copies foreign A Later laws.same laws.trans laws.condition)))
