-- ===== src/DeepCopy/Objects.antt =====
-- The copies of whole objects, and what a write through a copy can do.
use capi_noplane.Prelude.{refl, List, Option}
use capi_noplane.Prelude.Int.{ℤ}
use capi_noplane.DeepCopy.Memory.{
  ForeignCopies, PlaneStruct, SpecStruct, StatusStruct, TypeMeta, TemplateStruct,
}
use capi_noplane.DeepCopy.Copies.{copy_plane, copy_resource, copy_template_spec, copy_template}
use capi_noplane.DeepCopy.Kinds.{Kind, Copies, Pair, pair-Copies}
use capi_noplane.DeepCopy.Pieces.{Foreign, on_foreign-Copies}
use capi_noplane.DeepCopy.Structs.{
  Struct, struct-Copies, ForeignLaws, SpecKind, StatusKind, copy_spec-Copies, copy_status-Copies,
}

-- A control plane and a template with everything that they point at.
abbrev pub PlaneView : Type 0 → Type 0
PlaneView V =
    TypeMeta
    × (V × ((SpecStruct × Option ℤ) × (StatusStruct × (Option ℤ × (Option ℤ × Option (List V))))))

abbrev pub TemplateView : Type 0 → Type 0
TemplateView V = TypeMeta × (V × (V × (SpecStruct × Option ℤ)))

module _ {F M L T K V : Type 0} {Later : F → F → Type 0} (foreign : ForeignCopies F M L T K)
    (laws : ForeignLaws V Later foreign) (A : Type 0) where
  abbrev PlanePieces :
      Kind K A Later
        (M × (SpecStruct × StatusStruct))
        (V × ((SpecStruct × Option ℤ) × (StatusStruct × (Option ℤ × (Option ℤ × Option (List V))))))
  PlanePieces =
      Pair K A Later (Foreign K A Later laws.same foreign.copy_meta laws.meta)
        (Pair K A Later (SpecKind foreign laws A) (StatusKind foreign laws A))

  -- How a control plane looks: its type, its metadata, and its spec and status with what they point
  -- at.
  abbrev pub PlaneKind : Kind K A Later (PlaneStruct M) (PlaneView V)
  PlaneKind =
      Struct K A Later PlanePieces (λ p. (p.object_meta, (p.spec, p.status))) (λ p. p.type_meta)

  pub copy_plane-Copies : Copies K A Later PlaneKind (copy_plane foreign)
  unfolding copy_plane
  copy_plane-Copies =
      struct-Copies K A Later PlanePieces (λ p. (p.object_meta, (p.spec, p.status)))
        (λ p. p.type_meta) (λ p x. record p { object_meta = x.0; spec = x.1.0; status = x.1.1 })
        (λ p x. refl) (λ p x. refl)
        (pair-Copies K A Later _ _ laws.trans
          (on_foreign-Copies K A Later laws.same foreign.copy_meta laws.meta)
          (pair-Copies K A Later _ _ laws.trans (copy_spec-Copies foreign laws A)
            (copy_status-Copies foreign laws A)))

  abbrev ResourcePieces : Kind K A Later (T × SpecStruct) (V × (SpecStruct × Option ℤ))
  ResourcePieces =
      Pair K A Later (Foreign K A Later laws.same foreign.copy_template_meta laws.template_meta)
        (SpecKind foreign laws A)

  abbrev TemplatePieces : Kind K A Later (M × (T × SpecStruct)) (V × (V × (SpecStruct × Option ℤ)))
  TemplatePieces =
      Pair K A Later (Foreign K A Later laws.same foreign.copy_meta laws.meta) ResourcePieces

  -- How a template looks.
  abbrev pub TemplateKind : Kind K A Later (TemplateStruct M T) (TemplateView V)
  TemplateKind =
      Struct K A Later TemplatePieces
        (λ t. (t.object_meta, (t.spec.template.object_meta, t.spec.template.spec)))
        (λ t. t.type_meta)

  pub copy_template-Copies : Copies K A Later TemplateKind (copy_template foreign)
  unfolding copy_template copy_template_spec copy_resource
  copy_template-Copies =
      struct-Copies K A Later TemplatePieces
        (λ t. (t.object_meta, (t.spec.template.object_meta, t.spec.template.spec)))
        (λ t. t.type_meta)
        (λ t x. record t {
          object_meta = x.0;
          spec = record { template = record { object_meta = x.1.0; spec = x.1.1 } };
        })
        (λ t x. refl) (λ t x. refl)
        (pair-Copies K A Later _ _ laws.trans
          (on_foreign-Copies K A Later laws.same foreign.copy_meta laws.meta)
          (pair-Copies K A Later _ _ laws.trans
            (on_foreign-Copies K A Later laws.same foreign.copy_template_meta laws.template_meta)
            (copy_spec-Copies foreign laws A)))
