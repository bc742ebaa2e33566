-- ===== src/DeepCopy/Independence.antt =====
-- A deep copy and its original do not see each other's changes.
use mathlib.Core.Path.{subst}
use capi_noplane.Prelude.{ℕ, ◌≤◌, ◌≡◌, refl, ◌∙◌, List, Option, none, some, arith, ◌⊎◌, inl, inr}
use capi_noplane.Prelude.Int.{ℤ}
use capi_noplane.DeepCopy.Memory.{
  Memory, TypeMeta, Pointer, ForeignCopies, put, PlaneStruct, TemplateStruct, ListStruct,
}
use capi_noplane.DeepCopy.Copies.{copy_plane, copy_list, copy_template}
use capi_noplane.DeepCopy.Kinds.{Extends, Kind, IsDeepCopy}
use capi_noplane.DeepCopy.Pieces.{AtLeast, put_below}
use capi_noplane.DeepCopy.Conditions.{NewConditions}
use capi_noplane.DeepCopy.Structs.{ForeignLaws}
use capi_noplane.DeepCopy.Objects.{
  PlaneView, TemplateView, PlaneKind, copy_plane-Copies, TemplateKind, copy_template-Copies,
}
use capi_noplane.DeepCopy.Lists.{IsFlat}
use capi_noplane.DeepCopy.ListCopies.{ListKind, copy_list-Copies}

-- A write at an address: `*p = v` for a pointer, and any change of the array of a slice.
abbrev pub write : {F K A : Type 0} → ℕ → ℤ → List K → Memory F K A → Memory F K A
write a v conditions m = record m {
  ints = put a v m.ints;
  conditions = put a conditions m.conditions;
}

-- The pointers of the spec and the status of a control plane.
abbrev pub PointsAt : {M : Type 0} → PlaneStruct M → ℕ → Type 0
PointsAt p a =
    (p.spec.replicas ≡ some a)
    ⊎ (p.status.replicas ≡ some a)
    ⊎ (p.status.ready_replicas ≡ some a)
    ⊎ (p.status.conditions ≡ some a)

new_address : (n a : ℕ) (p : Pointer) → AtLeast n p → p ≡ some a → n ≤ a
new_address n a p h e = subst (AtLeast n) e h

module _ {F M L T K V : Type 0} {Later : F → F → Type 0} (foreign : ForeignCopies F M L T K)
    (laws : ForeignLaws V Later foreign) where
  new_array :
      {A : Type 0} (m m' : Memory F K A) (a : ℕ) (p : Pointer)
      → NewConditions Later laws.same laws.trans foreign.copy_condition laws.condition A m m' p
      → p ≡ some a
      → m.next ≤ a
  new_array m m' a none h e = cc e
  new_array m m' a (some b) (le, h) e = let same : b ≡ a = cc e in omega arith

  -- Writes through the metadata of a copy.
  meta-Extends :
      {A : Type 0} (m m' : Memory F K A) (x : M) (f : F)
      → Extends K A Later m m'
      → laws.meta.Fresh m.foreign m'.foreign x
      → laws.meta.Writes m'.foreign x f
      → Extends K A Later m (record m' { foreign = f })
  meta-Extends m m' x f e new writes = record {
    grown = e.grown;
    ints = e.ints;
    conditions = e.conditions;
    items = e.items;
    foreign = laws.meta.apart x m.foreign m'.foreign f e.foreign new writes;
  }

  written-Extends :
      {A : Type 0} (m m' : Memory F K A) (a : ℕ) (v : ℤ) (conditions : List K)
      → Extends K A Later m m'
      → m.next ≤ a
      → Extends K A Later m (write a v conditions m')
  written-Extends m m' a v conditions e le = record {
    grown = e.grown;
    ints = λ b lt. put_below a b v m'.ints (omega arith) ∙ e.ints b lt;
    conditions = λ b lt. put_below a b conditions m'.conditions (omega arith) ∙ e.conditions b lt;
    items = e.items;
    foreign = e.foreign;
  }

  address_of :
      {A : Type 0} (m : Memory F K A) (out : PlaneStruct M) (m' : Memory F K A) (a : ℕ)
      → (PlaneKind foreign laws A).Fresh m m' out
      → PointsAt out a
      → m.next ≤ a
  address_of m out m' a (_, (f, _)) (inl e) = new_address m.next a out.spec.replicas f e
  address_of m out m' a (_, (_, (f, _))) (inr (inl e)) =
      new_address m.next a out.status.replicas f e
  address_of m out m' a (_, (_, (_, (f, _)))) (inr (inr (inl e))) =
      new_address m.next a out.status.ready_replicas f e
  address_of m out m' a (_, (_, (_, (_, f)))) (inr (inr (inr e))) =
      new_array m m' a out.status.conditions f e

  module _ {A : Type 0} (plane : PlaneStruct M) (m : Memory F K A)
      (valid : (PlaneKind foreign laws A).Valid m plane) where
    -- The copy of a control plane looks like the original, which looks as before. A write through a
    -- pointer of the spec or of the status of the copy, also one to its array of conditions, is not
    -- seen through the original, and neither are writes through the metadata of the copy, as to its
    -- labels and annotations. The original points at what is there; the copies that the types of
    -- other repositories make of themselves are as their originals, point at nothing that was there
    -- and write nothing that was there.
    pub copy_plane_independent :
        let k = PlaneKind foreign laws A in
        let (out, m') = copy_plane foreign plane m in
        (k.view m' out ≡ k.view m plane)
        × (k.view m' plane ≡ k.view m plane)
        × ((a : ℕ) (v : ℤ) (conditions : List K)
            → PointsAt out a
            → k.view (write a v conditions m') plane ≡ k.view m plane)
        × ((f : F)
            → laws.meta.Writes m'.foreign out.object_meta f
            → k.view (record m' { foreign = f }) plane ≡ k.view m plane)
    copy_plane_independent =
        let k = PlaneKind foreign laws A in
        let (out, m') = copy_plane foreign plane m in
        let copied = (copy_plane-Copies foreign laws A).at plane m valid in
        (
          copied.same,
          (k.stable m m' plane copied.extends valid).0,
          λ a v conditions points.
              (k.stable m (write a v conditions m') plane
                (written-Extends m m' a v conditions copied.extends
                  (address_of m out m' a copied.fresh points))
                valid).0,
          λ f writes.
              (k.stable m (record m' { foreign = f }) plane
                (meta-Extends m m' out.object_meta f copied.extends copied.fresh.0 writes) valid).0,
        )

  pub flat_plane :
      IsFlat K (PlaneStruct M) Later laws.same laws.trans (PlaneKind foreign laws (PlaneStruct M))
  flat_plane = record { view = λ m i x. refl; valid = λ m i x v. v; fresh = λ n m i x f. f }

  pub flat_template :
      IsFlat K
        (TemplateStruct M T)
        Later
        laws.same
        laws.trans
        (TemplateKind foreign laws (TemplateStruct M T))
  flat_template = record { view = λ m i x. refl; valid = λ m i x v. v; fresh = λ n m i x f. f }

  abbrev pub PlaneListKind :
      Kind K (PlaneStruct M) Later (ListStruct L) (TypeMeta × (V × Option (List (PlaneView V))))
  PlaneListKind =
      ListKind foreign laws (PlaneKind foreign laws (PlaneStruct M)) flat_plane
        (copy_plane-Copies foreign laws (PlaneStruct M))

  abbrev pub TemplateListKind :
      Kind K
        (TemplateStruct M T)
        Later
        (ListStruct L)
        (TypeMeta × (V × Option (List (TemplateView V))))
  TemplateListKind =
      ListKind foreign laws (TemplateKind foreign laws (TemplateStruct M T)) flat_template
        (copy_template-Copies foreign laws (TemplateStruct M T))

  -- The copy of a list of control planes looks like the original. Its array is new, it and its items
  -- point at nothing that was there, neither by their metadata nor by the pointers of spec and
  -- status, and what was in memory before is as it was. The original points at what is there, and so
  -- do its items; the copies that the types of other repositories make of themselves are as their
  -- originals, point at nothing that was there and write nothing that was there.
  pub copy_plane_list-IsDeepCopy :
      (list : ListStruct L) (m : Memory F K (PlaneStruct M))
      → PlaneListKind.Valid m list
      → IsDeepCopy K
          (PlaneStruct M)
          Later
          PlaneListKind
          m
          list
          (copy_list foreign (copy_plane foreign) list m)
  copy_plane_list-IsDeepCopy list m valid =
      (copy_list-Copies foreign laws (PlaneKind foreign laws (PlaneStruct M)) flat_plane
          (copy_plane-Copies foreign laws (PlaneStruct M))).at
        list m valid

  -- The same for a list of templates.
  pub copy_template_list-IsDeepCopy :
      (list : ListStruct L) (m : Memory F K (TemplateStruct M T))
      → TemplateListKind.Valid m list
      → IsDeepCopy K
          (TemplateStruct M T)
          Later
          TemplateListKind
          m
          list
          (copy_list foreign (copy_template foreign) list m)
  copy_template_list-IsDeepCopy list m valid =
      (copy_list-Copies foreign laws (TemplateKind foreign laws (TemplateStruct M T)) flat_template
          (copy_template-Copies foreign laws (TemplateStruct M T))).at
        list m valid
