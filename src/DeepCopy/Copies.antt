-- ===== src/DeepCopy/Copies.antt =====
-- The methods DeepCopyInto and DeepCopy: what they leave in `out`, and the memory afterwards.
-- `DeepCopyInto` starts with `*out = *in`, so that nothing of the old `out` is left, and its result
-- is the new `out`.
use capi_noplane.Prelude.{◌+◌, List, [], ◌∷◌, Option, none, some}
use capi_noplane.DeepCopy.Memory.{
  Pointer, SpecStruct, StatusStruct, PlaneStruct, TemplateResource, TemplateSpec, TemplateStruct,
  ListStruct, Memory, put, ForeignCopies,
}

-- `for i := range *in { (*in)[i].DeepCopyInto(&(*out)[i]) }`
abbrev pub copy_each : {S A : Type 0} → (A → S → A × S) → List A → S → List A × S
copy_each copy [] s = ([], s)
copy_each copy (x ∷ xs) s =
    let (y, s') = copy x s in let (ys, s'') = copy_each copy xs s' in (y ∷ ys, s'')

-- `if in == nil { return nil }`
abbrev pub copy_unless_nil : {S A : Type 0} → (A → S → A × S) → Option A → S → Option A × S
copy_unless_nil copy none s = (none, s)
copy_unless_nil copy (some x) s = let (y, s') = copy x s in (some y, s')

module _ {F K A : Type 0} where
  -- `*out = new(int32); **out = **in`
  unfoldable pub copy_int : Pointer → Memory F K A → Pointer × Memory F K A
  copy_int none m = (none, m)
  copy_int (some a) m =
      (some m.next, record m { next = m.next + 1; ints = put m.next (m.ints a) m.ints })

  unfoldable pub copy_spec : SpecStruct → Memory F K A → SpecStruct × Memory F K A
  unfolding copy_int
  copy_spec spec m =
      let (replicas, m') = copy_int spec.replicas m in (record spec { replicas = replicas }, m')

  -- A call that works on the memory of other types.
  abbrev pub on_foreign : {B : Type 0} → (B → F → B × F) → B → Memory F K A → B × Memory F K A
  on_foreign copy x m = let (y, f) = copy x m.foreign in (y, record m { foreign = f })

module _ {F M L T K : Type 0} (foreign : ForeignCopies F M L T K) {A : Type 0} where
  -- `*out = make(v1beta2.Conditions, len(*in))`, and the copy of each
  unfoldable pub copy_conditions : Pointer → Memory F K A → Pointer × Memory F K A
  copy_conditions none m = (none, m)
  copy_conditions (some a) m =
      let (copied, f) = copy_each foreign.copy_condition (m.conditions a) m.foreign in
      (
        some m.next,
        record m { foreign = f; next = m.next + 1; conditions = put m.next copied m.conditions },
      )

  unfoldable pub copy_status : StatusStruct → Memory F K A → StatusStruct × Memory F K A
  unfolding copy_int copy_conditions
  copy_status status m =
      let (replicas, m1) = copy_int status.replicas m in
      let (ready_replicas, m2) = copy_int status.ready_replicas m1 in
      let (conditions, m3) = copy_conditions status.conditions m2 in
      (
        record status {
          replicas = replicas;
          ready_replicas = ready_replicas;
          conditions = conditions;
        },
        m3,
      )

  unfoldable pub copy_plane : PlaneStruct M → Memory F K A → PlaneStruct M × Memory F K A
  unfolding copy_spec copy_status
  copy_plane plane m =
      let (meta, m1) = on_foreign foreign.copy_meta plane.object_meta m in
      let (spec, m2) = copy_spec plane.spec m1 in
      let (status, m3) = copy_status plane.status m2 in
      (record plane { object_meta = meta; spec = spec; status = status }, m3)

  unfoldable pub copy_resource :
      TemplateResource T → Memory F K A → TemplateResource T × Memory F K A
  unfolding copy_spec
  copy_resource resource m =
      let (meta, m1) = on_foreign foreign.copy_template_meta resource.object_meta m in
      let (spec, m2) = copy_spec resource.spec m1 in
      (record { object_meta = meta; spec = spec }, m2)

  unfoldable pub copy_template_spec : TemplateSpec T → Memory F K A → TemplateSpec T × Memory F K A
  unfolding copy_resource
  copy_template_spec spec m =
      let (template, m') = copy_resource spec.template m in (record { template = template }, m')

  unfoldable pub copy_template :
      TemplateStruct M T → Memory F K A → TemplateStruct M T × Memory F K A
  unfolding copy_template_spec
  copy_template template m =
      let (meta, m1) = on_foreign foreign.copy_meta template.object_meta m in
      let (spec, m2) = copy_template_spec template.spec m1 in
      (record template { object_meta = meta; spec = spec }, m2)

  -- `*out = make([]..., len(*in))`: the array has its address before its items are copied.
  unfoldable pub copy_items :
      (A → Memory F K A → A × Memory F K A) → Pointer → Memory F K A → Pointer × Memory F K A
  copy_items copy none m = (none, m)
  copy_items copy (some a) m =
      let (copied, m') = copy_each copy (m.items a) (record m { next = m.next + 1 }) in
      (some m.next, record m' { items = put m.next copied m'.items })

  unfoldable pub copy_list :
      (A → Memory F K A → A × Memory F K A)
      → ListStruct L
      → Memory F K A
      → ListStruct L × Memory F K A
  unfolding copy_items
  copy_list copy list m =
      let (meta, m1) = on_foreign foreign.copy_list_meta list.list_meta m in
      let (items, m2) = copy_items copy list.items m1 in
      (record list { list_meta = meta; items = items }, m2)

  -- The methods DeepCopy, on a pointer to an object, and DeepCopyObject.
  unfoldable pub deep_copy_spec :
      Option SpecStruct → Memory F K A → Option SpecStruct × Memory F K A
  unfolding copy_spec
  deep_copy_spec = copy_unless_nil copy_spec

  unfoldable pub deep_copy_status :
      Option StatusStruct → Memory F K A → Option StatusStruct × Memory F K A
  unfolding copy_status
  deep_copy_status = copy_unless_nil copy_status

  unfoldable pub deep_copy_plane :
      Option (PlaneStruct M) → Memory F K A → Option (PlaneStruct M) × Memory F K A
  unfolding copy_plane
  deep_copy_plane = copy_unless_nil copy_plane

  unfoldable pub deep_copy_resource :
      Option (TemplateResource T) → Memory F K A → Option (TemplateResource T) × Memory F K A
  unfolding copy_resource
  deep_copy_resource = copy_unless_nil copy_resource

  unfoldable pub deep_copy_template_spec :
      Option (TemplateSpec T) → Memory F K A → Option (TemplateSpec T) × Memory F K A
  unfolding copy_template_spec
  deep_copy_template_spec = copy_unless_nil copy_template_spec

  unfoldable pub deep_copy_template :
      Option (TemplateStruct M T) → Memory F K A → Option (TemplateStruct M T) × Memory F K A
  unfolding copy_template
  deep_copy_template = copy_unless_nil copy_template

module _ {F M L T K : Type 0} (foreign : ForeignCopies F M L T K) where
  unfoldable pub deep_copy_plane_list :
      Option (ListStruct L)
      → Memory F K (PlaneStruct M)
      → Option (ListStruct L) × Memory F K (PlaneStruct M)
  unfolding copy_list copy_plane
  deep_copy_plane_list = copy_unless_nil (copy_list foreign (copy_plane foreign))

  unfoldable pub deep_copy_template_list :
      Option (ListStruct L)
      → Memory F K (TemplateStruct M T)
      → Option (ListStruct L) × Memory F K (TemplateStruct M T)
  unfolding copy_list copy_template
  deep_copy_template_list = copy_unless_nil (copy_list foreign (copy_template foreign))
