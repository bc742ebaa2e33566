-- ===== src/DeepCopy/Memory.antt =====
-- Go's memory, as far as the objects of the API group point into it: cells of an int32, arrays of
-- conditions and arrays of items. An address is a number, and a fresh one is the next. What the types
-- of other repositories point at is a memory of its own, of an unknown type `F`.
use capi_noplane.Prelude.{String, Bool, ℕ, List, Option, ◌==◌, nat_eq, if◌then◌else◌}
use capi_noplane.Prelude.Int.{ℤ}
use capi_noplane.Types.{ApiEndpoint, SecretReference}

-- metav1.TypeMeta
pub record TypeMeta : Type 0 where
  pub kind : String
  pub api_version : String

-- A pointer, or a slice by the address of its array, is an optional address; nil is `none`.
abbrev pub Pointer : Type 0
Pointer = Option ℕ

pub record SpecStruct : Type 0 where
  pub version : String
  pub replicas : Pointer
  pub control_plane_endpoint : ApiEndpoint
  pub credentials_secret_ref : SecretReference
  pub plane_id : String

pub record StatusStruct : Type 0 where
  pub ready : Bool
  pub initialized : Bool
  pub plane_id : String
  pub version : String
  pub replicas : Pointer
  pub ready_replicas : Pointer
  pub selector : String
  pub conditions : Pointer

-- `M`, `L` and `T` are metav1.ObjectMeta, metav1.ListMeta and clusterv1.ObjectMeta.
pub record PlaneStruct (M : Type 0) : Type 0 where
  pub type_meta : TypeMeta
  pub object_meta : M
  pub spec : SpecStruct
  pub status : StatusStruct

pub record TemplateResource (T : Type 0) : Type 0 where
  pub object_meta : T
  pub spec : SpecStruct

pub record TemplateSpec (T : Type 0) : Type 0 where
  pub template : TemplateResource T

pub record TemplateStruct (M T : Type 0) : Type 0 where
  pub type_meta : TypeMeta
  pub object_meta : M
  pub spec : TemplateSpec T

-- A list object with its items.
pub record ListStruct (L : Type 0) : Type 0 where
  pub type_meta : TypeMeta
  pub list_meta : L
  pub items : Pointer

-- `K` is the type of a condition, `A` that of the items.
pub record Memory (F K A : Type 0) : Type 0 where
  pub foreign : F
  pub next : ℕ
  pub ints : ℕ → ℤ
  pub conditions : ℕ → List K
  pub items : ℕ → List A

-- A write at an address.
abbrev pub put : {A : Type 0} → ℕ → A → (ℕ → A) → ℕ → A
put a x m b = if b == a then x else m b

-- The methods DeepCopyInto of the types of other repositories.
pub record ForeignCopies (F M L T K : Type 0) : Type 0 where
  pub copy_meta : M → F → M × F
  pub copy_list_meta : L → F → L × F
  pub copy_template_meta : T → F → T × F
  pub copy_condition : K → F → K × F
