-- ===== src/Types.antt =====
-- The objects of the Kubernetes API.
-- api/v1alpha1/noplanecontrolplane_types.go: NoPlaneControlPlane, its spec and its status, field by
-- field. Of the types of other repositories that it and the controller use (object metadata, Secret,
-- Cluster, SecretReference, APIEndpoint), the fields that the code here reads, writes or copies.
use capi_noplane.Prelude.{String, Bool, true, List, ℕ, ◌&&◌, ◌≡◌, ◌↔◌, Option, arith}
use capi_noplane.Prelude.{Dict, ◌==◌, string_eq}
use capi_noplane.Prelude.Int.{ℤ, int_eq}

-- A `[]byte` that holds text.
abbrev pub Bytes : Type 0
Bytes = String

pub record NamespacedName : Type 0 where
  pub namespace : String
  pub name : String

-- corev1.SecretReference
pub record SecretReference : Type 0 where
  pub name : String
  pub namespace : String

-- metav1.OwnerReference
pub record OwnerReference : Type 0 where
  pub api_version : String
  pub kind : String
  pub name : String
  pub uid : String
  pub controller : Option Bool
  pub block_owner_deletion : Option Bool

-- metav1.ObjectMeta
pub record ObjectMeta : Type 0 where
  pub name : String
  pub namespace : String
  pub uid : String
  pub resource_version : String
  pub labels : Dict String String
  pub annotations : Dict String String
  pub owner_references : List OwnerReference
  pub finalizers : List String
  -- nil, or the seconds since the zero time
  pub deletion_timestamp : Option ℕ

-- clusterv1.APIEndpoint
pub record ApiEndpoint : Type 0 where
  pub host : String
  pub port : ℤ

-- Go's `==` on the struct.
unfoldable pub same_endpoint : ApiEndpoint → ApiEndpoint → Bool
same_endpoint a b = a.host == b.host && a.port == b.port

-- clusterv1.Conditions, which the code passes on whole.
abbrev pub Conditions : Type 0
Conditions = List String

pub record NoPlaneControlPlaneSpec : Type 0 where
  pub version : String
  pub replicas : Option ℤ
  pub control_plane_endpoint : ApiEndpoint
  pub credentials_secret_ref : SecretReference
  pub plane_id : String

pub record NoPlaneControlPlaneStatus : Type 0 where
  pub ready : Bool
  pub initialized : Bool
  pub plane_id : String
  pub version : String
  pub replicas : Option ℤ
  pub ready_replicas : Option ℤ
  pub selector : String
  pub conditions : Conditions

pub record NoPlaneControlPlane : Type 0 where
  pub meta : ObjectMeta
  pub spec : NoPlaneControlPlaneSpec
  pub status : NoPlaneControlPlaneStatus

unfoldable pub get_conditions : NoPlaneControlPlane → Conditions
get_conditions n = n.status.conditions

unfoldable pub set_conditions : NoPlaneControlPlane → Conditions → NoPlaneControlPlane
set_conditions n conditions = record n { status = record n.status { conditions = conditions } }

-- clusterv1.Cluster
pub record Cluster : Type 0 where
  pub meta : ObjectMeta
  pub paused : Option Bool

-- corev1.Secret
pub record Secret : Type 0 where
  pub meta : ObjectMeta
  pub secret_type : String
  pub entries : Dict String Bytes

-- `same_endpoint` is equality.
pub same_endpoint_iff : (a b : ApiEndpoint) → (same_endpoint a b ≡ true) ↔ (a ≡ b)
unfolding same_endpoint
same_endpoint_iff a b =
    ground (arith, string_eq.beq_iff a.host b.host, int_eq.beq_iff a.port b.port)
