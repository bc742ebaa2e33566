-- ===== src/Kube.antt =====
-- What the controller uses of other repositories: the Kubernetes client of controller-runtime, and
-- the helpers of Cluster API, controller-runtime and client-go, all unknown. Their documented
-- behaviour, where a theorem needs it, is a named hypothesis of that theorem.
use capi_noplane.Prelude.{String, Bool, List, ℕ, Option, Dict}
use capi_noplane.Errors.{Error, Result}
use capi_noplane.Exec.{Op}
use capi_noplane.Types.{
  Bytes, NamespacedName, ObjectMeta, OwnerReference, NoPlaneControlPlane, Cluster, Secret,
}
use capi_noplane.Plane.{CreateRequest, UpdateRequest, ClientFactory}

-- client.Client. `Update` returns the object as the server answers it, which Go writes back into the
-- caller's object.
pub record Kube (W : Type 0) : Type 0 where
  pub get_control_plane : NamespacedName → Op W NoPlaneControlPlane
  pub update_control_plane : NoPlaneControlPlane → Op W NoPlaneControlPlane
  pub update_control_plane_status : NoPlaneControlPlane → Op W NoPlaneControlPlane
  pub get_secret : NamespacedName → Op W Secret
  pub create_secret : Secret → Op W (Unit {0})
  pub update_secret : Secret → Op W (Unit {0})
  pub delete_secret : Secret → Op W (Unit {0})
  -- util.GetOwnerCluster
  pub get_owner_cluster : ObjectMeta → Op W (Option Cluster)

-- clientcmd's api.Cluster and api.Config, of which the code reads one field each.
pub record ConfigCluster : Type 0 where
  pub certificate_authority_data : Bytes

pub record Config : Type 0 where
  pub clusters : Dict String ConfigCluster

-- rsa.PrivateKey
pub record RsaKey : Type 0 where
  pub modulus : ℕ
  pub public_exponent : ℕ
  pub private_exponent : ℕ
  pub primes : List ℕ

pub record Toolkit (W : Type 0) : Type 0 where
  -- apierrors.IsNotFound, client.IgnoreNotFound
  pub is_not_found : Error → Bool
  pub ignore_not_found : Error → Option Error
  -- annotations.IsPaused
  pub is_paused : Cluster → NoPlaneControlPlane → Bool
  -- controllerutil
  pub contains_finalizer : NoPlaneControlPlane → String → Bool
  pub add_finalizer : NoPlaneControlPlane → String → NoPlaneControlPlane
  pub remove_finalizer : NoPlaneControlPlane → String → NoPlaneControlPlane
  -- the method IsZero of *metav1.Time
  pub is_zero : Option ℕ → Bool
  -- metav1.NewControllerRef of the Cluster, with the kind "Cluster" of clusterv1.GroupVersion
  pub new_controller_ref : Cluster → String → OwnerReference
  -- clusterv1.ClusterNameLabel, clusterv1.ClusterSecretType
  pub cluster_name_label : String
  pub cluster_secret_type : String
  -- clientcmd.Load
  pub load : Bytes → Result Config
  -- The order in which `range` visits a map: Go leaves it open.
  pub range_clusters : Dict String ConfigCluster → Op W (Dict String ConfigCluster)
  -- rsa.GenerateKey(rand.Reader, bits), x509.MarshalPKCS1PrivateKey, pem.EncodeToMemory
  pub generate_key : ℕ → Op W RsaKey
  pub marshal_pkcs1_private_key : RsaKey → Bytes
  pub pem_encode_to_memory : String → Bytes → Bytes

-- The controller's struct. Its embedded client is `kube`; the scheme is not used by the code.
pub record NoPlaneControlPlaneReconciler (W : Type 0) : Type 0 where
  pub kube : Kube W
  pub toolkit : Toolkit W
  pub client_factory : ClientFactory W

-- The calls that leave the controller.
pub data Event : Type 0 where
  get_control_plane : NamespacedName → Event
  update_control_plane : NoPlaneControlPlane → Event
  update_control_plane_status : NoPlaneControlPlane → Event
  get_secret : NamespacedName → Event
  create_secret : Secret → Event
  update_secret : Secret → Event
  delete_secret : Secret → Event
  get_owner_cluster : ObjectMeta → Event
  range_clusters : Event
  generate_key : ℕ → Event
  create_plane : CreateRequest → Event
  get_plane : String → Event
  get_plane_by_name : String → Event
  update_plane : String → UpdateRequest → Event
  delete_plane : String → Event
  get_kubeconfig : String → Event
