-- ===== src/Reconciler/Secrets.antt =====
-- `getAPIKey` and `reconcileKubeconfig`
pub mod Laws
pub mod Emits
use capi_noplane.Prelude.{
  String, Option, none, some, [], ◌∷◌, ◌<>◌, lookup, string_eq, if◌then◌else◌,
}
use capi_noplane.Errors.{errorf, wrap, text}
use capi_noplane.Exec.{Caught, returned, raised, or_wrap, attempt, pure, fail, ◌>>=◌}
use capi_noplane.Types.{
  Bytes, NamespacedName, SecretReference, ObjectMeta, NoPlaneControlPlane, Cluster, Secret,
}
use capi_noplane.Plane.{ClientInterface}
use capi_noplane.Kube.{NoPlaneControlPlaneReconciler}
use capi_noplane.Reconciler.Calls.{Action, get_secret, create_secret, update_secret, get_kubeconfig}

api_key_of : {W : Type 0} → SecretReference → Option Bytes → Action W String
api_key_of ref none = fail (
    errorf "credentials secret %s/%s missing 'apiKey' key"
      (text ref.namespace ∷ text ref.name ∷ []))
api_key_of ref (some key) = pure key

unfoldable pub get_api_key :
    {W : Type 0} → NoPlaneControlPlaneReconciler W → SecretReference → Action W String
unfolding api_key_of
get_api_key r ref = do
  secret ←
      or_wrap "getting credentials secret %s/%s: %w" (text ref.namespace ∷ text ref.name ∷ [])
        (get_secret r (record { namespace = ref.namespace; name = ref.name }))
  api_key_of ref (lookup "apiKey" secret.entries)

-- The metadata of a new secret of the cluster; all else is the zero value.
unfoldable pub secret_meta :
    {W : Type 0} → NoPlaneControlPlaneReconciler W → Cluster → String → ObjectMeta
secret_meta r cluster name = record {
  name = name;
  namespace = cluster.meta.namespace;
  uid = "";
  resource_version = "";
  labels = (r.toolkit.cluster_name_label, cluster.meta.name) ∷ [];
  annotations = [];
  owner_references = r.toolkit.new_controller_ref cluster "Cluster" ∷ [];
  finalizers = [];
  deletion_timestamp = none;
}

abbrev pub key_of : Secret → NamespacedName
key_of secret = record { namespace = secret.meta.namespace; name = secret.meta.name }

-- `existing.Data = secret.Data; existing.Labels = secret.Labels`
abbrev pub refreshed : Secret → Secret → Secret
refreshed existing secret = record existing {
  meta = record existing.meta { labels = secret.meta.labels };
  entries = secret.entries;
}

unfoldable pub kubeconfig_secret :
    {W : Type 0} → NoPlaneControlPlaneReconciler W → Cluster → Bytes → Secret
unfolding secret_meta
kubeconfig_secret r cluster kubeconfig = record {
  meta = secret_meta r cluster (cluster.meta.name <> "-kubeconfig");
  secret_type = "";
  entries = ("value", kubeconfig) ∷ [];
}

module _ {W : Type 0} (r : NoPlaneControlPlaneReconciler W) where
  put_kubeconfig : Secret → Caught Secret → Action W (Unit {0})
  put_kubeconfig secret (returned existing) = update_secret r (refreshed existing secret)
  put_kubeconfig secret (raised e) =
      if r.toolkit.is_not_found e
      then create_secret r secret
      else fail (wrap "checking kubeconfig secret: %w" [] e)

  unfoldable pub reconcile_kubeconfig :
      ClientInterface W → Cluster → NoPlaneControlPlane → Action W (Unit {0})
  unfolding put_kubeconfig
  reconcile_kubeconfig c cluster ncp = do
    kubeconfig ←
        or_wrap "fetching kubeconfig from noplane.io: %w" [] (get_kubeconfig c ncp.status.plane_id)
    let secret = kubeconfig_secret r cluster kubeconfig
    existing ← attempt (get_secret r (key_of secret))
    put_kubeconfig secret existing
