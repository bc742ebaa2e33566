-- ===== src/Reconciler/CaSecret.antt =====
-- `reconcileCASecret`
pub mod Laws
pub mod Emits
use capi_noplane.Prelude.{
  String, none, some, [], ◌∷◌, ◌<>◌, Dict, lookup, not, ◌==◌, string_eq, if◌then◌else◌,
}
use capi_noplane.Errors.{errorf, wrap}
use capi_noplane.Exec.{
  Caught, returned, raised, call, or_wrap, attempt, pure, fail, lift, ◌>>=◌, ◌>>◌,
}
use capi_noplane.Types.{Bytes, NamespacedName, NoPlaneControlPlane, Cluster, Secret}
use capi_noplane.Plane.{ClientInterface}
use capi_noplane.Kube.{NoPlaneControlPlaneReconciler, ConfigCluster, Event}
use capi_noplane.Reconciler.Calls.{
  Action, get_secret, create_secret, update_secret, delete_secret, get_kubeconfig,
}
use capi_noplane.Reconciler.Secrets.{secret_meta, refreshed}

-- `m[k]` of a map of byte slices: nil, which is as long as the empty slice, where the key is absent.
abbrev pub entry : String → Dict String Bytes → Bytes
entry k m = elim (lookup k m) [ none ↦ "" | some v ↦ v ]

-- `&corev1.Secret{}`
abbrev pub zero_secret : Secret
zero_secret = record {
  meta = record {
    name = "";
    namespace = "";
    uid = "";
    resource_version = "";
    labels = [];
    annotations = [];
    owner_references = [];
    finalizers = [];
    deletion_timestamp = none;
  };
  secret_type = "";
  entries = [];
}

abbrev pub ca_key : Cluster → NamespacedName
ca_key cluster = record { namespace = cluster.meta.namespace; name = cluster.meta.name <> "-ca" }

-- The loop that leaves at its first round.
first_ca_data : Dict String ConfigCluster → Bytes
first_ca_data [] = ""
first_ca_data ((name, cluster) ∷ rest) = cluster.certificate_authority_data

module _ {W : Type 0} (r : NoPlaneControlPlaneReconciler W) where
  unfoldable pub ca_secret : Cluster → Bytes → Bytes → Secret
  unfolding secret_meta
  ca_secret cluster ca_data key_pem = record {
    meta = secret_meta r cluster (cluster.meta.name <> "-ca");
    secret_type = r.toolkit.cluster_secret_type;
    entries = ("tls.crt", ca_data) ∷ ("tls.key", key_pem) ∷ [];
  }

  no_clusters : Dict String ConfigCluster → Action W (Unit {0})
  no_clusters [] = fail (errorf "kubeconfig contains no clusters" [])
  no_clusters (entry ∷ rest) = pure tt

  -- The secret for this certificate, with a fresh key that nothing uses.
  with_dummy_key : Cluster → Bytes → Action W Secret
  with_dummy_key cluster ca_data =
      if ca_data == ""
      then fail (errorf "kubeconfig cluster entry has no certificate-authority-data" [])
      else do
        key ←
            or_wrap "generating dummy CA key: %w" []
              (call (Event.generate_key 2048) (r.toolkit.generate_key 2048))
        pure (
            ca_secret cluster ca_data (
              r.toolkit.pem_encode_to_memory "RSA PRIVATE KEY"
                (r.toolkit.marshal_pkcs1_private_key key)))

  -- From the kubeconfig to the secret's new content.
  build_ca_secret : ClientInterface W → Cluster → NoPlaneControlPlane → Action W Secret
  unfolding no_clusters first_ca_data with_dummy_key
  build_ca_secret c cluster ncp = do
    kubeconfig ←
        or_wrap "fetching kubeconfig for CA extraction: %w" []
          (get_kubeconfig c ncp.status.plane_id)
    cfg ← or_wrap "parsing kubeconfig: %w" [] (lift (r.toolkit.load kubeconfig))
    no_clusters cfg.clusters
    visited ← call Event.range_clusters (r.toolkit.range_clusters cfg.clusters)
    with_dummy_key cluster (first_ca_data visited)

  -- The type of a secret cannot be changed, so a secret of another type is deleted first.
  replace_ca_secret : Secret → Secret → Action W (Unit {0})
  replace_ca_secret existing secret =
      if not (existing.secret_type == secret.secret_type)
      then (do
        or_wrap "deleting CA secret with wrong type: %w" [] (delete_secret r existing)
        create_secret r secret)
      else update_secret r (refreshed existing secret)

  -- A failed second read other than "not found" leaves `existing` as the first read left it.
  put_ca_secret : Secret → Secret → Caught Secret → Action W (Unit {0})
  unfolding replace_ca_secret
  put_ca_secret existing secret (returned found) = replace_ca_secret found secret
  put_ca_secret existing secret (raised e) =
      if r.toolkit.is_not_found e then create_secret r secret else replace_ca_secret existing secret

  regenerate : ClientInterface W → Cluster → NoPlaneControlPlane → Secret → Action W (Unit {0})
  unfolding build_ca_secret put_ca_secret
  regenerate c cluster ncp existing = do
    secret ← build_ca_secret c cluster ncp
    found ← attempt (get_secret r (ca_key cluster))
    put_ca_secret existing secret found

  after_first_read :
      ClientInterface W → Cluster → NoPlaneControlPlane → Caught Secret → Action W (Unit {0})
  unfolding regenerate
  after_first_read c cluster ncp (returned existing) =
      if not (entry "tls.key" existing.entries == "")
      then pure tt
      else regenerate c cluster ncp existing
  after_first_read c cluster ncp (raised e) =
      if not (r.toolkit.is_not_found e)
      then fail (wrap "checking CA secret: %w" [] e)
      else regenerate c cluster ncp zero_secret

  unfoldable pub reconcile_ca_secret :
      ClientInterface W → Cluster → NoPlaneControlPlane → Action W (Unit {0})
  unfolding after_first_read
  reconcile_ca_secret c cluster ncp = do
    existing ← attempt (get_secret r (ca_key cluster))
    after_first_read c cluster ncp existing
