-- ===== src/Reconciler/CaSecret/Emits.antt =====
-- The calls of `reconcileCASecret`.
use capi_noplane.Prelude.{[], ◌∷◌, Dict, String}
use capi_noplane.Exec.{Outcome, Caught, returned, raised}
use capi_noplane.Exec.Emits.{Emits, emits_rules}
use capi_noplane.Types.{Bytes, NoPlaneControlPlane, Cluster, Secret}
use capi_noplane.Plane.{ClientInterface}
use capi_noplane.Kube.{NoPlaneControlPlaneReconciler, ConfigCluster, Event}
use capi_noplane.Reconciler.Policy.{AllowsSecrets}
use capi_noplane.Reconciler.CaSecret.{
  no_clusters, with_dummy_key, build_ca_secret, replace_ca_secret, put_ca_secret, regenerate,
  after_first_read, reconcile_ca_secret,
}

module _ {W : Type 0} (r : NoPlaneControlPlaneReconciler W) {P : Event × Outcome → Type 0}
    (a : AllowsSecrets P) where
  no_clusters-Emits : (m : Dict String ConfigCluster) → Emits P (no_clusters r m)
  unfolding no_clusters
  no_clusters-Emits [] = search emits_rules
  no_clusters-Emits (x ∷ rest) = search emits_rules

  with_dummy_key-Emits :
      (cluster : Cluster) (ca_data : Bytes) → Emits P (with_dummy_key r cluster ca_data)
  unfolding with_dummy_key
  with_dummy_key-Emits cluster ca_data = search (emits_rules, a.generate_key)

  replace_ca_secret-Emits : (x y : Secret) → Emits P (replace_ca_secret r x y)
  unfolding replace_ca_secret
  replace_ca_secret-Emits x y =
      search (emits_rules, a.delete_secret, a.create_secret, a.update_secret)

  put_ca_secret-Emits : (x y : Secret) (got : Caught Secret) → Emits P (put_ca_secret r x y got)
  unfolding put_ca_secret
  put_ca_secret-Emits x y (returned z) = replace_ca_secret-Emits z y
  put_ca_secret-Emits x y (raised e) =
      search (emits_rules, a.create_secret, replace_ca_secret-Emits)

  module _ (c : ClientInterface W) (cluster : Cluster) (ncp : NoPlaneControlPlane) where
    build_ca_secret-Emits : Emits P (build_ca_secret r c cluster ncp)
    unfolding build_ca_secret
    build_ca_secret-Emits =
        search
          (emits_rules, a.get_kubeconfig, a.range_clusters, no_clusters-Emits, with_dummy_key-Emits)
          depth 9

    regenerate-Emits : (x : Secret) → Emits P (regenerate r c cluster ncp x)
    unfolding regenerate
    regenerate-Emits x =
        search (emits_rules, a.get_secret, build_ca_secret-Emits, put_ca_secret-Emits)

    after_first_read-Emits : (got : Caught Secret) → Emits P (after_first_read r c cluster ncp got)
    unfolding after_first_read
    after_first_read-Emits (returned x) = search (emits_rules, regenerate-Emits)
    after_first_read-Emits (raised e) = search (emits_rules, regenerate-Emits)

    pub reconcile_ca_secret-Emits : Emits P (reconcile_ca_secret r c cluster ncp)
    unfolding reconcile_ca_secret
    reconcile_ca_secret-Emits = search (emits_rules, a.get_secret, after_first_read-Emits)
