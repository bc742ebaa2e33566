-- ===== src/Reconciler/Secrets/Emits.antt =====
-- The calls of `getAPIKey` and `reconcileKubeconfig`.
use capi_noplane.Prelude.{Option, none, some}
use capi_noplane.Exec.{Outcome, Caught, returned, raised}
use capi_noplane.Exec.Emits.{Emits, emits_rules}
use capi_noplane.Types.{Bytes, NoPlaneControlPlane, Cluster, Secret, SecretReference}
use capi_noplane.Plane.{ClientInterface}
use capi_noplane.Kube.{NoPlaneControlPlaneReconciler, Event}
use capi_noplane.Reconciler.Policy.{AllowsSecrets}
use capi_noplane.Reconciler.Secrets.{put_kubeconfig, reconcile_kubeconfig, get_api_key, api_key_of}

module _ {W : Type 0} (r : NoPlaneControlPlaneReconciler W) {P : Event × Outcome → Type 0}
    (a : AllowsSecrets P) where
  put_kubeconfig-Emits : (x : Secret) (got : Caught Secret) → Emits P (put_kubeconfig r x got)
  unfolding put_kubeconfig
  put_kubeconfig-Emits x (returned e) = search (emits_rules, a.update_secret)
  put_kubeconfig-Emits x (raised e) = search (emits_rules, a.create_secret)

  pub reconcile_kubeconfig-Emits :
      (c : ClientInterface W) (cluster : Cluster) (ncp : NoPlaneControlPlane)
      → Emits P (reconcile_kubeconfig r c cluster ncp)
  unfolding reconcile_kubeconfig
  reconcile_kubeconfig-Emits c cluster ncp =
      search (emits_rules, a.get_kubeconfig, a.get_secret, put_kubeconfig-Emits)

  api_key_of-Emits :
      (ref : SecretReference) (found : Option Bytes) → Emits P (api_key_of {W = W} ref found)
  unfolding api_key_of
  api_key_of-Emits ref none = search emits_rules
  api_key_of-Emits ref (some key) = search emits_rules

  pub get_api_key-Emits : (ref : SecretReference) → Emits P (get_api_key r ref)
  unfolding get_api_key
  get_api_key-Emits ref = search (emits_rules, a.get_secret, api_key_of-Emits)
