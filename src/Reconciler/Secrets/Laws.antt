-- ===== src/Reconciler/Secrets/Laws.antt =====
-- `getAPIKey` and `reconcileKubeconfig`: what is stored, and when nothing is.
use capi_noplane.Prelude.{String, ◌≡◌, ◌↔◌, [], ◌∷◌, ◌<>◌, Option, some, arith, lookup, string_eq}
use mathlib.Core.List.{head?}
use capi_noplane.Errors.{Result, ok}
use capi_noplane.Exec.{◌>>=◌, Sys, Outcome, outcome, done}
use capi_noplane.Types.{
  Bytes, NamespacedName, SecretReference, NoPlaneControlPlane, Cluster, Secret,
}
use capi_noplane.Plane.{ClientInterface}
use capi_noplane.Kube.{NoPlaneControlPlaneReconciler, Event}
use capi_noplane.Reconciler.Secrets.{get_api_key, kubeconfig_secret, reconcile_kubeconfig}

-- The data and the labels of the cluster's kubeconfig secret.
abbrev pub HoldsKubeconfig :
    {W : Type 0} → NoPlaneControlPlaneReconciler W → Cluster → Bytes → Secret → Type 0
HoldsKubeconfig r cluster kubeconfig x =
    (x.entries ≡ ("value", kubeconfig) ∷ [])
    × (x.meta.labels ≡ (r.toolkit.cluster_name_label, cluster.meta.name) ∷ [])

-- The call stores the kubeconfig, without an error: it creates the cluster's kubeconfig secret, or it
-- updates a secret that was read.
abbrev pub StoresKubeconfig :
    {W : Type 0}
    → NoPlaneControlPlaneReconciler W
    → Cluster
    → Bytes
    → Option (Event × Outcome)
    → Type 0
StoresKubeconfig r cluster kubeconfig (some (Event.create_secret x, o)) =
    HoldsKubeconfig r cluster kubeconfig x
    × (x.meta.name ≡ cluster.meta.name <> "-kubeconfig")
    × (x.meta.namespace ≡ cluster.meta.namespace)
    × (x.meta.owner_references ≡ r.toolkit.new_controller_ref cluster "Cluster" ∷ [])
    × (o ≡ done)
StoresKubeconfig r cluster kubeconfig (some (Event.update_secret x, o)) =
    HoldsKubeconfig r cluster kubeconfig x × (o ≡ done)
StoresKubeconfig r cluster kubeconfig _ = ⊥

-- The read gave a secret with this API key.
abbrev pub HoldsKey : Result Secret → String → Type 0
HoldsKey (ok x) key = lookup "apiKey" x.entries ≡ some key
HoldsKey _ key = ⊥

module _ {W : Type 0} (r : NoPlaneControlPlaneReconciler W) where
  -- An API key is returned exactly when the referenced secret can be read and has this key under
  -- "apiKey". Whatever happens, that read is the only call.
  pub get_api_key_lem :
      (ref : SecretReference) (s : Sys W Event) (key : String)
      → let name : NamespacedName = record { namespace = ref.namespace; name = ref.name } in
        (((get_api_key r ref s).0 ≡ ok key) ↔ HoldsKey (r.kube.get_secret name s.world).0 key)
        × ((get_api_key r ref s).1.trace
            ≡ (Event.get_secret name, outcome (r.kube.get_secret name s.world).0) ∷ s.trace)
  unfolding get_api_key ◌>>=◌
  get_api_key_lem ref s key = ground arith

  module _ (c : ClientInterface W) (cluster : Cluster) (ncp : NoPlaneControlPlane)
      (s : Sys W Event) where
    -- On success the API gave a kubeconfig for the ID in the status, and the last call has stored it:
    -- it has created a secret with the name of the cluster and "-kubeconfig", in the cluster's
    -- namespace and with its owner reference, or it has updated a secret. Either way the data of the
    -- secret are exactly that kubeconfig under "value", and its label names the cluster.
    pub reconcile_kubeconfig_stored :
        (reconcile_kubeconfig r c cluster ncp s).0 ≡ ok tt
        → (kubeconfig : Bytes) × ((c.get_kubeconfig ncp.status.plane_id s.world).0 ≡ ok kubeconfig)
          × StoresKubeconfig r cluster kubeconfig
              (head? (reconcile_kubeconfig r c cluster ncp s).1.trace)
    unfolding reconcile_kubeconfig kubeconfig_secret ◌>>=◌
    reconcile_kubeconfig_stored h = ground arith
