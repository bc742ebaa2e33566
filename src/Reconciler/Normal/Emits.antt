-- ===== src/Reconciler/Normal/Emits.antt =====
-- The calls of `reconcileNormal`.
use capi_noplane.Prelude.{String}
use capi_noplane.Exec.{Outcome}
use capi_noplane.Exec.Emits.{Emits, emits_rules, Emits-bind}
use capi_noplane.Types.{NoPlaneControlPlane, Cluster}
use capi_noplane.Plane.{Plane, ClientInterface}
use capi_noplane.Kube.{NoPlaneControlPlaneReconciler, Event}
use capi_noplane.Reconciler.Policy.{AllowsNormal}
use capi_noplane.Reconciler.PlaneId.Emits.{resolve_plane_id-Emits}
use capi_noplane.Reconciler.Secrets.Emits.{reconcile_kubeconfig-Emits}
use capi_noplane.Reconciler.CaSecret.Emits.{reconcile_ca_secret-Emits}
use capi_noplane.Reconciler.Normal.{sync_endpoint, publish, follow_plane, reconcile_normal}

module _ {W : Type 0} (r : NoPlaneControlPlaneReconciler W) (c : ClientInterface W)
    (cluster : Cluster) (ncp : NoPlaneControlPlane) {P : Event × Outcome → Type 0}
    (a : AllowsNormal ncp P) where
  sync_endpoint-Emits :
      (x : NoPlaneControlPlane) (plane : Plane) → Emits P (sync_endpoint r c cluster x plane)
  unfolding sync_endpoint
  sync_endpoint-Emits x plane = search (emits_rules, a.endpoint)

  publish-Emits :
      (x : NoPlaneControlPlane) (id : String) (plane : Plane)
      → Emits P (publish r c cluster x id plane)
  unfolding publish
  publish-Emits x id plane =
      search
        (
          emits_rules,
          a.ready,
          sync_endpoint-Emits,
          reconcile_kubeconfig-Emits r a.secrets,
          reconcile_ca_secret-Emits r a.secrets,
        )
        depth 9

  follow_plane-Emits :
      (x : NoPlaneControlPlane) (id : String) (plane : Plane)
      → Emits P (follow_plane r c cluster x id plane)
  unfolding follow_plane
  follow_plane-Emits x id plane = search (emits_rules, a.upgrade, publish-Emits) depth 7

  pub reconcile_normal-Emits : Emits P (reconcile_normal r c cluster ncp)
  unfolding reconcile_normal
  reconcile_normal-Emits = Emits-bind _ _ (resolve_plane_id-Emits r c ncp a) λ x.
      Emits-bind _ _ (search (emits_rules, a.secrets.get_plane))
        λ plane. follow_plane-Emits x.ncp x.plane_id plane
