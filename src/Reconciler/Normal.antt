-- ===== src/Reconciler/Normal.antt =====
-- `reconcileNormal`
pub mod Laws
pub mod Brownfield
pub mod Ready
pub mod Schedule
pub mod Emits
use capi_noplane.Prelude.{String, true, [], not, ◌==◌, string_eq, if◌then◌else◌}
use capi_noplane.Prelude.Int.{int32}
use capi_noplane.Exec.{or_wrap, pure, ◌>>=◌, ◌>>◌}
use capi_noplane.Types.{ApiEndpoint, same_endpoint, NoPlaneControlPlane, Cluster}
use capi_noplane.Plane.{Endpoint, Plane, ClientInterface}
use capi_noplane.Kube.{NoPlaneControlPlaneReconciler}
use capi_noplane.Reconciler.Calls.{
  Action, Return, requeue, returning, update, status_update, get_plane, update_plane,
}
use capi_noplane.Reconciler.PlaneId.{resolve_plane_id}
use capi_noplane.Reconciler.Secrets.{reconcile_kubeconfig}
use capi_noplane.Reconciler.CaSecret.{reconcile_ca_secret}

unfoldable pub desired_endpoint : Endpoint → ApiEndpoint
desired_endpoint e = record { host = e.host; port = int32 e.port }

abbrev pub with_endpoint : NoPlaneControlPlane → ApiEndpoint → NoPlaneControlPlane
with_endpoint ncp e = record ncp { spec = record ncp.spec { control_plane_endpoint = e } }

-- The status that a ready control plane gets.
abbrev pub with_ready_status : NoPlaneControlPlane → String → String → NoPlaneControlPlane
with_ready_status ncp id version = record ncp {
  status = record ncp.status { plane_id = id; ready = true; initialized = true; version = version };
}

module _ {W : Type 0} (r : NoPlaneControlPlaneReconciler W) (c : ClientInterface W)
    (cluster : Cluster) where
  unfoldable pub sync_endpoint : NoPlaneControlPlane → Plane → Action W NoPlaneControlPlane
  unfolding desired_endpoint
  sync_endpoint ncp plane =
      if not (same_endpoint ncp.spec.control_plane_endpoint (desired_endpoint plane.endpoint))
      then or_wrap "updating control plane endpoint: %w" []
          (update r (with_endpoint ncp (desired_endpoint plane.endpoint)))
      else pure ncp

  -- From the endpoint to the status, for a plane that is ready at the wanted version.
  unfoldable pub publish : NoPlaneControlPlane → String → Plane → Action W Return
  unfolding sync_endpoint
  publish ncp plane_id plane = do
    ncp' ← sync_endpoint ncp plane
    reconcile_kubeconfig r c cluster ncp'
    reconcile_ca_secret r c cluster ncp'
    returning 60 (status_update r (with_ready_status ncp' plane_id plane.kubernetes_version))

  unfoldable pub follow_plane : NoPlaneControlPlane → String → Plane → Action W Return
  follow_plane ncp plane_id plane =
      if not (plane.status == "ready")
      then pure (requeue 15)
      else if not (plane.kubernetes_version == ncp.spec.version)
      then (do
        or_wrap "upgrading plane: %w" []
            (update_plane c plane_id (record { kubernetes_version = ncp.spec.version }))
        pure (requeue 30))
      else publish ncp plane_id plane

  unfoldable pub reconcile_normal : NoPlaneControlPlane → Action W Return
  reconcile_normal ncp = do
    resolved ← resolve_plane_id r c ncp
    plane ← or_wrap "getting plane: %w" [] (get_plane c resolved.plane_id)
    follow_plane resolved.ncp resolved.plane_id plane
