-- ===== src/Reconciler/Normal/Laws.antt =====
-- `reconcileNormal`: the endpoint, and what a plane leads to that cannot be published.
use capi_noplane.Prelude.{
  String, Bool, true, false, not, ◌≡◌, ◌≢◌, ◌⊎◌, ap, count, arith, string_eq, not-false,
}
use capi_noplane.Errors.{ok}
use capi_noplane.Exec.{◌>>=◌, Sys, Outcome}
use capi_noplane.Exec.Gives.{Gives, gives_call_rules}
use capi_noplane.Types.{
  NoPlaneControlPlaneSpec, NoPlaneControlPlane, Cluster, same_endpoint, same_endpoint_iff,
}
use capi_noplane.Plane.{Plane, ClientInterface}
use capi_noplane.Kube.{NoPlaneControlPlaneReconciler, Event}
use capi_noplane.Reconciler.Calls.{Return, requeue}
use capi_noplane.Reconciler.Normal.{desired_endpoint, with_endpoint, sync_endpoint, follow_plane}

-- A call that changes an object of the management cluster.
abbrev pub is_write : Event × Outcome → Bool
is_write (Event.update_control_plane _, _) = true
is_write (Event.update_control_plane_status _, _) = true
is_write (Event.create_secret _, _) = true
is_write (Event.update_secret _, _) = true
is_write (Event.delete_secret _, _) = true
is_write _ = false

module _ {W : Type 0} (r : NoPlaneControlPlaneReconciler W) (c : ClientInterface W)
    (cluster : Cluster) where
  module _
      (keeps : (x y : NoPlaneControlPlane) (w : W)
        → (r.kube.update_control_plane x w).0 ≡ ok y
        → y.spec ≡ x.spec)
      (ncp : NoPlaneControlPlane) (plane : Plane) where
    answered :
        (w : W) (y : NoPlaneControlPlane)
        → (r.kube.update_control_plane (with_endpoint ncp (desired_endpoint plane.endpoint)) w).0
          ≡ ok y
        → y.spec.control_plane_endpoint ≡ desired_endpoint plane.endpoint
    answered w y e =
        ap (λ (z : NoPlaneControlPlaneSpec). z.control_plane_endpoint)
          (keeps (with_endpoint ncp (desired_endpoint plane.endpoint)) y w e)

    in_sync :
        not (same_endpoint ncp.spec.control_plane_endpoint (desired_endpoint plane.endpoint))
          ≡ false
        → ncp.spec.control_plane_endpoint ≡ desired_endpoint plane.endpoint
    in_sync e = (same_endpoint_iff _ _).0 (not-false _ e)

    sync_endpoint-Gives :
        Gives
          (λ x. x.spec.control_plane_endpoint ≡ desired_endpoint plane.endpoint)
          (sync_endpoint r c cluster ncp plane)
    unfolding sync_endpoint
    sync_endpoint-Gives = search (gives_call_rules, answered, in_sync)

  sync_endpoint_same :
      (ncp : NoPlaneControlPlane) (plane : Plane) (s : Sys W Event)
      → ncp.spec.control_plane_endpoint ≡ desired_endpoint plane.endpoint
      → sync_endpoint r c cluster ncp plane s ≡ (ok ncp, s)
  unfolding sync_endpoint ◌>>=◌
  sync_endpoint_same ncp plane s e =
      ground
        (arith, same_endpoint_iff ncp.spec.control_plane_endpoint (desired_endpoint plane.endpoint))

  -- After a successful run the object has the endpoint that is wanted, and a second run calls
  -- nothing, provided that an update answers with the spec that was sent.
  pub sync_endpoint_twice :
      ((x y : NoPlaneControlPlane) (w : W)
        → (r.kube.update_control_plane x w).0 ≡ ok y
        → y.spec ≡ x.spec)
      → (ncp : NoPlaneControlPlane) (plane : Plane) (s : Sys W Event) {ncp' : NoPlaneControlPlane}
      → (sync_endpoint r c cluster ncp plane s).0 ≡ ok ncp'
      → (ncp'.spec.control_plane_endpoint ≡ desired_endpoint plane.endpoint)
        × ((t : Sys W Event) → sync_endpoint r c cluster ncp' plane t ≡ (ok ncp', t))
  sync_endpoint_twice keeps ncp plane s {ncp'} h =
      let e = (sync_endpoint-Gives keeps ncp plane).at s ncp' h in
      (e, λ t. sync_endpoint_same ncp' plane t e)

  module _ (ncp : NoPlaneControlPlane) (id : String) (plane : Plane) (s : Sys W Event) where
    -- A plane that is not ready, or that runs another version than the spec asks for, is not
    -- published: no object of the management cluster is written, and a result that is not an
    -- error of a call is a delay of 15 or of 30 seconds.
    pub follow_plane_unpublished :
        (plane.status ≢ "ready") ⊎ (plane.kubernetes_version ≢ ncp.spec.version)
        → (count is_write (follow_plane r c cluster ncp id plane s).1.trace
            ≡ count is_write s.trace)
          × ((v : Return)
              → (follow_plane r c cluster ncp id plane s).0 ≡ ok v
              → (v ≡ requeue 15) ⊎ (v ≡ requeue 30))
    unfolding follow_plane ◌>>=◌
    follow_plane_unpublished h = ground (
      arith,
      string_eq.beq_iff plane.status "ready",
      string_eq.beq_iff plane.kubernetes_version ncp.spec.version,
    )
