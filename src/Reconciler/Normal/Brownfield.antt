-- ===== src/Reconciler/Normal/Brownfield.antt =====
-- Adoption of a plane that the user names in spec.planeID: the kubeconfig is asked for by
-- status.planeID, which is empty until the end of the first successful reconciliation.
use mathlib.Core.Path.{subst}
use capi_noplane.Reconciler.Secrets.Laws.{reconcile_kubeconfig_stored}
use capi_noplane.Prelude.{String, ◌≡◌, ◌≢◌, ◌⊎◌, inl, arith, string_eq, ap, ◌∙◌, sym, refl}
use capi_noplane.Errors.{ok}
use capi_noplane.Exec.{◌>>=◌, Sys}
use capi_noplane.Exec.Gives.{Gives, gives_call_rules, Gives-bind, Gives-bind-Gives}
use capi_noplane.Types.{Bytes, NoPlaneControlPlane, NoPlaneControlPlaneStatus, Cluster}
use capi_noplane.Plane.{Plane, ClientInterface}
use capi_noplane.Kube.{NoPlaneControlPlaneReconciler, Event}
use capi_noplane.Reconciler.Calls.{Return, requeue}
use capi_noplane.Reconciler.PlaneId.Laws.{resolve_plane_id_known}
use capi_noplane.Reconciler.Secrets.{reconcile_kubeconfig}
use capi_noplane.Reconciler.Normal.{
  desired_endpoint, with_endpoint, sync_endpoint, publish, follow_plane, reconcile_normal,
}

-- Put off.
abbrev pub IsDelayed : Return → Type 0
IsDelayed v = (v ≡ requeue 15) ⊎ (v ≡ requeue 30)

module _ {W : Type 0} (r : NoPlaneControlPlaneReconciler W) (c : ClientInterface W)
    (cluster : Cluster) (refuses : (w : W) (k : Bytes) → (c.get_kubeconfig "" w).0 ≢ ok k) where
  kubeconfig_refused :
      (ncp : NoPlaneControlPlane)
      → ncp.status.plane_id ≡ ""
      → Gives (λ _. ⊥) (reconcile_kubeconfig r c cluster ncp)
  kubeconfig_refused ncp e = record {
    at = λ s _ h.
        let (k, got, _) = reconcile_kubeconfig_stored r c cluster ncp s h in
        refuses s.world k (subst (λ id. (c.get_kubeconfig id s.world).0 ≡ ok k) e got);
  }

  module _ (ncp : NoPlaneControlPlane) (absent : ncp.status.plane_id ≡ "")
      (stored : (x y : NoPlaneControlPlane) (w : W)
        → x.meta ≡ ncp.meta
        → (r.kube.update_control_plane x w).0 ≡ ok y
        → y.status ≡ ncp.status) where
    answered :
        (plane : Plane) (w : W) (y : NoPlaneControlPlane)
        → (r.kube.update_control_plane (with_endpoint ncp (desired_endpoint plane.endpoint)) w).0
          ≡ ok y
        → y.status.plane_id ≡ ""
    answered plane w y e =
        ap (λ (z : NoPlaneControlPlaneStatus). z.plane_id)
          (stored (with_endpoint ncp (desired_endpoint plane.endpoint)) y w refl e)
        ∙ absent

    sync_endpoint-Gives :
        (plane : Plane) → Gives (λ x. x.status.plane_id ≡ "") (sync_endpoint r c cluster ncp plane)
    unfolding sync_endpoint
    sync_endpoint-Gives plane = search (gives_call_rules, answered)

    publish_refused :
        (id : String) (plane : Plane) → Gives (λ _. ⊥) (publish r c cluster ncp id plane)
    unfolding publish
    publish_refused id plane =
        Gives-bind-Gives (λ x. x.status.plane_id ≡ "") _ _ (sync_endpoint-Gives plane)
          λ x e. Gives-bind-Gives (λ _. ⊥) _ _ (kubeconfig_refused x e) λ _ h. absurd h

    follow_plane_refused :
        (id : String) (plane : Plane) → Gives IsDelayed (follow_plane r c cluster ncp id plane)
    unfolding follow_plane ◌>>=◌
    follow_plane_refused id plane = record {
      at = λ s v h. ground (arith, (publish_refused id plane).at s v);
    }

  -- Where the ID stands in the spec only, where the API refuses a kubeconfig for the empty ID, and
  -- where an update of the object, with the metadata and so at the version that was read, answers
  -- with the status that was read, whatever status is sent: then a reconciliation never gets as far
  -- as the ready status. Unless it fails or panics, it is put off by 15 or by 30 seconds.
  pub reconcile_normal_adoption :
      (ncp : NoPlaneControlPlane)
      → ncp.spec.plane_id ≢ ""
      → ncp.status.plane_id ≡ ""
      → ((x y : NoPlaneControlPlane) (w : W)
          → x.meta ≡ ncp.meta
          → (r.kube.update_control_plane x w).0 ≡ ok y
          → y.status ≡ ncp.status)
      → (s : Sys W Event) (v : Return) → (reconcile_normal r c cluster ncp s).0 ≡ ok v
      → (v ≡ requeue 15) ⊎ (v ≡ requeue 30)
  unfolding reconcile_normal
  reconcile_normal_adoption ncp e absent stored s v h =
      (Gives-bind-Gives (λ x. x.ncp ≡ ncp) _ _
          (record { at = λ t x k. ground (arith, resolve_plane_id_known r c ncp t (inl e)) })
          (λ x k. Gives-bind _ _ λ plane.
            subst (λ n. Gives IsDelayed (follow_plane r c cluster n x.plane_id plane)) (sym k)
              (follow_plane_refused ncp absent stored x.plane_id plane))).at
        s v h
