-- ===== src/Reconciler/Normal/Schedule.antt =====
-- When a plane is looked at again.
use mathlib.Core.List.{head?}
use capi_noplane.Prelude.{
  String, ◌≡◌, ◌≢◌, ◌⊎◌, ◌↔◌, ◌∷◌, Option, some, none, arith, refl, string_eq, if◌then◌else◌, ◌==◌,
}
use capi_noplane.Errors.{ok}
use capi_noplane.Exec.{◌>>=◌, Sys, Outcome, done}
use capi_noplane.Exec.Gives.{Gives, gives_rules}
use capi_noplane.Types.{NoPlaneControlPlane, Cluster}
use capi_noplane.Plane.{Plane, ClientInterface}
use capi_noplane.Kube.{NoPlaneControlPlaneReconciler, Event}
use capi_noplane.Reconciler.Calls.{Return}
use capi_noplane.Reconciler.PlaneId.Laws.{resolve_plane_id_known}
use capi_noplane.Reconciler.PlaneId.{resolve_plane_id}
use capi_noplane.Reconciler.Normal.{publish, follow_plane, reconcile_normal}

abbrev AtSixty : Return → Type 0
AtSixty v = v.requeue_after ≡ 60

-- What a result means for a plane and a version that is wanted: 15 seconds if the plane is not ready, 30
-- if it is ready in another version, which then was asked for by the last call, and 60 if it is ready
-- in this version. With 60 only may there be an error.
abbrev pub IsTimed : String → String → Plane → Return → Option (Event × Outcome) → Type 0
IsTimed version id plane v last =
    ((v.requeue_after ≡ 15) ↔ (plane.status ≢ "ready"))
    × ((v.requeue_after ≡ 30) ↔ ((plane.status ≡ "ready") × (plane.kubernetes_version ≢ version)))
    × ((v.requeue_after ≡ 60) ↔ ((plane.status ≡ "ready") × (plane.kubernetes_version ≡ version)))
    × ((v.requeue_after ≢ 60) → v.error ≡ none)
    × ((v.requeue_after ≡ 30)
        → last ≡ some (Event.update_plane id (record { kubernetes_version = version }), done))

module _ {W : Type 0} (r : NoPlaneControlPlaneReconciler W) (c : ClientInterface W)
    (cluster : Cluster) (ncp : NoPlaneControlPlane) where
  publish_sixty : (id : String) (plane : Plane) → Gives AtSixty (publish r c cluster ncp id plane)
  unfolding publish
  publish_sixty id plane = search gives_rules depth 9

  follow_plane_delay :
      (id : String) (plane : Plane) (s : Sys W Event) (v : Return)
      → (follow_plane r c cluster ncp id plane s).0 ≡ ok v
      → IsTimed ncp.spec.version id plane v
          (head? (follow_plane r c cluster ncp id plane s).1.trace)
  unfolding follow_plane ◌>>=◌
  follow_plane_delay id plane s v h = ground (
    arith,
    (publish_sixty id plane).at s v,
    string_eq.beq_iff plane.status "ready",
    string_eq.beq_iff plane.kubernetes_version ncp.spec.version,
  )

  -- With the ID known and the plane read, what is left is `follow_plane`.
  reconcile_normal_known :
      (id : String) (plane : Plane) (s : Sys W Event)
      → resolve_plane_id r c ncp s ≡ (ok (record { ncp = ncp; plane_id = id }), s)
      → (c.get_plane id s.world).0 ≡ ok plane
      → reconcile_normal r c cluster ncp s
        ≡ follow_plane r c cluster ncp id plane (record {
          world = (c.get_plane id s.world).1;
          trace = (Event.get_plane id, done) ∷ s.trace;
        })
  unfolding reconcile_normal ◌>>=◌
  reconcile_normal_known id plane s e g = rw (e, g) refl

  -- Where the ID stands in the spec or in the status and the API gives its plane, a result asks for 15
  -- seconds exactly if the plane is not ready, for 30 seconds exactly if it is ready in another
  -- version than the spec's, and for 60 seconds exactly if it is ready in that version; only with
  -- 60 seconds may the result also have an error, and before 30 seconds the last call was a
  -- successful request for the version of the spec, for this ID.
  pub reconcile_normal_delay :
      (ncp.spec.plane_id ≢ "") ⊎ (ncp.status.plane_id ≢ "")
      → (s : Sys W Event) {plane : Plane}
      → let id : String =
          if ncp.spec.plane_id == "" then ncp.status.plane_id else ncp.spec.plane_id in
        (c.get_plane id s.world).0 ≡ ok plane
        → (v : Return) → (reconcile_normal r c cluster ncp s).0 ≡ ok v
        → IsTimed ncp.spec.version id plane v (head? (reconcile_normal r c cluster ncp s).1.trace)
  reconcile_normal_delay known s {plane} got v =
      rw (reconcile_normal_known _ plane s (resolve_plane_id_known r c ncp s known) got)
        (follow_plane_delay _ plane _ v)
