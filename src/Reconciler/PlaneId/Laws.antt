-- ===== src/Reconciler/PlaneId/Laws.antt =====
-- `resolvePlaneID`: which calls it makes, and where the ID that it returns stands.
use capi_noplane.Prelude.{
  String, Bool, true, false, ◌≡◌, ◌≢◌, ◌⊎◌, List, ◌∷◌, Option, some, arith, string_eq, ◌==◌,
  if◌then◌else◌,
}
use mathlib.Core.List.{head?}
use capi_noplane.Errors.{ok, is_conflict, conflict_error}
use capi_noplane.Exec.{◌>>=◌, Sys, Outcome, done, failed}
use capi_noplane.Types.{NoPlaneControlPlane}
use capi_noplane.Plane.{ClientInterface}
use capi_noplane.Kube.{NoPlaneControlPlaneReconciler, Event}
use capi_noplane.Reconciler.PlaneId.{resolve_plane_id, Resolved}

-- The call wrote the status of this object, with this ID in it and all else of the object as it is.
abbrev pub StoresId : NoPlaneControlPlane → String → Option (Event × Outcome) → Type 0
StoresId ncp id (some (Event.update_control_plane_status x, o)) =
    (x.status.plane_id ≡ id)
    × (x.meta ≡ ncp.meta)
    × (x.spec ≡ ncp.spec)
    × (x.status.ready ≡ ncp.status.ready)
    × (x.status.initialized ≡ ncp.status.initialized)
    × (o ≡ done)
StoresId ncp id _ = ⊥

-- A creation that the API refused with a ConflictError.
abbrev pub conflicted : Option (Event × Outcome) → Bool
conflicted (some (Event.create_plane _, failed (conflict_error _))) = true
conflicted _ = false

module _ {W : Type 0} (r : NoPlaneControlPlaneReconciler W) (c : ClientInterface W)
    (ncp : NoPlaneControlPlane) (s : Sys W Event) where
  -- A control plane whose ID stands in the spec or in the status is resolved with no call at all:
  -- the world and the trace stay, and the ID is the spec's if the spec has one.
  pub resolve_plane_id_known :
      (ncp.spec.plane_id ≢ "") ⊎ (ncp.status.plane_id ≢ "")
      → resolve_plane_id r c ncp s ≡ (
        ok (record {
          ncp = ncp;
          plane_id = if ncp.spec.plane_id == "" then ncp.status.plane_id else ncp.spec.plane_id;
        }),
        s,
      )
  unfolding resolve_plane_id ◌>>=◌
  resolve_plane_id_known h =
      ground
        (arith, string_eq.beq_iff ncp.spec.plane_id "", string_eq.beq_iff ncp.status.plane_id "")

  -- An ID that is returned stands in the spec, or in the status, or the last call was an update of the
  -- object's status that succeeded: it wrote this ID as the plane ID of the status, and left the
  -- metadata, the spec and the flags of the status.
  pub resolve_plane_id_persisted :
      {x : Resolved}
      → (resolve_plane_id r c ncp s).0 ≡ ok x
      → ((x.plane_id ≡ ncp.spec.plane_id) × (ncp.spec.plane_id ≢ ""))
        ⊎ ((x.plane_id ≡ ncp.status.plane_id) × (ncp.status.plane_id ≢ ""))
        ⊎ StoresId ncp x.plane_id (head? (resolve_plane_id r c ncp s).1.trace)
  unfolding resolve_plane_id is_conflict ◌>>=◌
  resolve_plane_id_persisted h =
      ground
        (arith, string_eq.beq_iff ncp.spec.plane_id "", string_eq.beq_iff ncp.status.plane_id "")

  -- The lookup by name is made after a conflict only: if it is the last call that the run made,
  -- the call before it was a creation that was refused with a ConflictError.
  pub resolve_plane_id_lookup :
      {name : String} {o : Outcome} {t : List (Event × Outcome)}
      → (resolve_plane_id r c ncp s).1.trace ≡ (Event.get_plane_by_name name, o) ∷ t
      → s.trace ≢ (Event.get_plane_by_name name, o) ∷ t
      → conflicted (head? t) ≡ true
  unfolding resolve_plane_id is_conflict ◌>>=◌
  resolve_plane_id_lookup h g = ground arith
