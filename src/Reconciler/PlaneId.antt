-- ===== src/Reconciler/PlaneId.antt =====
-- `resolvePlaneID`
pub mod Laws
pub mod Recovery
pub mod Emits
use capi_noplane.Prelude.{String, some, [], not, if◌then◌else◌, ◌==◌, string_eq}
use capi_noplane.Errors.{wrap, is_conflict}
use capi_noplane.Exec.{Caught, returned, raised, or_wrap, attempt, pure, fail, ◌>>=◌}
use capi_noplane.Types.{NoPlaneControlPlane}
use capi_noplane.Plane.{Plane, ClientInterface}
use capi_noplane.Kube.{NoPlaneControlPlaneReconciler}
use capi_noplane.Reconciler.Calls.{Action, status_update, create_plane, get_plane_by_name}

-- The control plane object as it stands in memory afterwards, and the ID.
pub record Resolved : Type 0 where
  pub ncp : NoPlaneControlPlane
  pub plane_id : String

abbrev pub with_plane_id : NoPlaneControlPlane → String → NoPlaneControlPlane
with_plane_id ncp id = record ncp { status = record ncp.status { plane_id = id } }

module _ {W : Type 0} (r : NoPlaneControlPlaneReconciler W) (c : ClientInterface W)
    (ncp : NoPlaneControlPlane) where
  -- Step 3: creation, or adoption by name after a conflict.
  adopt_or_fail : Caught Plane → Action W Plane
  adopt_or_fail (returned plane) = pure plane
  adopt_or_fail (raised e) =
      if not (is_conflict (some e))
      then fail (wrap "creating plane: %w" [] e)
      else or_wrap "looking up plane by name after 409: %w" [] (get_plane_by_name c ncp.meta.name)

  create_or_adopt : Action W Plane
  unfolding adopt_or_fail
  create_or_adopt = do
    created ←
        attempt
          (create_plane c (record { name = ncp.meta.name; kubernetes_version = ncp.spec.version }))
    adopt_or_fail created

  -- The ID goes to the status at once.
  persist : Plane → Action W Resolved
  persist plane = do
    ncp' ←
        or_wrap "persisting planeID to status: %w" [] (status_update r (with_plane_id ncp plane.id))
    pure (record { ncp = ncp'; plane_id = plane.id })

  unfoldable pub resolve_plane_id : Action W Resolved
  unfolding create_or_adopt persist
  resolve_plane_id =
      if not (ncp.spec.plane_id == "")
      then pure (record { ncp = ncp; plane_id = ncp.spec.plane_id })
      else if not (ncp.status.plane_id == "")
      then pure (record { ncp = ncp; plane_id = ncp.status.plane_id })
      else do plane ← create_or_adopt; persist plane
