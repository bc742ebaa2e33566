-- ===== src/Reconciler/PlaneId/Emits.antt =====
-- The calls of `resolvePlaneID`.
use capi_noplane.Prelude.{◌≡◌, string_eq, eq_of_not_beq, not, false, ◌==◌}
use capi_noplane.Exec.{Outcome, Caught, returned, raised}
use capi_noplane.Exec.Emits.{Emits, emits_rules}
use capi_noplane.Types.{NoPlaneControlPlane}
use capi_noplane.Plane.{Plane, ClientInterface}
use capi_noplane.Kube.{NoPlaneControlPlaneReconciler, Event}
use capi_noplane.Reconciler.Policy.{AllowsNormal}
use capi_noplane.Reconciler.PlaneId.{adopt_or_fail, create_or_adopt, persist, resolve_plane_id}

module _ {W : Type 0} (r : NoPlaneControlPlaneReconciler W) (c : ClientInterface W)
    (ncp : NoPlaneControlPlane) {P : Event × Outcome → Type 0} (a : AllowsNormal ncp P) where
  adopt_or_fail-Emits : (got : Caught Plane) → Emits P (adopt_or_fail r c ncp got)
  unfolding adopt_or_fail
  adopt_or_fail-Emits (returned plane) = search emits_rules
  adopt_or_fail-Emits (raised e) = search (emits_rules, a.secrets.get_plane_by_name)

  create_or_adopt-Emits :
      not (ncp.spec.plane_id == "") ≡ false
      → not (ncp.status.plane_id == "") ≡ false
      → Emits P (create_or_adopt r c ncp)
  unfolding create_or_adopt
  create_or_adopt-Emits p q =
      search
        (emits_rules, a.create (eq_of_not_beq _ _ p) (eq_of_not_beq _ _ q), adopt_or_fail-Emits)

  persist-Emits : (plane : Plane) → Emits P (persist r c ncp plane)
  unfolding persist
  persist-Emits plane = search (emits_rules, a.persist)

  pub resolve_plane_id-Emits : Emits P (resolve_plane_id r c ncp)
  unfolding resolve_plane_id
  resolve_plane_id-Emits = search (emits_rules, create_or_adopt-Emits, persist-Emits) depth 8
