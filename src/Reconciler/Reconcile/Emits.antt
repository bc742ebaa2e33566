-- ===== src/Reconciler/Reconcile/Emits.antt =====
-- The calls of `reconcileDelete` and of `Reconcile` on an object that has been read.
use capi_noplane.Prelude.{
  Option, none, some, true, false, not, ◌==◌, ◌≡◌, string_eq, ne_of_beq, not-true, not-false,
}
use capi_noplane.Exec.{Outcome, Caught, returned, raised}
use capi_noplane.Exec.Emits.{Emits, emits_rules, Emits-if}
use capi_noplane.Types.{NoPlaneControlPlane, Cluster}
use capi_noplane.Plane.{ClientInterface}
use capi_noplane.Kube.{NoPlaneControlPlaneReconciler, Event}
use capi_noplane.Reconciler.Policy.{AllowsObject}
use capi_noplane.Reconciler.Secrets.Emits.{get_api_key-Emits}
use capi_noplane.Reconciler.Normal.Emits.{reconcile_normal-Emits}
use capi_noplane.Reconciler.Reconcile.{
  noplane_finalizer, release, after_delete, reconcile_delete, dispatch, reconcile_finalized,
  reconcile_owned, with_owner, with_object,
}

module _ {W : Type 0} (r : NoPlaneControlPlaneReconciler W) (ncp : NoPlaneControlPlane)
    {P : Event × Outcome → Type 0} (a : AllowsObject r ncp P) where
  module _ (held : r.toolkit.contains_finalizer ncp noplane_finalizer ≡ true)
      (doomed : r.toolkit.is_zero ncp.meta.deletion_timestamp ≡ false) where
    release-Emits : Emits P (release r ncp)
    unfolding release
    release-Emits = search (emits_rules, a.remove held doomed)

    after_delete-Emits : (got : Caught (Unit {0})) → Emits P (after_delete r ncp got)
    unfolding after_delete
    after_delete-Emits (returned x) = release-Emits
    after_delete-Emits (raised e) = search (emits_rules, release-Emits)

    may_delete :
        (ncp.status.plane_id == "") ≡ false
        → (o : Outcome) → P (Event.delete_plane ncp.status.plane_id, o)
    may_delete e = a.delete held doomed (ne_of_beq _ _ e)

    reconcile_delete-Emits : (c : ClientInterface W) → Emits P (reconcile_delete r c ncp)
    unfolding reconcile_delete
    reconcile_delete-Emits c = search (emits_rules, may_delete, release-Emits, after_delete-Emits)

  module _ (held : r.toolkit.contains_finalizer ncp noplane_finalizer ≡ true)
      (cluster : Cluster) where
    dispatch-Emits : (c : ClientInterface W) → Emits P (dispatch r c cluster ncp)
    unfolding dispatch
    dispatch-Emits c =
        Emits-if _ _ _ (λ e. reconcile_delete-Emits held (not-true _ e) c)
          (λ e. reconcile_normal-Emits r c cluster ncp (a.normal held (not-false _ e)))

    reconcile_finalized-Emits : Emits P (reconcile_finalized r cluster ncp)
    unfolding reconcile_finalized
    reconcile_finalized-Emits = search (emits_rules, get_api_key-Emits r a.secrets, dispatch-Emits)

  may_add :
      not (r.toolkit.contains_finalizer ncp noplane_finalizer) ≡ true
      → (o : Outcome)
      → P (Event.update_control_plane (r.toolkit.add_finalizer ncp noplane_finalizer), o)
  may_add e = a.add (not-true _ e)

  finalized-Emits :
      (cluster : Cluster)
      → not (r.toolkit.contains_finalizer ncp noplane_finalizer) ≡ false
      → Emits P (reconcile_finalized r cluster ncp)
  finalized-Emits cluster e = reconcile_finalized-Emits (not-false _ e) cluster

  reconcile_owned-Emits : (cluster : Cluster) → Emits P (reconcile_owned r cluster ncp)
  unfolding reconcile_owned
  reconcile_owned-Emits cluster = search (emits_rules, may_add, finalized-Emits) depth 7

  with_owner-Emits : (owner : Option Cluster) → Emits P (with_owner r ncp owner)
  unfolding with_owner
  with_owner-Emits none = search emits_rules
  with_owner-Emits (some cluster) = reconcile_owned-Emits cluster

  pub with_object-Emits : Emits P (with_object r (returned ncp))
  unfolding with_object
  with_object-Emits = search (emits_rules, a.owner, with_owner-Emits)
