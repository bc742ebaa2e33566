-- ===== src/Tests/Reconcile.antt =====
-- `Reconcile` and `reconcileDelete` on the small cluster.
use capi_noplane.Prelude.{◌+◌, ◌≡◌, true, refl, some, count, All}
use capi_noplane.Errors.{ok}
use capi_noplane.Exec.{◌>>=◌}
use capi_noplane.Kube.{Event}
use capi_noplane.Fake.{
  fake_interface, fake_delete_plane, fake_create_plane, fake_get_plane, fake_get_kubeconfig,
  new_fake_client,
}
use capi_noplane.Reconciler.Calls.{requeue}
use capi_noplane.Reconciler.Reconcile.{
  noplane_finalizer, reconcile_delete, reconcile, reconcile_finalized, dispatch,
}
use capi_noplane.Reconciler.Reconcile.Laws.{is_update, is_delete, last_event, reconcile_delete_lem}
use capi_noplane.Reconciler.Reconcile.Guards.{
  IsGuarded, IsInitialized, reconcile-IsGuarded, reconcile-IsInitialized,
}
use capi_noplane.Prelude.Int.{int32}
use capi_noplane.Types.{NoPlaneControlPlane, same_endpoint}
use capi_noplane.Reconciler.Secrets.{get_api_key, reconcile_kubeconfig, kubeconfig_secret}
use capi_noplane.Reconciler.CaSecret.{reconcile_ca_secret, ca_secret}
use capi_noplane.Reconciler.PlaneId.{resolve_plane_id}
use capi_noplane.Reconciler.Normal.{follow_plane, publish, reconcile_normal}
use capi_noplane.Tests.World.{
  tools, reconciler, fresh, resolved, doomed, owner, at_start, populated, key,
}

-- The plane exists, is deleted, and the object is released.
reconcile_delete_lem_example :
    let t =
      (reconcile_delete (reconciler (ok doomed) owner) fake_interface doomed populated).1.trace in
    (count is_update t ≡ 0 + 1)
    × (count is_delete t ≡ 0 + 1)
    × (true ≡ true
        → last_event t
          ≡ some (Event.update_control_plane (tools.remove_finalizer doomed noplane_finalizer)))
unfolding fake_interface fake_delete_plane new_fake_client
reconcile_delete_lem_example =
    reconcile_delete_lem (reconciler (ok doomed) owner) fake_interface doomed populated

reconcile-IsGuarded_example :
    let r = reconciler (ok fresh) owner in
    All (IsGuarded r fresh) (reconcile r key at_start).1.trace
reconcile-IsGuarded_example =
    reconcile-IsGuarded (reconciler (ok fresh) owner) key at_start {ncp = fresh} refl tt

abbrev initialized : NoPlaneControlPlane
initialized = record resolved { status = record resolved.status { initialized = true } }

reconcile-IsInitialized_example :
    All IsInitialized (reconcile (reconciler (ok initialized) owner) key populated).1.trace
reconcile-IsInitialized_example =
    reconcile-IsInitialized (reconciler (ok initialized) owner) key populated {ncp = initialized}
      refl refl tt

-- A control plane from nothing to ready.
first_reconcile : (reconcile (reconciler (ok fresh) owner) key at_start).0 ≡ ok (requeue 60)
unfolding reconcile reconcile_finalized get_api_key dispatch reconcile_normal resolve_plane_id
    fake_interface fake_create_plane new_fake_client fake_get_plane follow_plane publish
    same_endpoint reconcile_kubeconfig fake_get_kubeconfig kubeconfig_secret reconcile_ca_secret
    ca_secret int32 ◌>>=◌
first_reconcile = refl
