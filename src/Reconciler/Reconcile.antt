-- ===== src/Reconciler/Reconcile.antt =====
-- `reconcileDelete` and `Reconcile`
pub mod Laws
pub mod Guards
pub mod Emits
use capi_noplane.Prelude.{String, Option, none, some, [], not, ◌==◌, string_eq, if◌then◌else◌}
use capi_noplane.Errors.{Result, ok, err, panic, wrap, is_not_found}
use capi_noplane.Exec.{Caught, returned, raised, or_wrap, attempt, pure, fail, lift, ◌>>=◌}
use capi_noplane.Types.{NamespacedName, NoPlaneControlPlane, Cluster}
use capi_noplane.Plane.{ClientInterface}
use capi_noplane.Kube.{NoPlaneControlPlaneReconciler}
use capi_noplane.Reconciler.Calls.{
  Action, Return, requeue, returning, get_control_plane, update, get_owner_cluster, delete_plane,
}
use capi_noplane.Reconciler.Secrets.{get_api_key}
use capi_noplane.Reconciler.Normal.{reconcile_normal}

abbrev pub noplane_finalizer : String
noplane_finalizer = "controlplane.cluster.x-k8s.io/finalizer"

abbrev pub returned_value : Result Return → Result Return
returned_value (ok v) = ok v
returned_value (err e) = ok (record { requeue_after = 0; error = some e })
returned_value panic = panic

module _ {W : Type 0} (r : NoPlaneControlPlaneReconciler W) where
  release : NoPlaneControlPlane → Action W Return
  release ncp = returning 0 (update r (r.toolkit.remove_finalizer ncp noplane_finalizer))

  after_delete : NoPlaneControlPlane → Caught (Unit {0}) → Action W Return
  unfolding release
  after_delete ncp (returned _) = release ncp
  after_delete ncp (raised e) =
      if not (is_not_found (some e)) then fail (wrap "deleting plane: %w" [] e) else release ncp

  unfoldable pub reconcile_delete : ClientInterface W → NoPlaneControlPlane → Action W Return
  unfolding release after_delete
  reconcile_delete c ncp =
      if ncp.status.plane_id == ""
      then release ncp
      else do deleted ← attempt (delete_plane c ncp.status.plane_id); after_delete ncp deleted

  unfoldable pub dispatch : ClientInterface W → Cluster → NoPlaneControlPlane → Action W Return
  dispatch c cluster ncp =
      if not (r.toolkit.is_zero ncp.meta.deletion_timestamp)
      then reconcile_delete c ncp
      else reconcile_normal r c cluster ncp

  -- With the finalizer in place: the credentials, the client, and the branch on deletion.
  unfoldable pub reconcile_finalized : Cluster → NoPlaneControlPlane → Action W Return
  reconcile_finalized cluster ncp = do
    api_key ← or_wrap "fetching API key: %w" [] (get_api_key r ncp.spec.credentials_secret_ref)
    api_client ← or_wrap "creating API client: %w" [] (lift (r.client_factory api_key))
    dispatch api_client cluster ncp

  unfoldable pub reconcile_owned : Cluster → NoPlaneControlPlane → Action W Return
  reconcile_owned cluster ncp =
      if r.toolkit.is_paused cluster ncp
      then pure (requeue 0)
      else if not (r.toolkit.contains_finalizer ncp noplane_finalizer)
      then returning 0 (update r (r.toolkit.add_finalizer ncp noplane_finalizer))
      else reconcile_finalized cluster ncp

  with_owner : NoPlaneControlPlane → Option Cluster → Action W Return
  unfolding reconcile_owned
  with_owner ncp none = pure (requeue 0)
  with_owner ncp (some cluster) = reconcile_owned cluster ncp

  pub with_object : Caught NoPlaneControlPlane → Action W Return
  unfolding with_owner
  with_object (raised e) = pure (record { requeue_after = 0; error = r.toolkit.ignore_not_found e })
  with_object (returned ncp) = do owner ← get_owner_cluster r ncp.meta; with_owner ncp owner

  -- The body, in which `err e` is `return ctrl.Result{}, e`.
  unfoldable pub reconcile_body : NamespacedName → Action W Return
  unfolding with_object
  reconcile_body req = do got ← attempt (get_control_plane r req); with_object got

  unfoldable pub reconcile : NamespacedName → Action W Return
  unfolding reconcile_body
  reconcile req s = let (v, s') = reconcile_body req s in (returned_value v, s')
