-- ===== src/Reconciler/Reconcile/Laws.antt =====
-- `Reconcile` and `reconcileDelete` as a whole: when nothing is done, and when the finalizer goes.
use capi_noplane.Prelude.{
  ◌+◌, Bool, true, false, ◌≡◌, ◌≢◌, Option, none, some, List, [], ◌∷◌, count, arith, ◌==◌,
  string_eq, if◌then◌else◌, ◌||◌,
}
use capi_noplane.Errors.{Error, Result, ok, err, not_found_error, is_not_found}
use capi_noplane.Exec.{◌>>=◌, Sys, Outcome, outcome, done, returned}
use capi_noplane.Types.{NamespacedName, NoPlaneControlPlane, Cluster}
use capi_noplane.Plane.{ClientInterface}
use capi_noplane.Kube.{NoPlaneControlPlaneReconciler, Event}
use capi_noplane.Reconciler.Calls.{requeue}
use capi_noplane.Reconciler.Reconcile.{noplane_finalizer, reconcile_delete, reconcile, with_object}

-- The state after the first read.
abbrev pub after_read :
    {W : Type 0} → NoPlaneControlPlaneReconciler W → NamespacedName → Sys W Event → Sys W Event
after_read r req s = record {
  world = (r.kube.get_control_plane req s.world).1;
  trace = (Event.get_control_plane req, outcome (r.kube.get_control_plane req s.world).0) ∷ s.trace;
}

-- The delete call left no plane behind: it succeeded, or the API answered with a NotFoundError.
abbrev pub is_gone : Result (Unit {0}) → Bool
is_gone (ok x) = true
is_gone (err (not_found_error id)) = true
is_gone _ = false

abbrev pub last_event : List (Event × Outcome) → Option Event
last_event [] = none
last_event ((ev, o) ∷ t) = some ev

abbrev pub is_update : Event × Outcome → Bool
is_update (Event.update_control_plane _, _) = true
is_update _ = false

abbrev pub is_delete : Event × Outcome → Bool
is_delete (Event.delete_plane _, _) = true
is_delete _ = false

module _ {W : Type 0} (r : NoPlaneControlPlaneReconciler W) (ncp : NoPlaneControlPlane) where
  -- No owner yet, or paused.
  abbrev pub is_idle : Option Cluster → Bool
  is_idle none = true
  is_idle (some cluster) = r.toolkit.is_paused cluster ncp

module _ {W : Type 0} (r : NoPlaneControlPlaneReconciler W) where
  module _ (c : ClientInterface W) (ncp : NoPlaneControlPlane) (s : Sys W Event) where
    -- The control plane object is updated, once, exactly if the status has no plane ID or the plane
    -- is gone, which means that its deletion succeeded or was answered by a NotFoundError; that
    -- update takes the finalizer off, and it is the last call. The plane is asked to be deleted,
    -- once, exactly if the status has an ID.
    pub reconcile_delete_lem :
        let id = ncp.status.plane_id in
        let deleted = (c.delete_plane id s.world).0 in
        let t = (reconcile_delete r c ncp s).1.trace in
        (count is_update t
          ≡ count is_update s.trace + (if id == "" || is_gone deleted then 1 else 0))
        × (count is_delete t ≡ count is_delete s.trace + (if id == "" then 0 else 1))
        × ((id == "" || is_gone deleted) ≡ true
            → last_event t
              ≡ some
                  (Event.update_control_plane (r.toolkit.remove_finalizer ncp noplane_finalizer)))
    unfolding reconcile_delete is_not_found ◌>>=◌
    reconcile_delete_lem = ground arith

  module _ (req : NamespacedName) (s : Sys W Event) where
    -- The body's error is returned as a value.
    pub reconcile-ne-err : (e : Error) → (reconcile r req s).0 ≢ err e
    unfolding reconcile
    reconcile-ne-err e = ground arith

    -- An object that cannot be read is the end of the reconciliation: the read is the only call,
    -- and what is returned is what client.IgnoreNotFound makes of its error.
    pub reconcile_unread :
        {e : Error}
        → (r.kube.get_control_plane req s.world).0 ≡ err e
        → reconcile r req s ≡ (
          ok (record { requeue_after = 0; error = r.toolkit.ignore_not_found e }),
          after_read r req s,
        )
    unfolding reconcile ◌>>=◌
    reconcile_unread h = ground arith

    module _ {ncp : NoPlaneControlPlane}
        (got : (r.kube.get_control_plane req s.world).0 ≡ ok ncp) where
      pub reconcile-trace :
          (reconcile r req s).1.trace ≡ (with_object r (returned ncp) (after_read r req s)).1.trace
      unfolding reconcile ◌>>=◌
      reconcile-trace = ground arith

      -- An object that is paused, itself or by its cluster, and one that has no owner yet, is
      -- left alone: two reads are the only calls, and there is no error and no delay.
      pub reconcile_idle :
          {owner : Option Cluster}
          → (r.kube.get_owner_cluster ncp.meta (after_read r req s).world).0 ≡ ok owner
          → is_idle r ncp owner ≡ true
          → let (_, w) = r.kube.get_owner_cluster ncp.meta (after_read r req s).world in
            reconcile r req s ≡ (
              ok (requeue 0),
              record {
                world = w;
                trace = (Event.get_owner_cluster ncp.meta, done) ∷ (after_read r req s).trace;
              },
            )
      unfolding reconcile ◌>>=◌
      reconcile_idle {owner = none} e h = ground arith
      reconcile_idle {owner = some cluster} e h = ground arith
