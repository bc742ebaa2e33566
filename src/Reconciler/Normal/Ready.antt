-- ===== src/Reconciler/Normal/Ready.antt =====
-- `reconcileNormal`: what the delay of 60 seconds without an error stands for.
use mathlib.Core.List.{head?}
use capi_noplane.Prelude.{Bool, true, false, ◌≡◌, ◌&&◌, Option, some, arith, string_eq}
use capi_noplane.Errors.{ok}
use capi_noplane.Exec.{◌>>=◌, Sys, Outcome, done}
use capi_noplane.Types.{NoPlaneControlPlane, Cluster}
use capi_noplane.Plane.{ClientInterface}
use capi_noplane.Kube.{NoPlaneControlPlaneReconciler, Event}
use capi_noplane.Reconciler.Calls.{requeue}
use capi_noplane.Reconciler.Normal.{publish, follow_plane, reconcile_normal}

-- A status with a ready and initialized control plane was stored.
abbrev pub is_ready : Option (Event × Outcome) → Bool
is_ready (some (Event.update_control_plane_status x, done)) = x.status.ready && x.status.initialized
is_ready _ = false

module _ {W : Type 0} (r : NoPlaneControlPlaneReconciler W) (c : ClientInterface W)
    (cluster : Cluster) (ncp : NoPlaneControlPlane) (s : Sys W Event) where
  -- A reconciliation that asks for 60 seconds without an error has stored, as its last call, a status
  -- that is ready and initialized.
  pub reconcile_normal_ready :
      (reconcile_normal r c cluster ncp s).0 ≡ ok (requeue 60)
      → is_ready (head? (reconcile_normal r c cluster ncp s).1.trace) ≡ true
  unfolding reconcile_normal follow_plane publish ◌>>=◌
  reconcile_normal_ready h = ground arith
