-- ===== src/Reconciler/Calls.antt =====
-- The calls that the controller makes, each on the trace, and what its functions return.
use capi_noplane.Prelude.{String, ℕ, Option, none}
use capi_noplane.Errors.{Error}
use capi_noplane.Exec.{Exec, call, attempt, error_of, pure, ◌>>=◌}
use capi_noplane.Types.{Bytes, NamespacedName, ObjectMeta, NoPlaneControlPlane, Cluster, Secret}
use capi_noplane.Plane.{Plane, CreateRequest, UpdateRequest, ClientInterface}
use capi_noplane.Kube.{NoPlaneControlPlaneReconciler, Event}

abbrev pub Action : Type 0 → Type 0 → Type 0
Action W A = Exec W Event A

-- `(ctrl.Result, error)`; the delay is in seconds, and 0 is the zero ctrl.Result.
pub record Return : Type 0 where
  pub requeue_after : ℕ
  pub error : Option Error

abbrev pub requeue : ℕ → Return
requeue n = record { requeue_after = n; error = none }

-- `return ctrl.Result{RequeueAfter: n}, f()`
abbrev pub returning : {W A : Type 0} → ℕ → Action W A → Action W Return
returning n m = do result ← attempt m; pure (record { requeue_after = n; error = error_of result })

module _ {W : Type 0} (r : NoPlaneControlPlaneReconciler W) where
  abbrev pub get_control_plane : NamespacedName → Action W NoPlaneControlPlane
  get_control_plane key = call (Event.get_control_plane key) (r.kube.get_control_plane key)

  abbrev pub update : NoPlaneControlPlane → Action W NoPlaneControlPlane
  update ncp = call (Event.update_control_plane ncp) (r.kube.update_control_plane ncp)

  abbrev pub status_update : NoPlaneControlPlane → Action W NoPlaneControlPlane
  status_update ncp =
      call (Event.update_control_plane_status ncp) (r.kube.update_control_plane_status ncp)

  abbrev pub get_owner_cluster : ObjectMeta → Action W (Option Cluster)
  get_owner_cluster meta = call (Event.get_owner_cluster meta) (r.kube.get_owner_cluster meta)

  abbrev pub get_secret : NamespacedName → Action W Secret
  get_secret key = call (Event.get_secret key) (r.kube.get_secret key)

  abbrev pub create_secret : Secret → Action W (Unit {0})
  create_secret secret = call (Event.create_secret secret) (r.kube.create_secret secret)

  abbrev pub update_secret : Secret → Action W (Unit {0})
  update_secret secret = call (Event.update_secret secret) (r.kube.update_secret secret)

  abbrev pub delete_secret : Secret → Action W (Unit {0})
  delete_secret secret = call (Event.delete_secret secret) (r.kube.delete_secret secret)

module _ {W : Type 0} (c : ClientInterface W) where
  abbrev pub create_plane : CreateRequest → Action W Plane
  create_plane req = call (Event.create_plane req) (c.create_plane req)

  abbrev pub get_plane : String → Action W Plane
  get_plane id = call (Event.get_plane id) (c.get_plane id)

  abbrev pub get_plane_by_name : String → Action W Plane
  get_plane_by_name name = call (Event.get_plane_by_name name) (c.get_plane_by_name name)

  abbrev pub update_plane : String → UpdateRequest → Action W (Unit {0})
  update_plane id req = call (Event.update_plane id req) (c.update_plane id req)

  abbrev pub delete_plane : String → Action W (Unit {0})
  delete_plane id = call (Event.delete_plane id) (c.delete_plane id)

  abbrev pub get_kubeconfig : String → Action W Bytes
  get_kubeconfig id = call (Event.get_kubeconfig id) (c.get_kubeconfig id)
