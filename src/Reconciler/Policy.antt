-- ===== src/Reconciler/Policy.antt =====
-- Which calls the controller makes, for any property of calls: what the property has to allow so that
-- every function of the controller keeps it. The theorems about the trace are instances.
use capi_noplane.Prelude.{String, true, false, ◌≡◌, ◌≢◌}
use capi_noplane.Exec.{Outcome}
use capi_noplane.Types.{ApiEndpoint, NamespacedName, NoPlaneControlPlane, Secret}
use capi_noplane.Plane.{UpdateRequest}
use capi_noplane.Kube.{NoPlaneControlPlaneReconciler, Event}
use capi_noplane.Reconciler.PlaneId.{with_plane_id}
use capi_noplane.Reconciler.Normal.{with_endpoint, with_ready_status}
use capi_noplane.Reconciler.Reconcile.{noplane_finalizer}

-- The calls that are made whatever the control plane is.
pub record AllowsSecrets (P : Event × Outcome → Type 0) : Type 0 where
  pub get_secret : (key : NamespacedName) (o : Outcome) → P (Event.get_secret key, o)
  pub create_secret : (x : Secret) (o : Outcome) → P (Event.create_secret x, o)
  pub update_secret : (x : Secret) (o : Outcome) → P (Event.update_secret x, o)
  pub delete_secret : (x : Secret) (o : Outcome) → P (Event.delete_secret x, o)
  pub range_clusters : (o : Outcome) → P (Event.range_clusters, o)
  pub generate_key : (o : Outcome) → P (Event.generate_key 2048, o)
  pub get_kubeconfig : (id : String) (o : Outcome) → P (Event.get_kubeconfig id, o)
  pub get_plane : (id : String) (o : Outcome) → P (Event.get_plane id, o)
  pub get_plane_by_name : (name : String) (o : Outcome) → P (Event.get_plane_by_name name, o)

-- What `reconcileNormal` does with this control plane.
pub record AllowsNormal (ncp : NoPlaneControlPlane) (P : Event × Outcome → Type 0) : Type 0 where
  pub secrets : AllowsSecrets P
  -- A plane is created only where no ID is known.
  pub create :
      ncp.spec.plane_id ≡ ""
      → ncp.status.plane_id ≡ ""
      → (o : Outcome)
      → P (
        Event.create_plane (record { name = ncp.meta.name; kubernetes_version = ncp.spec.version }),
        o,
      )
  pub persist :
      (id : String) (o : Outcome) → P (Event.update_control_plane_status (with_plane_id ncp id), o)
  pub upgrade : (id : String) (req : UpdateRequest) (o : Outcome) → P (Event.update_plane id req, o)
  pub endpoint :
      (x : NoPlaneControlPlane) (e : ApiEndpoint) (o : Outcome)
      → P (Event.update_control_plane (with_endpoint x e), o)
  pub ready :
      (x : NoPlaneControlPlane) (id version : String) (o : Outcome)
      → P (Event.update_control_plane_status (with_ready_status x id version), o)

-- What `Reconcile` does with this control plane, once it has read it.
pub record AllowsObject {W : Type 0} (r : NoPlaneControlPlaneReconciler W)
    (ncp : NoPlaneControlPlane) (P : Event × Outcome → Type 0) : Type 0 where
  pub secrets : AllowsSecrets P
  pub owner : (o : Outcome) → P (Event.get_owner_cluster ncp.meta, o)
  pub add :
      r.toolkit.contains_finalizer ncp noplane_finalizer ≡ false
      → (o : Outcome)
      → P (Event.update_control_plane (r.toolkit.add_finalizer ncp noplane_finalizer), o)
  -- All that follows needs the finalizer. Here with a deletion timestamp:
  pub delete :
      r.toolkit.contains_finalizer ncp noplane_finalizer ≡ true
      → r.toolkit.is_zero ncp.meta.deletion_timestamp ≡ false
      → ncp.status.plane_id ≢ ""
      → (o : Outcome) → P (Event.delete_plane ncp.status.plane_id, o)
  pub remove :
      r.toolkit.contains_finalizer ncp noplane_finalizer ≡ true
      → r.toolkit.is_zero ncp.meta.deletion_timestamp ≡ false
      → (o : Outcome)
      → P (Event.update_control_plane (r.toolkit.remove_finalizer ncp noplane_finalizer), o)
  -- and without:
  pub normal :
      r.toolkit.contains_finalizer ncp noplane_finalizer ≡ true
      → r.toolkit.is_zero ncp.meta.deletion_timestamp ≡ true
      → AllowsNormal ncp P
