-- ===== src/Tests/Normal.antt =====
-- `reconcileNormal` on the small cluster.
use mathlib.Core.List.{head?}
use capi_noplane.Prelude.{true, inl}
use capi_noplane.Reconciler.Normal.Ready.{is_ready, reconcile_normal_ready}
use capi_noplane.Reconciler.Secrets.{kubeconfig_secret}
use capi_noplane.Reconciler.CaSecret.{ca_secret}
use capi_noplane.Fake.{fake_get_plane, fake_get_kubeconfig, new_fake_client}
use capi_noplane.Prelude.{arith, ◌≡◌, ◌≢◌, ◌⊎◌, refl, string_eq, ne_of_beq, if◌then◌else◌, ◌==◌}
use capi_noplane.Prelude.Int.{pos, int32}
use capi_noplane.Errors.{ok, err}
use capi_noplane.Exec.{◌>>=◌}
use capi_noplane.Types.{Bytes, NoPlaneControlPlane, same_endpoint}
use capi_noplane.Plane.{Endpoint, Plane, ClientInterface}
use capi_noplane.Fake.{fake_interface, FakeClient}
use capi_noplane.Kube.{NoPlaneControlPlaneReconciler}
use capi_noplane.Reconciler.Calls.{requeue}
use capi_noplane.Reconciler.PlaneId.{resolve_plane_id}
use capi_noplane.Reconciler.Secrets.{reconcile_kubeconfig}
use capi_noplane.Reconciler.CaSecret.{reconcile_ca_secret}
use capi_noplane.Reconciler.Normal.{
  desired_endpoint, sync_endpoint, publish, follow_plane, reconcile_normal,
}
use capi_noplane.Reconciler.Normal.Schedule.{IsTimed, reconcile_normal_delay}
use capi_noplane.Reconciler.Normal.Brownfield.{reconcile_normal_adoption}
use capi_noplane.Tests.World.{
  reconciler, resolved, adopted, owner, populated, ready_plane, always, not_found,
}

abbrev wide : Endpoint
wide = record { host = "h"; port = pos 4294973739 }

-- A port outside int32 wraps around.
wide_port : desired_endpoint wide ≡ record { host = "h"; port = pos 6443 }
unfolding desired_endpoint int32
wide_port = refl

abbrev old_plane : Plane
old_plane = record ready_plane { kubernetes_version = "v1.32" }

-- An API that has the plane "p-1" and a kubeconfig for it alone.
abbrev one_plane : ClientInterface FakeClient
one_plane = record fake_interface {
  get_plane = λ id. always (ok (record ready_plane { id = "p-1"; kubernetes_version = "v1.32" }));
  update_plane = λ id req. always (ok tt);
  get_kubeconfig = λ id. always (if id == "p-1" then ok "config" else err not_found);
}

refused : (w : FakeClient) (k : Bytes) → (one_plane.get_kubeconfig "" w).0 ≢ ok k
refused w k h = cc h

-- The API server with the status as a sub-resource: an update answers with the stored status.
abbrev sub_resourced : NoPlaneControlPlaneReconciler FakeClient
sub_resourced =
    let r = reconciler (ok adopted) owner in
    record r {
      kube = record r.kube {
        update_control_plane = λ x. always (ok (record x { status = adopted.status }));
      };
    }

answers :
    (x y : NoPlaneControlPlane) (w : FakeClient)
    → x.meta ≡ adopted.meta
    → (sub_resourced.kube.update_control_plane x w).0 ≡ ok y
    → y.status ≡ adopted.status
answers x y w same h = ground arith

reconcile_normal_adoption_example : (requeue 30 ≡ requeue 15) ⊎ (requeue 30 ≡ requeue 30)
unfolding reconcile_normal resolve_plane_id follow_plane ◌>>=◌
reconcile_normal_adoption_example =
    reconcile_normal_adoption sub_resourced one_plane owner refused adopted (ne_of_beq _ _ refl)
      refl answers populated (requeue 30) refl

reconcile_normal_ready_example :
    let r = reconciler (ok resolved) owner in
    is_ready (head? (reconcile_normal r fake_interface owner resolved populated).1.trace) ≡ true
unfolding reconcile_normal resolve_plane_id fake_interface new_fake_client fake_get_plane
    follow_plane publish same_endpoint int32 desired_endpoint sync_endpoint reconcile_kubeconfig
    fake_get_kubeconfig kubeconfig_secret reconcile_ca_secret ca_secret ◌>>=◌
reconcile_normal_ready_example =
    reconcile_normal_ready (reconciler (ok resolved) owner) fake_interface owner resolved populated
      refl

-- A ready plane in an older version: the upgrade is asked for, and 30 seconds.
reconcile_normal_delay_example :
    IsTimed "v1.33" "p-1"
      (record ready_plane { id = "p-1"; kubernetes_version = "v1.32" })
      (requeue 30)
      (head? (reconcile_normal sub_resourced one_plane owner adopted populated).1.trace)
unfolding reconcile_normal resolve_plane_id follow_plane ◌>>=◌
reconcile_normal_delay_example =
    reconcile_normal_delay sub_resourced one_plane owner adopted (inl (ne_of_beq _ _ refl))
      populated refl (requeue 30) refl
