-- ===== src/Tests/Secrets.antt =====
-- The secrets of the small cluster.
use mathlib.Core.List.{head?}
use capi_noplane.Prelude.{◌+◌, ◌≡◌, refl, count, All, string_eq}
use capi_noplane.Errors.{ok, err, external}
use capi_noplane.Exec.{◌>>=◌}
use capi_noplane.Types.{Bytes}
use capi_noplane.Kube.{NoPlaneControlPlaneReconciler}
use capi_noplane.Fake.{fake_get_kubeconfig, fake_interface, new_fake_client, FakeClient}
use capi_noplane.Reconciler.Secrets.{reconcile_kubeconfig, kubeconfig_secret}
use capi_noplane.Reconciler.Secrets.Laws.{StoresKubeconfig, reconcile_kubeconfig_stored}
use capi_noplane.Reconciler.CaSecret.{reconcile_ca_secret, ca_secret}
use capi_noplane.Reconciler.CaSecret.Laws.{
  is_stored, IsCaWrite, reconcile_ca_secret-IsCaWrite, reconcile_ca_secret_stored,
}
use capi_noplane.Tests.World.{reconciler, resolved, owner, populated, keyed_ca, always, with_plane}

-- The cluster whose CA secret has a key.
abbrev keyed : NoPlaneControlPlaneReconciler FakeClient
keyed =
    let r = reconciler (ok resolved) owner in
    record r { kube = record r.kube { get_secret = λ name. always (ok keyed_ca) } }

-- The cluster whose secrets cannot be read.
abbrev locked : NoPlaneControlPlaneReconciler FakeClient
locked =
    let r = reconciler (ok resolved) owner in
    record r { kube = record r.kube { get_secret = λ name. always (err (external "forbidden")) } }

reconcile_kubeconfig_stored_example :
    let r = reconciler (ok resolved) owner in
    (k : Bytes) × ((fake_interface.get_kubeconfig "fake-np-id" with_plane).0 ≡ ok k)
    × StoresKubeconfig r owner k
        (head? (reconcile_kubeconfig r fake_interface owner resolved populated).1.trace)
unfolding reconcile_kubeconfig kubeconfig_secret fake_interface fake_get_kubeconfig new_fake_client
    ◌>>=◌
reconcile_kubeconfig_stored_example =
    reconcile_kubeconfig_stored (reconciler (ok resolved) owner) fake_interface owner resolved
      populated refl

reconcile_ca_secret-IsCaWrite_example :
    let r = reconciler (ok resolved) owner in
    All (IsCaWrite r owner) (reconcile_ca_secret r fake_interface owner resolved populated).1.trace
reconcile_ca_secret-IsCaWrite_example =
    reconcile_ca_secret-IsCaWrite (reconciler (ok resolved) owner) owner fake_interface resolved
      populated tt

-- The secret of another type is deleted and created again.
reconcile_ca_secret_stored_example :
    count is_stored
      (reconcile_ca_secret
        (reconciler (ok resolved) owner)
        fake_interface
        owner
        resolved
        populated).1.trace
    ≡ 0 + 1
unfolding reconcile_ca_secret ca_secret fake_interface fake_get_kubeconfig new_fake_client ◌>>=◌
reconcile_ca_secret_stored_example =
    reconcile_ca_secret_stored (reconciler (ok resolved) owner) fake_interface owner resolved
      populated refl refl
