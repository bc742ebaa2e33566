-- ===== src/Tests/PlaneId.antt =====
-- `resolvePlaneID` on the small cluster.
use mathlib.Core.List.{head?}
use capi_noplane.Prelude.{◌+◌, ◌≡◌, ◌≢◌, ◌⊎◌, refl, count, string_eq}
use capi_noplane.Errors.{ok, new_conflict_error, is_conflict}
use capi_noplane.Exec.{◌>>=◌}
use capi_noplane.Types.{NoPlaneControlPlane}
use capi_noplane.Fake.{fake_create_plane, fake_get_plane_by_name, fake_interface, new_fake_client}
use capi_noplane.Fake.Naming.{fake_interface-KeepsNames}
use capi_noplane.Reconciler.PlaneId.{resolve_plane_id, Resolved}
use capi_noplane.Reconciler.PlaneId.Laws.{StoresId, resolve_plane_id_persisted}
use capi_noplane.Reconciler.PlaneId.Recovery.{is_created, resolve_plane_id_shared}
use capi_noplane.Tests.World.{reconciler, fresh, resolved, owner, at_start, populated, ready_plane}

-- The first run creates the plane and stores its ID.
first_run :
    (resolve_plane_id (reconciler (ok fresh) owner) fake_interface fresh at_start).0
    ≡ ok (record { ncp = resolved; plane_id = "fake-np-id" })
unfolding resolve_plane_id fake_interface fake_create_plane new_fake_client ◌>>=◌
first_run = refl

-- A run that has lost the ID adopts the plane by its name.
second_run :
    (resolve_plane_id (reconciler (ok fresh) owner) fake_interface fresh populated).0
    ≡ ok (record { ncp = resolved; plane_id = "fake-np-id" })
unfolding resolve_plane_id fake_interface fake_create_plane fake_get_plane_by_name new_fake_client
    new_conflict_error is_conflict ◌>>=◌
second_run = refl

resolve_plane_id_persisted_example :
    (("fake-np-id" ≡ fresh.spec.plane_id) × (fresh.spec.plane_id ≢ ""))
    ⊎ (("fake-np-id" ≡ fresh.status.plane_id) × (fresh.status.plane_id ≢ ""))
    ⊎ StoresId fresh "fake-np-id" (
        head?
          (resolve_plane_id (reconciler (ok fresh) owner) fake_interface fresh at_start).1.trace)
unfolding resolve_plane_id fake_interface fake_create_plane new_fake_client ◌>>=◌
resolve_plane_id_persisted_example =
    resolve_plane_id_persisted (reconciler (ok fresh) owner) fake_interface fresh at_start
      {x = record { ncp = resolved; plane_id = "fake-np-id" }} refl

-- The control plane of the same name in another namespace.
abbrev elsewhere : NoPlaneControlPlane
elsewhere = record fresh { meta = record fresh.meta { namespace = "other" } }

resolve_plane_id_shared_example :
    let r = reconciler (ok fresh) owner in
    let s = (resolve_plane_id r fake_interface fresh at_start).1 in
    (count is_created (resolve_plane_id r fake_interface elsewhere s).1.trace ≡ 0 + 1)
    × ((x : Resolved)
        → (resolve_plane_id r fake_interface elsewhere s).0 ≡ ok x
        → x.plane_id ≡ "fake-np-id")
unfolding fake_interface fake_create_plane new_fake_client
resolve_plane_id_shared_example =
    resolve_plane_id_shared (reconciler (ok fresh) owner) fake_interface fake_interface-KeepsNames
      fresh elsewhere (λ x p w h. h) refl refl refl refl refl at_start {p = ready_plane} refl
