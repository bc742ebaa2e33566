-- ===== src/Tests/Fake.antt =====
-- The fake client at concrete inputs.
use capi_noplane.Prelude.{none, ◌≡◌, refl, string_eq, nat_eq}
use capi_noplane.Errors.{ok, err, new_conflict_error}
use capi_noplane.Plane.{CreateRequest, UpdateRequest}
use capi_noplane.Fake.{
  FakeClient, fake_create_plane, fake_get_plane, fake_get_plane_by_name, new_fake_client,
}
use capi_noplane.Fake.Laws.{fake_create_then_get}
use capi_noplane.Tests.World.{ready_plane}

abbrev creation : CreateRequest
creation = record { name = "cp"; kubernetes_version = "v1.33" }

abbrev upgrade : UpdateRequest
upgrade = record { kubernetes_version = "v1.34" }

-- All creations get the same ID: a second plane takes the first one's place in the map of IDs, and
-- the first is still found by its name.
shared_id :
    let f =
      (fake_create_plane
        (record { name = "b"; kubernetes_version = "v2" })
        (fake_create_plane creation new_fake_client).1).1 in
    ((fake_get_plane "fake-np-id" f).0
      ≡ ok (record ready_plane { name = "b"; kubernetes_version = "v2" }))
    × ((fake_get_plane_by_name "cp" f).0 ≡ ok ready_plane)
unfolding fake_create_plane fake_get_plane fake_get_plane_by_name new_fake_client
shared_id = (refl, refl)

fake_create_then_get_example :
    let f' = (fake_create_plane creation new_fake_client).1 in
    ((fake_get_plane "fake-np-id" f').0 ≡ ok ready_plane)
    × ((fake_get_plane_by_name "cp" f').0 ≡ ok ready_plane)
    × ((fake_create_plane creation f').0 ≡ err (new_conflict_error "cp"))
unfolding fake_create_plane new_fake_client
fake_create_then_get_example =
    fake_create_then_get creation new_fake_client {p = ready_plane} refl refl refl

-- `&fake.Client{}`: both maps are nil.
abbrev zero_fake : FakeClient
zero_fake = record new_fake_client { planes = none; planes_by_name = none }
