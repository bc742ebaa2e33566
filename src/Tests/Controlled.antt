-- ===== src/Tests/Controlled.antt =====
-- The controller over the HTTP client.
use capi_noplane.Prelude.{true, ◌≡◌, refl, [], ◌∷◌, some, count, ne_of_beq, string_eq, nat_eq}
use capi_noplane.Errors.{ok}
use capi_noplane.Exec.{outcome}
use capi_noplane.Plane.{CreateRequest}
use capi_noplane.Kube.{Event}
use capi_noplane.Api.Http.{header_get, contains}
use capi_noplane.Api.Responses.{empty_delete_tenant, empty_create_tenant, status_code}
use capi_noplane.Api.Parse.{parse_create_tenant_response, parse_delete_tenant_response}
use capi_noplane.Api.Client.{create_tenant_with_response, delete_tenant_with_response}
use capi_noplane.ApiClient.{client_interface, client_create_plane}
use capi_noplane.ApiClient.Controlled.{
  is_plain, resolve_plane_id_unadopted, reconcile_delete_held, follow_plane_stuck,
}
use capi_noplane.Reconciler.PlaneId.{resolve_plane_id}
use capi_noplane.Reconciler.Normal.{follow_plane}
use capi_noplane.Reconciler.Reconcile.{reconcile_delete}
use capi_noplane.Reconciler.Reconcile.Laws.{is_update}
use capi_noplane.Tests.Server.{problem, kit, answer, api}
use capi_noplane.Api.Requests.{new_create_tenant_request, new_delete_tenant_request}
use capi_noplane.Tests.World.{
  reconciler, fresh, resolved, doomed, owner, at_start, populated, ready_plane, with_plane,
}

-- The server answers a creation with 409, which the generated package leaves undecoded.
resolve_plane_id_unadopted_example :
    let (got, s') =
      resolve_plane_id
        (reconciler (ok fresh) owner)
        (client_interface kit (api 409))
        fresh
        at_start in
    let req : CreateRequest = record { name = "cp"; kubernetes_version = "v1.33" } in
    (is_plain got ≡ true)
    × (s'.trace
        ≡ (Event.create_plane req, outcome (client_create_plane kit (api 409) req at_start.world).0)
          ∷ [])
unfolding create_tenant_with_response new_create_tenant_request parse_create_tenant_response
    header_get contains status_code
resolve_plane_id_unadopted_example =
    resolve_plane_id_unadopted kit (api 409) (reconciler (ok fresh) owner) fresh at_start
      {resp = empty_create_tenant (answer 409) "body"} refl refl refl (ne_of_beq _ _ refl)

reconcile_delete_held_example :
    let (got, s') =
      reconcile_delete
        (reconciler (ok doomed) owner)
        (client_interface kit (api 404))
        doomed
        populated in
    (is_plain got ≡ true) × (count is_update s'.trace ≡ 0)
unfolding delete_tenant_with_response new_delete_tenant_request parse_delete_tenant_response
    header_get contains status_code
reconcile_delete_held_example =
    reconcile_delete_held kit (api 404) (reconciler (ok doomed) owner) doomed populated
      {resp = record (empty_delete_tenant (answer 404) "body") { json404 = some problem }}
      (ne_of_beq _ _ refl) refl (ne_of_beq _ _ refl)

follow_plane_stuck_example :
    let (got, s') =
      follow_plane
        (reconciler (ok resolved) owner)
        (client_interface kit (api 200))
        owner
        resolved
        "fake-np-id"
        (record ready_plane { kubernetes_version = "v1.32" })
        populated in
    (is_plain got ≡ true) × (s'.world ≡ with_plane)
follow_plane_stuck_example =
    follow_plane_stuck kit (api 200) (reconciler (ok resolved) owner) resolved populated owner
      "fake-np-id" (record ready_plane { kubernetes_version = "v1.32" }) refl (ne_of_beq _ _ refl)
