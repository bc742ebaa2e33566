-- ===== src/ApiClient/Controlled.antt =====
-- The controller over the client of internal/api/noplane/client.go: what its answers to conflicts, to
-- missing planes and to upgrades come to with the errors that this client makes.
use capi_noplane.Prelude.{
  String, Bool, true, false, not, ◌&&◌, ◌≡◌, ◌≢◌, [], ◌∷◌, some, count, arith, string_eq, nat_eq,
}
use capi_noplane.Errors.{Result, ok, err, is_conflict, is_not_found}
use capi_noplane.Exec.{◌>>=◌, Sys, outcome}
use capi_noplane.Types.{NoPlaneControlPlane, Cluster}
use capi_noplane.Plane.{Plane, CreateRequest}
use capi_noplane.Kube.{NoPlaneControlPlaneReconciler, Event}
use capi_noplane.Api.Http.{HttpKit}
use capi_noplane.Api.Client.{Client, create_tenant_with_response, delete_tenant_with_response}
use capi_noplane.Api.Responses.{CreateTenantResponse, DeleteTenantResponse, status_code}
use capi_noplane.Reconciler.PlaneId.{resolve_plane_id}
use capi_noplane.Reconciler.Normal.{follow_plane}
use capi_noplane.Reconciler.Reconcile.{reconcile_delete}
use capi_noplane.Reconciler.Reconcile.Laws.{is_update}
use capi_noplane.ApiClient.Answers.{created_plane, deleted}
use capi_noplane.ApiClient.{
  tenant_request, client_create_plane, client_delete_plane, client_update_plane, client_interface,
}

-- An error that is neither a ConflictError nor a NotFoundError.
abbrev pub is_plain : {A : Type 0} → Result A → Bool
is_plain (err e) = not (is_conflict (some e)) && not (is_not_found (some e))
is_plain _ = false

created_plain :
    (resp : CreateTenantResponse)
    → status_code resp.http_response ≢ 201
    → is_plain (created_plane resp) ≡ true
unfolding created_plane is_conflict is_not_found
created_plain resp h = ground (arith, nat_eq.beq_iff)

deleted_plain :
    (resp : DeleteTenantResponse)
    → status_code resp.http_response ≢ 204
    → is_plain (deleted resp) ≡ true
unfolding deleted is_conflict is_not_found
deleted_plain resp h = ground (arith, nat_eq.beq_iff)

module _ {W : Type 0} (kit : HttpKit) (api : Client W) (r : NoPlaneControlPlaneReconciler W)
    (ncp : NoPlaneControlPlane) (s : Sys W Event) where
  abbrev request : CreateRequest
  request = record { name = ncp.meta.name; kubernetes_version = ncp.spec.version }

  -- Whatever status other than 201 the API answers a creation with, 409 included: for an object
  -- without an ID no plane is looked up or adopted, the creation is the only call, and the result
  -- is an error, which is neither a ConflictError nor a NotFoundError.
  pub resolve_plane_id_unadopted :
      {resp : CreateTenantResponse}
      → ncp.spec.plane_id ≡ ""
      → ncp.status.plane_id ≡ ""
      → (create_tenant_with_response kit api [] (tenant_request request) s.world).0 ≡ ok resp
      → status_code resp.http_response ≢ 201
      → let (got, s') = resolve_plane_id r (client_interface kit api) ncp s in
        (is_plain got ≡ true)
        × (s'.trace
            ≡ (Event.create_plane request, outcome (client_create_plane kit api request s.world).0)
              ∷ s.trace)
  unfolding resolve_plane_id client_interface client_create_plane is_conflict is_not_found ◌>>=◌
  resolve_plane_id_unadopted {resp} p q h k = ground (
    arith,
    created_plain resp,
    string_eq.beq_iff ncp.spec.plane_id "",
    string_eq.beq_iff ncp.status.plane_id "",
  )

  -- Whatever status other than 204 the API answers a deletion with, 404 included: an object with
  -- an ID in its status is not updated, so its finalizer stays, and the result is an error, which
  -- is neither a ConflictError nor a NotFoundError.
  pub reconcile_delete_held :
      {resp : DeleteTenantResponse}
      → ncp.status.plane_id ≢ ""
      → (delete_tenant_with_response kit api [] ncp.status.plane_id s.world).0 ≡ ok resp
      → status_code resp.http_response ≢ 204
      → let (got, s') = reconcile_delete r (client_interface kit api) ncp s in
        (is_plain got ≡ true) × (count is_update s'.trace ≡ count is_update s.trace)
  unfolding reconcile_delete client_interface client_delete_plane is_conflict is_not_found ◌>>=◌
  reconcile_delete_held {resp} p h k =
      ground (arith, deleted_plain resp, string_eq.beq_iff ncp.status.plane_id "")

  -- A ready plane at another version than the spec's ends the reconciliation with an error, and
  -- the world is not changed: no request is made and no object is written.
  pub follow_plane_stuck :
      (cluster : Cluster) (id : String) (plane : Plane)
      → plane.status ≡ "ready"
      → plane.kubernetes_version ≢ ncp.spec.version
      → let (got, s') = follow_plane r (client_interface kit api) cluster ncp id plane s in
        (is_plain got ≡ true) × (s'.world ≡ s.world)
  unfolding follow_plane client_interface client_update_plane is_conflict is_not_found ◌>>=◌
  follow_plane_stuck cluster id plane e h = ground (
    arith,
    string_eq.beq_iff plane.status "ready",
    string_eq.beq_iff plane.kubernetes_version ncp.spec.version,
  )
