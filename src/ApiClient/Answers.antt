-- ===== src/ApiClient/Answers.antt =====
-- internal/api/noplane/client.go: what the client makes of an answer. The last case of every switch
-- and `apiError` put the status code and a text of the answer into an error.
use capi_noplane.Prelude.{
  String, ℕ, List, [], ◌∷◌, ◌<>◌, Option, none, some, ◌==◌, nat_eq, if◌then◌else◌,
}
use capi_noplane.Prelude.Int.{pos}
use capi_noplane.Errors.{Error, Result, ok, err, panic, text, number, errorf}
use capi_noplane.Types.{Bytes}
use capi_noplane.Plane.{Endpoint, Plane}
use capi_noplane.Api.Models.{ApiError, Tenant, KubeconfigBody}
use capi_noplane.Api.Responses.{
  CreateTenantResponse, DeleteTenantResponse, GetTenantKubeconfigResponse, GetTenantsResponse,
  status_code,
}

abbrev some_detail : ℕ → Option String → Error
some_detail status none = errorf "API error %d" (number status ∷ [])
some_detail status (some detail) = errorf "API error %d: %s" (number status ∷ text detail ∷ [])

unfoldable pub api_error : {A : Type 0} → ℕ → Option ApiError → Result A
api_error status none = err (some_detail status none)
api_error status (some e) = err (some_detail status e.detail)

unfoldable pub unexpected : {A : Type 0} → ℕ → Bytes → Result A
unexpected status body = err (errorf "unexpected status %d: %s" (number status ∷ text body ∷ []))

-- The two cases of the switch and the one that is left out: no endpoint.
unfoldable pub plane_endpoint : Option String → Option String → Endpoint
plane_endpoint (some hostname) subdomain = record { host = hostname; port = pos 6443 }
plane_endpoint none (some subdomain) = record {
  host = subdomain <> ".k8s.noplane.io";
  port = pos 6443;
}
plane_endpoint none none = record { host = ""; port = pos 0 }

-- A nil tenant is a nil pointer dereference.
unfoldable pub tenant_to_plane : Option Tenant → Result Plane
unfolding plane_endpoint
tenant_to_plane none = panic
tenant_to_plane (some t) = ok (record {
  id = t.id;
  name = t.name;
  status = elim t.hostname [ none ↦ "created" | some hostname ↦ "ready" ];
  endpoint = plane_endpoint t.hostname t.subdomain;
  kubernetes_version = elim t.kubernetes_version [ none ↦ "" | some version ↦ version ];
})

unfoldable pub created_plane : CreateTenantResponse → Result Plane
unfolding tenant_to_plane api_error unexpected
created_plane resp =
    let status = status_code resp.http_response in
    if status == 201
    then tenant_to_plane resp.json201
    else if status == 400
    then api_error status resp.json400
    else if status == 403
    then api_error status resp.json403
    else if status == 500
    then api_error status resp.json500
    else unexpected status resp.body

unfoldable pub deleted : DeleteTenantResponse → Result (Unit {0})
unfolding api_error unexpected
deleted resp =
    let status = status_code resp.http_response in
    if status == 204
    then ok tt
    else if status == 400
    then api_error status resp.json400
    else if status == 403
    then api_error status resp.json403
    else if status == 404
    then api_error status resp.json404
    else if status == 500
    then api_error status resp.json500
    else unexpected status resp.body

abbrev kubeconfig_text : Option KubeconfigBody → Result Bytes
kubeconfig_text none = err (errorf "empty kubeconfig response" [])
kubeconfig_text (some body) = ok body.kubeconfig

unfoldable pub kubeconfig_of : GetTenantKubeconfigResponse → Result Bytes
unfolding api_error unexpected
kubeconfig_of resp =
    let status = status_code resp.http_response in
    if status == 200
    then kubeconfig_text resp.json200
    else if status == 400
    then api_error status resp.json400
    else if status == 403
    then api_error status resp.json403
    else if status == 404
    then api_error status resp.json404
    else if status == 500
    then api_error status resp.json500
    else unexpected status resp.body

abbrev tenants_or_nil : Option (List Tenant) → List Tenant
tenants_or_nil none = []
tenants_or_nil (some tenants) = tenants

unfoldable pub listed_tenants : GetTenantsResponse → Result (List Tenant)
unfolding api_error unexpected
listed_tenants resp =
    let status = status_code resp.http_response in
    if status == 200
    then ok (tenants_or_nil resp.json200)
    else if status == 500
    then api_error status resp.json500
    else unexpected status resp.body
