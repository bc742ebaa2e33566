-- ===== src/ApiClient.antt =====
-- internal/api/noplane/client.go: the HTTP client that implements `ClientInterface` over the
-- generated package. Each `switch` on the status code is a function of the parsed response.
pub mod Answers
pub mod Laws
pub mod Controlled
pub mod Authorized
use capi_noplane.Prelude.{
  String, List, [], ◌∷◌, ◌<>◌, Option, none, some, ◌==◌, string_eq, if◌then◌else◌,
}
use capi_noplane.Prelude.Int.{ℤ, pos}
use capi_noplane.Errors.{Result, ok, err, panic, text, errorf}
use capi_noplane.Errors.Monad.{◌>>=◌}
use capi_noplane.Exec.{Op}
use capi_noplane.Types.{Bytes}
use capi_noplane.Plane.{Plane, CreateRequest, UpdateRequest, ClientInterface, ClientFactory}
use capi_noplane.Api.Models.{CreateTenantRequest, Tenant}
use capi_noplane.Api.Http.{HttpRequest, HttpRequestDoer, HttpKit, header_set}
use capi_noplane.Api.Client.{
  Client, RequestEditorFn, with_request_editor_fn, new_client_with_responses,
  get_tenants_with_response, create_tenant_with_response, delete_tenant_with_response,
  get_tenant_kubeconfig_with_response,
}
use capi_noplane.ApiClient.Answers.{
  tenant_to_plane, created_plane, deleted, kubeconfig_of, listed_tenants,
}

-- The editor that NewClient installs.
unfoldable pub authorize : String → RequestEditorFn
authorize api_key req =
    ok (record req { header = header_set "Authorization" ("Bearer " <> api_key) req.header })

unfoldable pub tenant_request : CreateRequest → CreateTenantRequest
tenant_request req = record {
  description = none;
  kubernetes_version = some req.kubernetes_version;
  labels = none;
  name = req.name;
  replicas = some (pos 1);
  subdomain = some req.name;
  unique_id = req.name;
}

-- The loops of GetPlane and GetPlaneByName: the first tenant whose key is the wanted one.
unfoldable pub first_tenant : (Tenant → String) → String → List Tenant → Option Tenant
first_tenant key wanted [] = none
first_tenant key wanted (t ∷ rest) =
    let later = first_tenant key wanted rest in if key t == wanted then some t else later

unfoldable pub plane_of : String → String → Option Tenant → Result Plane
plane_of fmt wanted none = err (errorf fmt (text wanted ∷ []))
plane_of fmt wanted (some t) = tenant_to_plane (some t)

-- `resp, err := call(); if err != nil { return err }; switch ...`
answered : {W R A : Type 0} → (R → Result A) → Op W R → Op W A
answered switch m w = let (resp, w') = m w in (resp >>= switch, w')

module _ {W : Type 0} (kit : HttpKit) (c : Client W) where
  unfoldable pub client_create_plane : CreateRequest → Op W Plane
  unfolding answered
  client_create_plane req =
      answered created_plane (create_tenant_with_response kit c [] (tenant_request req))

  unfoldable pub list_tenants : Op W (List Tenant)
  unfolding answered
  list_tenants = answered listed_tenants (get_tenants_with_response kit c [])

  unfoldable pub client_get_plane : String → Op W Plane
  unfolding answered
  client_get_plane wanted =
      answered
        (λ tenants. plane_of "plane %q not found" wanted (first_tenant Tenant.id wanted tenants))
        list_tenants

  unfoldable pub client_get_plane_by_name : String → Op W Plane
  unfolding answered
  client_get_plane_by_name wanted =
      answered
        (λ tenants.
          plane_of "plane with name %q not found" wanted (first_tenant Tenant.name wanted tenants))
        list_tenants

  -- No request is made.
  unfoldable pub client_update_plane : String → UpdateRequest → Op W (Unit {0})
  client_update_plane plane_id req w =
      (err (errorf "UpdatePlane is not supported by the API" []), w)

  unfoldable pub client_delete_plane : String → Op W (Unit {0})
  unfolding answered
  client_delete_plane plane_id = answered deleted (delete_tenant_with_response kit c [] plane_id)

  unfoldable pub client_get_kubeconfig : String → Op W Bytes
  unfolding answered
  client_get_kubeconfig plane_id =
      answered kubeconfig_of (get_tenant_kubeconfig_with_response kit c [] plane_id)

  -- The struct Client with its methods.
  unfoldable pub client_interface : ClientInterface W
  client_interface = record {
    create_plane = client_create_plane;
    get_plane = client_get_plane;
    get_plane_by_name = client_get_plane_by_name;
    update_plane = client_update_plane;
    delete_plane = client_delete_plane;
    get_kubeconfig = client_get_kubeconfig;
  }

-- NewClient; `standard` is the doer &http.Client{} of the generated package.
unfoldable pub noplane_client : {W : Type 0} → HttpKit → HttpRequestDoer W → ClientFactory W
unfolding new_client_with_responses
noplane_client kit standard api_key = do
  client ←
      new_client_with_responses standard "https://api.noplane.io/api/v1/"
        (with_request_editor_fn (authorize api_key) ∷ [])
  ok (client_interface kit client)
