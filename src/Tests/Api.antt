-- ===== src/Tests/Api.antt =====
-- The HTTP client over a server that gives one answer.
use capi_noplane.Prelude.{
  false, ◌≡◌, ◌≢◌, ◌↔◌, refl, [], ◌∷◌, some, All, string_eq, nat_eq, arith, if◌then◌else◌, ◌==◌,
}
use capi_noplane.Prelude.Int.{pos}
use capi_noplane.Errors.{ok, err, panic, external, errorf, text}
use capi_noplane.Plane.{Plane}
use capi_noplane.Fake.{FakeClient}
use capi_noplane.Api.Models.{Tenant}
use capi_noplane.Api.Http.{HttpRequest, HttpRequestDoer, header_get, contains}
use capi_noplane.Api.Responses.{empty_create_tenant, status_code}
use capi_noplane.Api.Parse.{json_with, parse_get_tenants_response, parse_create_tenant_response}
use capi_noplane.Api.Client.{get_tenants_with_response}
use capi_noplane.ApiClient.Answers.{created_plane, tenant_to_plane, listed_tenants}
use capi_noplane.ApiClient.{client_interface, client_get_plane, list_tenants, noplane_client}
use capi_noplane.ApiClient.Laws.{IsFirst, parse_create_panics, client_get_plane_lem}
use capi_noplane.ApiClient.Authorized.{IsAuthorized, noplane_client_authorized, live}
use capi_noplane.Tests.Server.{tenant, kit, answer, plain_answer, server, api}
use capi_noplane.Api.Requests.{new_get_tenants_request}
use capi_noplane.Tests.World.{always, with_plane}

-- The plane of a tenant.
abbrev plane_a : Plane
plane_a = record {
  id = "a";
  name = "cp";
  status = "ready";
  endpoint = record { host = "k8s.example"; port = pos 6443 };
  kubernetes_version = "v1.33";
}

parse_create_panics_example :
    (created_plane (empty_create_tenant (plain_answer 201) "body") ≡ panic)
    ↔ (((plain_answer 201).status_code ≡ 201) × (json_with (plain_answer 201) 201 ≡ false))
unfolding parse_create_tenant_response header_get contains
parse_create_panics_example =
    parse_create_panics kit (plain_answer 201)
      {resp = empty_create_tenant (plain_answer 201) "body"} refl

client_get_plane_lem_example :
    let got = (client_get_plane kit (api 200) "b" with_plane).0 in
    ((t : Tenant)
      → IsFirst (λ x. x.id) "b" (tenant "a" ∷ tenant "b" ∷ []) t
      → got ≡ tenant_to_plane (some t))
    × ((got ≡ err (errorf "plane %q not found" (text "b" ∷ [])))
        ↔ All (λ t. t.id ≢ "b") (tenant "a" ∷ tenant "b" ∷ []))
unfolding list_tenants get_tenants_with_response new_get_tenants_request parse_get_tenants_response
    header_get contains listed_tenants status_code
client_get_plane_lem_example =
    client_get_plane_lem kit (api 200) "b" with_plane {ts = tenant "a" ∷ tenant "b" ∷ []} refl

-- A server that answers requests with the key alone.
abbrev strict : HttpRequestDoer FakeClient
strict req = always (
    if header_get "Authorization" req.header == "Bearer k-1"
    then ok (answer 200)
    else err (external "no"))

agree :
    (req : HttpRequest) (w : FakeClient) → IsAuthorized "k-1" req → server 200 req w ≡ strict req w
agree req w h =
    ground (arith, string_eq.beq_iff (header_get "Authorization" req.header) "Bearer k-1")

noplane_client_authorized_example :
    (noplane_client kit (server 200) "k-1" ≡ noplane_client kit strict "k-1")
    × (noplane_client kit (server 200) "k-1" ≡ ok (client_interface kit (live "k-1" (server 200))))
noplane_client_authorized_example = noplane_client_authorized "k-1" kit (server 200) strict agree
