-- ===== src/Api/Parse/Laws.antt =====
-- hack/v1/api.gen.go: which field of a parsed response is set.
use capi_noplane.Prelude.{true, ◌≡◌, ◌≢◌, ◌↔◌, some, none, arith, nat_eq}
use capi_noplane.Errors.{ok}
use capi_noplane.Api.Http.{HttpResponse, HttpKit}
use capi_noplane.Api.Responses.{
  GetTenantsResponse, CreateTenantResponse, ValidateTenantUniqueIdResponse, DeleteTenantResponse,
  GetTenantKubeconfigResponse, ListTenantTokensResponse, CreateTenantTokenResponse,
}
use capi_noplane.Api.Parse.{
  json_with, parse_get_tenants_response, parse_create_tenant_response,
  parse_validate_tenant_unique_id_response, parse_delete_tenant_response,
  parse_get_tenant_kubeconfig_response, parse_list_tenant_tokens_response,
  parse_create_tenant_token_response,
}

module _ (kit : HttpKit) (rsp : HttpResponse) where
  -- A parsed answer keeps the response and its body, and for each status that the operation documents
  -- (200, 500) the field of that status is set exactly if the answer has it and is JSON.
  pub parse_get_tenants_fields :
      {resp : GetTenantsResponse}
      → parse_get_tenants_response kit rsp ≡ ok resp
      → (resp.http_response ≡ some rsp)
        × (rsp.body ≡ ok resp.body)
        × ((resp.json200 ≢ none) ↔ (json_with rsp 200 ≡ true))
        × ((resp.json500 ≢ none) ↔ (json_with rsp 500 ≡ true))
  unfolding parse_get_tenants_response
  parse_get_tenants_fields h = ground (arith, nat_eq.beq_iff)

  -- A parsed answer keeps the response and its body, and for each status that the operation documents
  -- (201, 400, 403, 500) the field of that status is set exactly if the answer has it and is JSON.
  pub parse_create_tenant_fields :
      {resp : CreateTenantResponse}
      → parse_create_tenant_response kit rsp ≡ ok resp
      → (resp.http_response ≡ some rsp)
        × (rsp.body ≡ ok resp.body)
        × ((resp.json201 ≢ none) ↔ (json_with rsp 201 ≡ true))
        × ((resp.json400 ≢ none) ↔ (json_with rsp 400 ≡ true))
        × ((resp.json403 ≢ none) ↔ (json_with rsp 403 ≡ true))
        × ((resp.json500 ≢ none) ↔ (json_with rsp 500 ≡ true))
  unfolding parse_create_tenant_response
  parse_create_tenant_fields h = ground (arith, nat_eq.beq_iff)

  -- A parsed answer keeps the response and its body, and for each status that the operation documents
  -- (200, 400, 500) the field of that status is set exactly if the answer has it and is JSON.
  pub parse_validate_tenant_unique_id_fields :
      {resp : ValidateTenantUniqueIdResponse}
      → parse_validate_tenant_unique_id_response kit rsp ≡ ok resp
      → (resp.http_response ≡ some rsp)
        × (rsp.body ≡ ok resp.body)
        × ((resp.json200 ≢ none) ↔ (json_with rsp 200 ≡ true))
        × ((resp.json400 ≢ none) ↔ (json_with rsp 400 ≡ true))
        × ((resp.json500 ≢ none) ↔ (json_with rsp 500 ≡ true))
  unfolding parse_validate_tenant_unique_id_response
  parse_validate_tenant_unique_id_fields h = ground (arith, nat_eq.beq_iff)

  -- A parsed answer keeps the response and its body, and for each status that the operation documents
  -- (400, 403, 404, 500) the field of that status is set exactly if the answer has it and is JSON.
  pub parse_delete_tenant_fields :
      {resp : DeleteTenantResponse}
      → parse_delete_tenant_response kit rsp ≡ ok resp
      → (resp.http_response ≡ some rsp)
        × (rsp.body ≡ ok resp.body)
        × ((resp.json400 ≢ none) ↔ (json_with rsp 400 ≡ true))
        × ((resp.json403 ≢ none) ↔ (json_with rsp 403 ≡ true))
        × ((resp.json404 ≢ none) ↔ (json_with rsp 404 ≡ true))
        × ((resp.json500 ≢ none) ↔ (json_with rsp 500 ≡ true))
  unfolding parse_delete_tenant_response
  parse_delete_tenant_fields h = ground (arith, nat_eq.beq_iff)

  -- A parsed answer keeps the response and its body, and for each status that the operation
  -- documents (200, 400, 403, 404, 500) the field of that status is set exactly if the answer has
  -- it and is JSON.
  pub parse_get_tenant_kubeconfig_fields :
      {resp : GetTenantKubeconfigResponse}
      → parse_get_tenant_kubeconfig_response kit rsp ≡ ok resp
      → (resp.http_response ≡ some rsp)
        × (rsp.body ≡ ok resp.body)
        × ((resp.json200 ≢ none) ↔ (json_with rsp 200 ≡ true))
        × ((resp.json400 ≢ none) ↔ (json_with rsp 400 ≡ true))
        × ((resp.json403 ≢ none) ↔ (json_with rsp 403 ≡ true))
        × ((resp.json404 ≢ none) ↔ (json_with rsp 404 ≡ true))
        × ((resp.json500 ≢ none) ↔ (json_with rsp 500 ≡ true))
  unfolding parse_get_tenant_kubeconfig_response
  parse_get_tenant_kubeconfig_fields h = ground (arith, nat_eq.beq_iff)

  -- A parsed answer keeps the response and its body, and for each status that the operation documents
  -- (200, 403, 404, 500) the field of that status is set exactly if the answer has it and is JSON.
  pub parse_list_tenant_tokens_fields :
      {resp : ListTenantTokensResponse}
      → parse_list_tenant_tokens_response kit rsp ≡ ok resp
      → (resp.http_response ≡ some rsp)
        × (rsp.body ≡ ok resp.body)
        × ((resp.json200 ≢ none) ↔ (json_with rsp 200 ≡ true))
        × ((resp.json403 ≢ none) ↔ (json_with rsp 403 ≡ true))
        × ((resp.json404 ≢ none) ↔ (json_with rsp 404 ≡ true))
        × ((resp.json500 ≢ none) ↔ (json_with rsp 500 ≡ true))
  unfolding parse_list_tenant_tokens_response
  parse_list_tenant_tokens_fields h = ground (arith, nat_eq.beq_iff)

  -- A parsed answer keeps the response and its body, and for each status that the operation
  -- documents (201, 400, 403, 404, 500) the field of that status is set exactly if the answer has
  -- it and is JSON.
  pub parse_create_tenant_token_fields :
      {resp : CreateTenantTokenResponse}
      → parse_create_tenant_token_response kit rsp ≡ ok resp
      → (resp.http_response ≡ some rsp)
        × (rsp.body ≡ ok resp.body)
        × ((resp.json201 ≢ none) ↔ (json_with rsp 201 ≡ true))
        × ((resp.json400 ≢ none) ↔ (json_with rsp 400 ≡ true))
        × ((resp.json403 ≢ none) ↔ (json_with rsp 403 ≡ true))
        × ((resp.json404 ≢ none) ↔ (json_with rsp 404 ≡ true))
        × ((resp.json500 ≢ none) ↔ (json_with rsp 500 ≡ true))
  unfolding parse_create_tenant_token_response
  parse_create_tenant_token_fields h = ground (arith, nat_eq.beq_iff)
