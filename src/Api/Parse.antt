-- ===== src/Api/Parse.antt =====
-- The functions that parse an answer: by the content type and the status code the body is decoded
-- into one field of the response.
pub mod Laws
use capi_noplane.Prelude.{ℕ, Bool, some, ◌&&◌, ◌==◌, nat_eq, if◌then◌else◌}
use capi_noplane.Errors.{Result, ok}
use capi_noplane.Errors.Monad.{◌>>=◌, map_result}
use capi_noplane.Api.Http.{HttpResponse, HttpKit, header_get, contains}
use capi_noplane.Api.Responses.{
  GetTenantsResponse, CreateTenantResponse, ValidateTenantUniqueIdResponse, DeleteTenantResponse,
  GetTenantKubeconfigResponse, ListTenantTokensResponse, CreateTenantTokenResponse,
  empty_get_tenants, empty_create_tenant, empty_validate_tenant_unique_id, empty_delete_tenant,
  empty_get_tenant_kubeconfig, empty_list_tenant_tokens, empty_create_tenant_token,
}

-- The two tests of each case.
abbrev pub json_with : HttpResponse → ℕ → Bool
json_with rsp status =
    contains (header_get "Content-Type" rsp.header) "json" && rsp.status_code == status

module _ (kit : HttpKit) where
  unfoldable pub parse_get_tenants_response : HttpResponse → Result GetTenantsResponse
  parse_get_tenants_response rsp = do
    body ← rsp.body
    let response = empty_get_tenants rsp body
    if json_with rsp 200
        then map_result (λ dest. record response { json200 = some dest })
            (kit.unmarshal_tenants body)
        else if json_with rsp 500
        then map_result (λ dest. record response { json500 = some dest }) (kit.unmarshal_error body)
        else ok response

  unfoldable pub parse_create_tenant_response : HttpResponse → Result CreateTenantResponse
  parse_create_tenant_response rsp = do
    body ← rsp.body
    let response = empty_create_tenant rsp body
    if json_with rsp 201
        then map_result (λ dest. record response { json201 = some dest })
            (kit.unmarshal_tenant body)
        else if json_with rsp 400
        then map_result (λ dest. record response { json400 = some dest }) (kit.unmarshal_error body)
        else if json_with rsp 403
        then map_result (λ dest. record response { json403 = some dest }) (kit.unmarshal_error body)
        else if json_with rsp 500
        then map_result (λ dest. record response { json500 = some dest }) (kit.unmarshal_error body)
        else ok response

  unfoldable pub parse_validate_tenant_unique_id_response :
      HttpResponse → Result ValidateTenantUniqueIdResponse
  parse_validate_tenant_unique_id_response rsp = do
    body ← rsp.body
    let response = empty_validate_tenant_unique_id rsp body
    if json_with rsp 200
        then map_result (λ dest. record response { json200 = some dest })
            (kit.unmarshal_available body)
        else if json_with rsp 400
        then map_result (λ dest. record response { json400 = some dest }) (kit.unmarshal_error body)
        else if json_with rsp 500
        then map_result (λ dest. record response { json500 = some dest }) (kit.unmarshal_error body)
        else ok response

  unfoldable pub parse_delete_tenant_response : HttpResponse → Result DeleteTenantResponse
  parse_delete_tenant_response rsp = do
    body ← rsp.body
    let response = empty_delete_tenant rsp body
    if json_with rsp 400
        then map_result (λ dest. record response { json400 = some dest }) (kit.unmarshal_error body)
        else if json_with rsp 403
        then map_result (λ dest. record response { json403 = some dest }) (kit.unmarshal_error body)
        else if json_with rsp 404
        then map_result (λ dest. record response { json404 = some dest }) (kit.unmarshal_error body)
        else if json_with rsp 500
        then map_result (λ dest. record response { json500 = some dest }) (kit.unmarshal_error body)
        else ok response

  unfoldable pub parse_get_tenant_kubeconfig_response :
      HttpResponse → Result GetTenantKubeconfigResponse
  parse_get_tenant_kubeconfig_response rsp = do
    body ← rsp.body
    let response = empty_get_tenant_kubeconfig rsp body
    if json_with rsp 200
        then map_result (λ dest. record response { json200 = some dest })
            (kit.unmarshal_kubeconfig body)
        else if json_with rsp 400
        then map_result (λ dest. record response { json400 = some dest }) (kit.unmarshal_error body)
        else if json_with rsp 403
        then map_result (λ dest. record response { json403 = some dest }) (kit.unmarshal_error body)
        else if json_with rsp 404
        then map_result (λ dest. record response { json404 = some dest }) (kit.unmarshal_error body)
        else if json_with rsp 500
        then map_result (λ dest. record response { json500 = some dest }) (kit.unmarshal_error body)
        else ok response

  unfoldable pub parse_list_tenant_tokens_response : HttpResponse → Result ListTenantTokensResponse
  parse_list_tenant_tokens_response rsp = do
    body ← rsp.body
    let response = empty_list_tenant_tokens rsp body
    if json_with rsp 200
        then map_result (λ dest. record response { json200 = some dest })
            (kit.unmarshal_tokens body)
        else if json_with rsp 403
        then map_result (λ dest. record response { json403 = some dest }) (kit.unmarshal_error body)
        else if json_with rsp 404
        then map_result (λ dest. record response { json404 = some dest }) (kit.unmarshal_error body)
        else if json_with rsp 500
        then map_result (λ dest. record response { json500 = some dest }) (kit.unmarshal_error body)
        else ok response

  unfoldable pub parse_create_tenant_token_response :
      HttpResponse → Result CreateTenantTokenResponse
  parse_create_tenant_token_response rsp = do
    body ← rsp.body
    let response = empty_create_tenant_token rsp body
    if json_with rsp 201
        then map_result (λ dest. record response { json201 = some dest }) (kit.unmarshal_token body)
        else if json_with rsp 400
        then map_result (λ dest. record response { json400 = some dest }) (kit.unmarshal_error body)
        else if json_with rsp 403
        then map_result (λ dest. record response { json403 = some dest }) (kit.unmarshal_error body)
        else if json_with rsp 404
        then map_result (λ dest. record response { json404 = some dest }) (kit.unmarshal_error body)
        else if json_with rsp 500
        then map_result (λ dest. record response { json500 = some dest }) (kit.unmarshal_error body)
        else ok response
