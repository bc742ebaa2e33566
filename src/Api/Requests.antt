-- ===== src/Api/Requests.antt =====
-- The request builders.
use text.Mathlib.Text.{starts_with}
use capi_noplane.Prelude.{String, Option, none, some, ◌<>◌, if◌then◌else◌}
use capi_noplane.Errors.{Result, ok}
use capi_noplane.Errors.Monad.{◌>>=◌}
use capi_noplane.Types.{Bytes}
use capi_noplane.Api.Models.{CreateTenantRequest, CreateTokenRequest}
use capi_noplane.Api.Http.{HttpRequest, HttpKit, header_add}

module _ (kit : HttpKit) where
  -- `if operationPath[0] == '/' { operationPath = "." + operationPath }`
  relative : String → String
  relative path = if starts_with path "/" then "." <> path else path

  -- The part that the builders share: the server's URL, the path, the request.
  unfoldable pub build_request : String → String → String → Option Bytes → Result HttpRequest
  unfolding relative
  build_request method server operation_path body = do
    server_url ← kit.parse server
    query_url ← kit.parse_reference server_url (relative operation_path)
    kit.new_request method (kit.url_string query_url) body

  abbrev with_content_type : String → HttpRequest → HttpRequest
  with_content_type content_type req = record req {
    header = header_add "Content-Type" content_type req.header;
  }

  unfoldable pub new_get_tenants_request : String → Result HttpRequest
  unfolding build_request
  new_get_tenants_request server = build_request "GET" server "/tenants" none

  unfoldable pub new_create_tenant_request_with_body : String → String → Bytes → Result HttpRequest
  unfolding build_request
  new_create_tenant_request_with_body server content_type body = do
    req ← build_request "POST" server "/tenants" (some body)
    ok (with_content_type content_type req)

  unfoldable pub new_create_tenant_request : String → CreateTenantRequest → Result HttpRequest
  unfolding new_create_tenant_request_with_body
  new_create_tenant_request server body = do
    buf ← kit.marshal_create_tenant body
    new_create_tenant_request_with_body server "application/json" buf

  unfoldable pub new_validate_tenant_unique_id_request : String → String → Result HttpRequest
  unfolding build_request
  new_validate_tenant_unique_id_request server unique_id = do
    path_param ← kit.style_param "uniqueID" unique_id
    build_request "GET" server ("/tenants/validate/unique-id/" <> path_param) none

  unfoldable pub new_delete_tenant_request : String → String → Result HttpRequest
  unfolding build_request
  new_delete_tenant_request server tenant_id = do
    path_param ← kit.style_param "tenantId" tenant_id
    build_request "DELETE" server ("/tenants/" <> path_param) none

  unfoldable pub new_get_tenant_kubeconfig_request : String → String → Result HttpRequest
  unfolding build_request
  new_get_tenant_kubeconfig_request server tenant_id = do
    path_param ← kit.style_param "tenantId" tenant_id
    build_request "GET" server ("/tenants/" <> path_param <> "/kubeconfig") none

  unfoldable pub new_list_tenant_tokens_request : String → String → Result HttpRequest
  unfolding build_request
  new_list_tenant_tokens_request server tenant_id = do
    path_param ← kit.style_param "tenantId" tenant_id
    build_request "GET" server ("/tenants/" <> path_param <> "/token") none

  unfoldable pub new_create_tenant_token_request_with_body :
      String → String → String → Bytes → Result HttpRequest
  unfolding build_request
  new_create_tenant_token_request_with_body server tenant_id content_type body = do
    path_param ← kit.style_param "tenantId" tenant_id
    req ← build_request "POST" server ("/tenants/" <> path_param <> "/token") (some body)
    ok (with_content_type content_type req)

  unfoldable pub new_create_tenant_token_request :
      String → String → CreateTokenRequest → Result HttpRequest
  unfolding new_create_tenant_token_request_with_body
  new_create_tenant_token_request server tenant_id body = do
    buf ← kit.marshal_create_token body
    new_create_tenant_token_request_with_body server tenant_id "application/json" buf
