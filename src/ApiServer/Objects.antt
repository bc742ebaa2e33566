-- ===== src/ApiServer/Objects.antt =====
-- The request objects and the response objects: one type of responses for each operation, with one
-- constructor for each answer that the API documents, and the methods that write an answer. A type of
-- another package that has such a method is not modelled.
use capi_noplane.Prelude.{String, ℕ, List, Option, none, some, nat_eq}
use capi_noplane.Errors.{Error, Result, ok, err, panic}
use capi_noplane.Types.{Bytes}
use capi_noplane.Api.Models.{
  BootstrapTokenListItem, CreateTenantRequest, CreateTokenRequest, ApiError, Tenant, KubeconfigBody,
  AvailableBody,
}
use capi_noplane.ApiServer.Writer.{ResponseWriter, set_header, write_header, write}
use capi_noplane.ApiServer.Kit.{ServerKit}

-- The result is the `error` of the method; a panic of an encoder is not one of its results.
abbrev pub Visit : Type 0
Visit = ResponseWriter → Result (Option Error × ResponseWriter)

abbrev write_encoded : Result Bytes → Visit
write_encoded (ok bytes) w = ok (write bytes w)
write_encoded (err e) w = ok (some e, w)
write_encoded panic w = panic

-- The three lines that the methods share: the content type, the status, the encoder.
unfoldable pub send_json : ℕ → Result Bytes → Visit
unfolding write_header write
send_json status encoded w =
    write_encoded encoded (write_header status (set_header "Content-Type" "application/json" w))

pub data GetTenantsRequestObject : Type 0 where
  no_parameters : GetTenantsRequestObject

pub record CreateTenantRequestObject : Type 0 where
  pub body : Option CreateTenantRequest

pub record ValidateTenantUniqueIdRequestObject : Type 0 where
  pub unique_id : String

pub record DeleteTenantRequestObject : Type 0 where
  pub tenant_id : String

pub record GetTenantKubeconfigRequestObject : Type 0 where
  pub tenant_id : String

pub record ListTenantTokensRequestObject : Type 0 where
  pub tenant_id : String

pub record CreateTenantTokenRequestObject : Type 0 where
  pub tenant_id : String
  pub body : Option CreateTokenRequest

pub data GetTenantsResponseObject : Type 0 where
  get_tenants200 : List Tenant → GetTenantsResponseObject
  get_tenants500 : ApiError → GetTenantsResponseObject

pub data CreateTenantResponseObject : Type 0 where
  create_tenant201 : Tenant → CreateTenantResponseObject
  create_tenant400 : ApiError → CreateTenantResponseObject
  create_tenant403 : ApiError → CreateTenantResponseObject
  create_tenant500 : ApiError → CreateTenantResponseObject

pub data ValidateTenantUniqueIdResponseObject : Type 0 where
  validate_tenant_unique_id200 : AvailableBody → ValidateTenantUniqueIdResponseObject
  validate_tenant_unique_id400 : ApiError → ValidateTenantUniqueIdResponseObject
  validate_tenant_unique_id500 : ApiError → ValidateTenantUniqueIdResponseObject

pub data DeleteTenantResponseObject : Type 0 where
  delete_tenant204 : DeleteTenantResponseObject
  delete_tenant400 : ApiError → DeleteTenantResponseObject
  delete_tenant403 : ApiError → DeleteTenantResponseObject
  delete_tenant404 : ApiError → DeleteTenantResponseObject
  delete_tenant500 : ApiError → DeleteTenantResponseObject

pub data GetTenantKubeconfigResponseObject : Type 0 where
  get_tenant_kubeconfig200 : KubeconfigBody → GetTenantKubeconfigResponseObject
  get_tenant_kubeconfig400 : ApiError → GetTenantKubeconfigResponseObject
  get_tenant_kubeconfig403 : ApiError → GetTenantKubeconfigResponseObject
  get_tenant_kubeconfig404 : ApiError → GetTenantKubeconfigResponseObject
  get_tenant_kubeconfig500 : ApiError → GetTenantKubeconfigResponseObject

pub data ListTenantTokensResponseObject : Type 0 where
  list_tenant_tokens200 : List BootstrapTokenListItem → ListTenantTokensResponseObject
  list_tenant_tokens403 : ApiError → ListTenantTokensResponseObject
  list_tenant_tokens404 : ApiError → ListTenantTokensResponseObject
  list_tenant_tokens500 : ApiError → ListTenantTokensResponseObject

pub data CreateTenantTokenResponseObject : Type 0 where
  create_tenant_token201 : BootstrapTokenListItem → CreateTenantTokenResponseObject
  create_tenant_token400 : ApiError → CreateTenantTokenResponseObject
  create_tenant_token403 : ApiError → CreateTenantTokenResponseObject
  create_tenant_token404 : ApiError → CreateTenantTokenResponseObject
  create_tenant_token500 : ApiError → CreateTenantTokenResponseObject

module _ {C : Type 0} (kit : ServerKit C) where
  unfoldable pub visit_get_tenants_response : GetTenantsResponseObject → Visit
  visit_get_tenants_response (get_tenants200 x) w = send_json 200 (kit.encode_tenants x) w
  visit_get_tenants_response (get_tenants500 x) w = send_json 500 (kit.encode_error x) w

  unfoldable pub visit_create_tenant_response : CreateTenantResponseObject → Visit
  visit_create_tenant_response (create_tenant201 x) w = send_json 201 (kit.encode_tenant x) w
  visit_create_tenant_response (create_tenant400 x) w = send_json 400 (kit.encode_error x) w
  visit_create_tenant_response (create_tenant403 x) w = send_json 403 (kit.encode_error x) w
  visit_create_tenant_response (create_tenant500 x) w = send_json 500 (kit.encode_error x) w

  unfoldable pub visit_validate_tenant_unique_id_response :
      ValidateTenantUniqueIdResponseObject → Visit
  visit_validate_tenant_unique_id_response (validate_tenant_unique_id200 x) w =
      send_json 200 (kit.encode_available x) w
  visit_validate_tenant_unique_id_response (validate_tenant_unique_id400 x) w =
      send_json 400 (kit.encode_error x) w
  visit_validate_tenant_unique_id_response (validate_tenant_unique_id500 x) w =
      send_json 500 (kit.encode_error x) w

  unfoldable pub visit_delete_tenant_response : DeleteTenantResponseObject → Visit
  unfolding write_header
  visit_delete_tenant_response delete_tenant204 w = ok (none, write_header 204 w)
  visit_delete_tenant_response (delete_tenant400 x) w = send_json 400 (kit.encode_error x) w
  visit_delete_tenant_response (delete_tenant403 x) w = send_json 403 (kit.encode_error x) w
  visit_delete_tenant_response (delete_tenant404 x) w = send_json 404 (kit.encode_error x) w
  visit_delete_tenant_response (delete_tenant500 x) w = send_json 500 (kit.encode_error x) w

  unfoldable pub visit_get_tenant_kubeconfig_response : GetTenantKubeconfigResponseObject → Visit
  visit_get_tenant_kubeconfig_response (get_tenant_kubeconfig200 x) w =
      send_json 200 (kit.encode_kubeconfig x) w
  visit_get_tenant_kubeconfig_response (get_tenant_kubeconfig400 x) w =
      send_json 400 (kit.encode_error x) w
  visit_get_tenant_kubeconfig_response (get_tenant_kubeconfig403 x) w =
      send_json 403 (kit.encode_error x) w
  visit_get_tenant_kubeconfig_response (get_tenant_kubeconfig404 x) w =
      send_json 404 (kit.encode_error x) w
  visit_get_tenant_kubeconfig_response (get_tenant_kubeconfig500 x) w =
      send_json 500 (kit.encode_error x) w

  unfoldable pub visit_list_tenant_tokens_response : ListTenantTokensResponseObject → Visit
  visit_list_tenant_tokens_response (list_tenant_tokens200 x) w =
      send_json 200 (kit.encode_tokens x) w
  visit_list_tenant_tokens_response (list_tenant_tokens403 x) w =
      send_json 403 (kit.encode_error x) w
  visit_list_tenant_tokens_response (list_tenant_tokens404 x) w =
      send_json 404 (kit.encode_error x) w
  visit_list_tenant_tokens_response (list_tenant_tokens500 x) w =
      send_json 500 (kit.encode_error x) w

  unfoldable pub visit_create_tenant_token_response : CreateTenantTokenResponseObject → Visit
  visit_create_tenant_token_response (create_tenant_token201 x) w =
      send_json 201 (kit.encode_token x) w
  visit_create_tenant_token_response (create_tenant_token400 x) w =
      send_json 400 (kit.encode_error x) w
  visit_create_tenant_token_response (create_tenant_token403 x) w =
      send_json 403 (kit.encode_error x) w
  visit_create_tenant_token_response (create_tenant_token404 x) w =
      send_json 404 (kit.encode_error x) w
  visit_create_tenant_token_response (create_tenant_token500 x) w =
      send_json 500 (kit.encode_error x) w
