-- ===== src/Api/Responses.antt =====
-- The response types: one field for each status code that the API documents.
use capi_noplane.Prelude.{String, ℕ, List, Option, none, some, nat_eq}
use capi_noplane.Types.{Bytes}
use capi_noplane.Api.Models.{
  BootstrapTokenListItem, ApiError, Tenant, KubeconfigBody, AvailableBody,
}
use capi_noplane.Api.Http.{HttpResponse}

-- The methods StatusCode and Status of the responses; http.StatusText(0) is empty.
unfoldable pub status_code : Option HttpResponse → ℕ
status_code none = 0
status_code (some rsp) = rsp.status_code

unfoldable pub status_text : Option HttpResponse → String
status_text none = ""
status_text (some rsp) = rsp.status

pub record GetTenantsResponse : Type 0 where
  pub body : Bytes
  pub http_response : Option HttpResponse
  pub json200 : Option (List Tenant)
  pub json500 : Option ApiError

abbrev pub empty_get_tenants : HttpResponse → Bytes → GetTenantsResponse
empty_get_tenants rsp body = record {
  body = body;
  http_response = some rsp;
  json200 = none;
  json500 = none;
}

pub record CreateTenantResponse : Type 0 where
  pub body : Bytes
  pub http_response : Option HttpResponse
  pub json201 : Option Tenant
  pub json400 : Option ApiError
  pub json403 : Option ApiError
  pub json500 : Option ApiError

abbrev pub empty_create_tenant : HttpResponse → Bytes → CreateTenantResponse
empty_create_tenant rsp body = record {
  body = body;
  http_response = some rsp;
  json201 = none;
  json400 = none;
  json403 = none;
  json500 = none;
}

pub record ValidateTenantUniqueIdResponse : Type 0 where
  pub body : Bytes
  pub http_response : Option HttpResponse
  pub json200 : Option AvailableBody
  pub json400 : Option ApiError
  pub json500 : Option ApiError

abbrev pub empty_validate_tenant_unique_id : HttpResponse → Bytes → ValidateTenantUniqueIdResponse
empty_validate_tenant_unique_id rsp body = record {
  body = body;
  http_response = some rsp;
  json200 = none;
  json400 = none;
  json500 = none;
}

pub record DeleteTenantResponse : Type 0 where
  pub body : Bytes
  pub http_response : Option HttpResponse
  pub json400 : Option ApiError
  pub json403 : Option ApiError
  pub json404 : Option ApiError
  pub json500 : Option ApiError

abbrev pub empty_delete_tenant : HttpResponse → Bytes → DeleteTenantResponse
empty_delete_tenant rsp body = record {
  body = body;
  http_response = some rsp;
  json400 = none;
  json403 = none;
  json404 = none;
  json500 = none;
}

pub record GetTenantKubeconfigResponse : Type 0 where
  pub body : Bytes
  pub http_response : Option HttpResponse
  pub json200 : Option KubeconfigBody
  pub json400 : Option ApiError
  pub json403 : Option ApiError
  pub json404 : Option ApiError
  pub json500 : Option ApiError

abbrev pub empty_get_tenant_kubeconfig : HttpResponse → Bytes → GetTenantKubeconfigResponse
empty_get_tenant_kubeconfig rsp body = record {
  body = body;
  http_response = some rsp;
  json200 = none;
  json400 = none;
  json403 = none;
  json404 = none;
  json500 = none;
}

pub record ListTenantTokensResponse : Type 0 where
  pub body : Bytes
  pub http_response : Option HttpResponse
  pub json200 : Option (List BootstrapTokenListItem)
  pub json403 : Option ApiError
  pub json404 : Option ApiError
  pub json500 : Option ApiError

abbrev pub empty_list_tenant_tokens : HttpResponse → Bytes → ListTenantTokensResponse
empty_list_tenant_tokens rsp body = record {
  body = body;
  http_response = some rsp;
  json200 = none;
  json403 = none;
  json404 = none;
  json500 = none;
}

pub record CreateTenantTokenResponse : Type 0 where
  pub body : Bytes
  pub http_response : Option HttpResponse
  pub json201 : Option BootstrapTokenListItem
  pub json400 : Option ApiError
  pub json403 : Option ApiError
  pub json404 : Option ApiError
  pub json500 : Option ApiError

abbrev pub empty_create_tenant_token : HttpResponse → Bytes → CreateTenantTokenResponse
empty_create_tenant_token rsp body = record {
  body = body;
  http_response = some rsp;
  json201 = none;
  json400 = none;
  json403 = none;
  json404 = none;
  json500 = none;
}
