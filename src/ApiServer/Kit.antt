-- ===== src/ApiServer/Kit.antt =====
-- What the server half uses of encoding/json, context, chi and oapi-codegen's runtime, all unknown,
-- and a request as it reaches a handler.
use capi_noplane.Prelude.{String, List}
use capi_noplane.Prelude.Int.{ℤ}
use capi_noplane.Errors.{Error, Result}
use capi_noplane.Types.{Bytes}
use capi_noplane.Api.Models.{
  BootstrapTokenListItem, CreateTenantRequest, CreateTokenRequest, ApiError, Tenant, KubeconfigBody,
  AvailableBody,
}

-- `C` is the type of context.Context.
pub record ServerKit (C : Type 0) : Type 0 where
  -- context.WithValue for a list of strings
  pub with_value : C → String → List String → C
  -- chi.URLParam, and runtime.BindStyledParameterWithOptions of a required path parameter in the
  -- simple style
  pub url_param : C → String → String
  pub bind_parameter : String → String → Result String
  -- json.NewDecoder(body).Decode
  pub decode_create_tenant : Bytes → Result CreateTenantRequest
  pub decode_create_token : Bytes → Result CreateTokenRequest
  -- What the Encode method of a json.Encoder writes, or its error.
  pub encode_tenants : List Tenant → Result Bytes
  pub encode_tenant : Tenant → Result Bytes
  pub encode_error : ApiError → Result Bytes
  pub encode_kubeconfig : KubeconfigBody → Result Bytes
  pub encode_available : AvailableBody → Result Bytes
  pub encode_tokens : List BootstrapTokenListItem → Result Bytes
  pub encode_token : BootstrapTokenListItem → Result Bytes
  -- The method Error of an error of other code, and the text of an int.
  pub error_text : Error → String
  pub format_int : ℤ → String

-- *http.Request: the context and what its body yields.
pub record ServerRequest (C : Type 0) : Type 0 where
  pub context : C
  pub body : Bytes
