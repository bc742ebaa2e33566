-- ===== src/Api/Http.antt =====
-- What the package uses of net/http, net/url, encoding/json, io, strings and oapi-codegen's runtime.
-- Headers and text tests are written out; parsing, encoding and the network are unknown.
use Prim.Native.String.{len, slice}
use text.Mathlib.Text.{find?}
use capi_noplane.Prelude.{
  String, ℕ, ◌-◌, Bool, true, false, List, [], ◌∷◌, ◌++◌, Option, none, some, Dict, lookup, insert,
  ◌==◌, string_eq, ltb, if◌then◌else◌,
}
use capi_noplane.Errors.{Result}
use capi_noplane.Exec.{Op}
use capi_noplane.Types.{Bytes}
use capi_noplane.Api.Models.{
  BootstrapTokenListItem, CreateTenantRequest, CreateTokenRequest, ApiError, Tenant, KubeconfigBody,
  AvailableBody,
}

-- http.Header, under canonical keys.
abbrev pub Header : Type 0
Header = Dict String (List String)

abbrev values : String → Header → List String
values k h = elim (lookup k h) [ none ↦ [] | some vs ↦ vs ]

unfoldable pub header_get : String → Header → String
header_get k h = elim (values k h) [ [] ↦ "" | v ∷ vs ↦ v ]

unfoldable pub header_set : String → String → Header → Header
header_set k v h = insert k (v ∷ []) h

unfoldable pub header_add : String → String → Header → Header
header_add k v h = insert k (values k h ++ (v ∷ [])) h

-- strings.Contains and strings.HasSuffix
unfoldable pub contains : String → String → Bool
contains s t = elim (find? s t) [ none ↦ false | some i ↦ true ]

unfoldable pub has_suffix : String → String → Bool
has_suffix s t = if ltb (len s) (len t) then false else slice s (len s - len t) (len s) == t

pub record HttpRequest : Type 0 where
  pub method : String
  pub url : String
  pub header : Header
  pub body : Option Bytes

-- `body` is what io.ReadAll makes of the body.
pub record HttpResponse : Type 0 where
  pub status : String
  pub status_code : ℕ
  pub header : Header
  pub body : Result Bytes

-- url.URL
pub record Url : Type 0 where
  pub scheme : String
  pub host : String
  pub path : String
  pub raw_query : String

-- HttpRequestDoer
abbrev pub HttpRequestDoer : Type 0 → Type 0
HttpRequestDoer W = HttpRequest → Op W HttpResponse

pub record HttpKit : Type 0 where
  -- url.Parse, (*URL).Parse, (*URL).String
  pub parse : String → Result Url
  pub parse_reference : Url → String → Result Url
  pub url_string : Url → String
  -- http.NewRequest
  pub new_request : String → String → Option Bytes → Result HttpRequest
  -- runtime.StyleParamWithLocation("simple", false, name, ParamLocationPath, value)
  pub style_param : String → String → Result String
  -- json.Marshal
  pub marshal_create_tenant : CreateTenantRequest → Result Bytes
  pub marshal_create_token : CreateTokenRequest → Result Bytes
  -- json.Unmarshal
  pub unmarshal_tenants : Bytes → Result (List Tenant)
  pub unmarshal_tenant : Bytes → Result Tenant
  pub unmarshal_error : Bytes → Result ApiError
  pub unmarshal_kubeconfig : Bytes → Result KubeconfigBody
  pub unmarshal_available : Bytes → Result AvailableBody
  pub unmarshal_tokens : Bytes → Result (List BootstrapTokenListItem)
  pub unmarshal_token : Bytes → Result BootstrapTokenListItem
