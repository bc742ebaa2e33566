-- ===== src/Api/Client.antt =====
-- Client, its options, and ClientWithResponses: a request is built, passed through the editors, sent,
-- and the answer parsed.
pub mod Doer
use capi_noplane.Prelude.{String, List, [], ◌∷◌, ◌++◌, ◌<>◌, Option, none, some, if◌then◌else◌}
use capi_noplane.Errors.{Result, ok, err, panic}
use capi_noplane.Errors.Monad.{◌>>=◌}
use capi_noplane.Exec.{Op}
use capi_noplane.Types.{Bytes}
use capi_noplane.Api.Models.{CreateTenantRequest, CreateTokenRequest}
use capi_noplane.Api.Http.{HttpRequest, HttpResponse, HttpRequestDoer, HttpKit, has_suffix}
use capi_noplane.Api.Requests.{
  new_get_tenants_request, new_create_tenant_request_with_body, new_create_tenant_request,
  new_validate_tenant_unique_id_request, new_delete_tenant_request,
  new_get_tenant_kubeconfig_request, new_list_tenant_tokens_request,
  new_create_tenant_token_request_with_body, new_create_tenant_token_request,
}
use capi_noplane.Api.Responses.{
  GetTenantsResponse, CreateTenantResponse, ValidateTenantUniqueIdResponse, DeleteTenantResponse,
  GetTenantKubeconfigResponse, ListTenantTokensResponse, CreateTenantTokenResponse,
}
use capi_noplane.Api.Parse.{
  parse_get_tenants_response, parse_create_tenant_response,
  parse_validate_tenant_unique_id_response, parse_delete_tenant_response,
  parse_get_tenant_kubeconfig_response, parse_list_tenant_tokens_response,
  parse_create_tenant_token_response,
}

-- A request editor changes the request or fails.
abbrev pub RequestEditorFn : Type 0
RequestEditorFn = HttpRequest → Result HttpRequest

pub record Client (W : Type 0) : Type 0 where
  pub server : String
  pub client : Option (HttpRequestDoer W)
  pub request_editors : List RequestEditorFn

abbrev pub ClientOption : Type 0 → Type 0
ClientOption W = Client W → Result (Client W)

-- Both loops of `applyEditors`.
unfoldable pub apply_editors : List RequestEditorFn → RequestEditorFn
apply_editors [] req = ok req
apply_editors (edit ∷ rest) req = do edited ← edit req; apply_editors rest edited

apply_options : {W : Type 0} → List (ClientOption W) → ClientOption W
apply_options [] c = ok c
apply_options (option ∷ rest) c = do c' ← option c; apply_options rest c'

unfoldable pub with_http_client : {W : Type 0} → HttpRequestDoer W → ClientOption W
with_http_client doer c = ok (record c { client = some doer })

unfoldable pub with_request_editor_fn : {W : Type 0} → RequestEditorFn → ClientOption W
with_request_editor_fn fn c = ok (record c { request_editors = c.request_editors ++ (fn ∷ []) })

unfoldable pub with_base_url : {W : Type 0} → HttpKit → String → ClientOption W
with_base_url kit base_url c = do
  new_base_url ← kit.parse base_url
  ok (record c { server = kit.url_string new_base_url })

-- A trailing slash, and the standard client where no other is set.
completed : {W : Type 0} → HttpRequestDoer W → Client W → Client W
completed standard c = record c {
  server = if has_suffix c.server "/" then c.server else c.server <> "/";
  client = elim c.client [ none ↦ some standard | some doer ↦ some doer ];
}

-- `standard` is &http.Client{}.
unfoldable pub new_client :
    {W : Type 0} → HttpRequestDoer W → String → List (ClientOption W) → Result (Client W)
unfolding apply_options completed
new_client standard server options = do
  c ← apply_options options (record { server = server; client = none; request_editors = [] })
  ok (completed standard c)

-- NewClientWithResponses wraps the client and adds nothing to it.
unfoldable pub new_client_with_responses :
    {W : Type 0} → HttpRequestDoer W → String → List (ClientOption W) → Result (Client W)
unfolding new_client
new_client_with_responses standard server options = new_client standard server options

-- A nil doer is a nil pointer dereference.
send_with : {W : Type 0} → Option (HttpRequestDoer W) → HttpRequest → Op W HttpResponse
send_with none req w = (panic, w)
send_with (some doer) req w = doer req w

unsent : {W : Type 0} → Option (HttpRequestDoer W) → Result HttpRequest → Op W HttpResponse
unfolding send_with
unsent doer (ok req) w = send_with doer req w
unsent doer (err e) w = (err e, w)
unsent doer panic w = (panic, w)

module _ {W : Type 0} (kit : HttpKit) (c : Client W) (req_editors : List RequestEditorFn) where
  -- The part that the operations share.
  send : Result HttpRequest → Op W HttpResponse
  unfolding unsent apply_editors
  send built w =
      unsent c.client
        (do req ← built; req' ← apply_editors c.request_editors req; apply_editors req_editors req')
        w

  parsed : {A : Type 0} → (HttpResponse → Result A) → Op W HttpResponse → Op W A
  parsed parse m w = let (rsp, w') = m w in (rsp >>= parse, w')

  unfoldable pub get_tenants : Op W HttpResponse
  unfolding send
  get_tenants = send (new_get_tenants_request kit c.server)

  unfoldable pub create_tenant : CreateTenantRequest → Op W HttpResponse
  unfolding send
  create_tenant body = send (new_create_tenant_request kit c.server body)

  unfoldable pub validate_tenant_unique_id : String → Op W HttpResponse
  unfolding send
  validate_tenant_unique_id unique_id =
      send (new_validate_tenant_unique_id_request kit c.server unique_id)

  unfoldable pub delete_tenant : String → Op W HttpResponse
  unfolding send
  delete_tenant tenant_id = send (new_delete_tenant_request kit c.server tenant_id)

  unfoldable pub get_tenant_kubeconfig : String → Op W HttpResponse
  unfolding send
  get_tenant_kubeconfig tenant_id = send (new_get_tenant_kubeconfig_request kit c.server tenant_id)

  unfoldable pub list_tenant_tokens : String → Op W HttpResponse
  unfolding send
  list_tenant_tokens tenant_id = send (new_list_tenant_tokens_request kit c.server tenant_id)

  unfoldable pub create_tenant_with_body : String → Bytes → Op W HttpResponse
  unfolding send
  create_tenant_with_body content_type body =
      send (new_create_tenant_request_with_body kit c.server content_type body)

  unfoldable pub create_tenant_token_with_body : String → String → Bytes → Op W HttpResponse
  unfolding send
  create_tenant_token_with_body tenant_id content_type body =
      send (new_create_tenant_token_request_with_body kit c.server tenant_id content_type body)

  unfoldable pub create_tenant_token : String → CreateTokenRequest → Op W HttpResponse
  unfolding send
  create_tenant_token tenant_id body =
      send (new_create_tenant_token_request kit c.server tenant_id body)

  unfoldable pub get_tenants_with_response : Op W GetTenantsResponse
  unfolding parsed get_tenants
  get_tenants_with_response = parsed (parse_get_tenants_response kit) (get_tenants)

  unfoldable pub create_tenant_with_response : CreateTenantRequest → Op W CreateTenantResponse
  unfolding parsed create_tenant
  create_tenant_with_response body = parsed (parse_create_tenant_response kit) (create_tenant body)

  unfoldable pub validate_tenant_unique_id_with_response :
      String → Op W ValidateTenantUniqueIdResponse
  unfolding parsed validate_tenant_unique_id
  validate_tenant_unique_id_with_response unique_id =
      parsed (parse_validate_tenant_unique_id_response kit) (validate_tenant_unique_id unique_id)

  unfoldable pub delete_tenant_with_response : String → Op W DeleteTenantResponse
  unfolding parsed delete_tenant
  delete_tenant_with_response tenant_id =
      parsed (parse_delete_tenant_response kit) (delete_tenant tenant_id)

  unfoldable pub get_tenant_kubeconfig_with_response : String → Op W GetTenantKubeconfigResponse
  unfolding parsed get_tenant_kubeconfig
  get_tenant_kubeconfig_with_response tenant_id =
      parsed (parse_get_tenant_kubeconfig_response kit) (get_tenant_kubeconfig tenant_id)

  unfoldable pub list_tenant_tokens_with_response : String → Op W ListTenantTokensResponse
  unfolding parsed list_tenant_tokens
  list_tenant_tokens_with_response tenant_id =
      parsed (parse_list_tenant_tokens_response kit) (list_tenant_tokens tenant_id)

  unfoldable pub create_tenant_with_body_with_response : String → Bytes → Op W CreateTenantResponse
  unfolding parsed create_tenant_with_body
  create_tenant_with_body_with_response content_type body =
      parsed (parse_create_tenant_response kit) (create_tenant_with_body content_type body)

  unfoldable pub create_tenant_token_with_body_with_response :
      String → String → Bytes → Op W CreateTenantTokenResponse
  unfolding parsed create_tenant_token_with_body
  create_tenant_token_with_body_with_response tenant_id content_type body =
      parsed (parse_create_tenant_token_response kit)
        (create_tenant_token_with_body tenant_id content_type body)

  unfoldable pub create_tenant_token_with_response :
      String → CreateTokenRequest → Op W CreateTenantTokenResponse
  unfolding parsed create_tenant_token
  create_tenant_token_with_response tenant_id body =
      parsed (parse_create_tenant_token_response kit) (create_tenant_token tenant_id body)
