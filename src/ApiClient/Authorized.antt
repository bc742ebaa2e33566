-- ===== src/ApiClient/Authorized.antt =====
-- internal/api/noplane/client.go: NewClient and the credentials of its requests.
use mathlib.Core.Path.{fun_ext}
use capi_noplane.Prelude.{
  String, ◌<>◌, ◌≡◌, [], ◌∷◌, some, ap, ◌∙◌, sym, refl, arith, string_eq, lookup-insert,
}
use capi_noplane.Errors.{ok}
use capi_noplane.Api.Http.{
  HttpRequest, HttpRequestDoer, HttpKit, header_get, header_set, has_suffix,
}
use capi_noplane.Api.Client.{Client, apply_editors, with_request_editor_fn}
use capi_noplane.Api.Client.Doer.{
  get_tenants_agrees, create_tenant_agrees, delete_tenant_agrees, get_tenant_kubeconfig_agrees,
}
use capi_noplane.ApiClient.{
  authorize, noplane_client, client_interface, answered, tenant_request, client_update_plane,
  client_create_plane, list_tenants, client_get_plane, client_get_plane_by_name,
  client_delete_plane, client_get_kubeconfig,
}

abbrev pub IsAuthorized : String → HttpRequest → Type 0
IsAuthorized api_key req = header_get "Authorization" req.header ≡ "Bearer " <> api_key

module _ (api_key : String) where
  edited :
      (req req' : HttpRequest)
      → apply_editors (authorize api_key ∷ []) req ≡ ok req'
      → IsAuthorized api_key req'
  unfolding apply_editors authorize header_get header_set
  edited req req' h =
      ground (arith, lookup-insert "Authorization" (("Bearer " <> api_key) ∷ []) req.header)

  abbrev pub live : {W : Type 0} → HttpRequestDoer W → Client W
  live doer = record {
    server = "https://api.noplane.io/api/v1/";
    client = some doer;
    request_editors = authorize api_key ∷ [];
  }

  module _ {W : Type 0} (kit : HttpKit) where
    noplane_client-ok :
        (doer : HttpRequestDoer W)
        → noplane_client kit doer api_key ≡ ok (client_interface kit (live doer))
    unfolding noplane_client with_request_editor_fn has_suffix
    noplane_client-ok doer = refl

    module _ (doer doer' : HttpRequestDoer W)
        (agree : (req : HttpRequest) (w : W)
          → IsAuthorized api_key req
          → doer req w ≡ doer' req w) where
      created : client_create_plane kit (live doer) ≡ client_create_plane kit (live doer')
      unfolding client_create_plane
      created = fun_ext λ req. ap (answered _) (
          create_tenant_agrees kit "https://api.noplane.io/api/v1/" (authorize api_key ∷ [])
            (IsAuthorized api_key) edited doer doer' agree (tenant_request req))

      listed : list_tenants kit (live doer) ≡ list_tenants kit (live doer')
      unfolding list_tenants
      listed = ap (answered _) (
          get_tenants_agrees kit "https://api.noplane.io/api/v1/" (authorize api_key ∷ [])
            (IsAuthorized api_key) edited doer doer' agree)

      got : client_get_plane kit (live doer) ≡ client_get_plane kit (live doer')
      unfolding client_get_plane
      got = fun_ext λ id. ap (answered _) listed

      got_by_name :
          client_get_plane_by_name kit (live doer) ≡ client_get_plane_by_name kit (live doer')
      unfolding client_get_plane_by_name
      got_by_name = fun_ext λ name. ap (answered _) listed

      removed : client_delete_plane kit (live doer) ≡ client_delete_plane kit (live doer')
      unfolding client_delete_plane
      removed = fun_ext λ id. ap (answered _) (
          delete_tenant_agrees kit "https://api.noplane.io/api/v1/" (authorize api_key ∷ [])
            (IsAuthorized api_key) edited doer doer' agree id)

      fetched : client_get_kubeconfig kit (live doer) ≡ client_get_kubeconfig kit (live doer')
      unfolding client_get_kubeconfig
      fetched = fun_ext λ id. ap (answered _) (
          get_tenant_kubeconfig_agrees kit "https://api.noplane.io/api/v1/" (authorize api_key ∷ [])
            (IsAuthorized api_key) edited doer doer' agree id)

      updated : client_update_plane kit (live doer) ≡ client_update_plane kit (live doer')
      unfolding client_update_plane
      updated = refl

      interfaces : client_interface kit (live doer) ≡ client_interface kit (live doer')
      unfolding client_interface
      interfaces = λ i. record {
        create_plane = created i;
        get_plane = got i;
        get_plane_by_name = got_by_name i;
        update_plane = updated i;
        delete_plane = removed i;
        get_kubeconfig = fetched i;
      }

    -- The client sends no request without its API key: if two doers answer alike every request whose
    -- Authorization header is "Bearer " and the key, the clients over them are equal, and there is a
    -- client over each.
    pub noplane_client_authorized :
        (doer doer' : HttpRequestDoer W)
        → ((req : HttpRequest) (w : W) → IsAuthorized api_key req → doer req w ≡ doer' req w)
        → (noplane_client kit doer api_key ≡ noplane_client kit doer' api_key)
          × (noplane_client kit doer api_key ≡ ok (client_interface kit (live doer)))
    noplane_client_authorized doer doer' agree = (
      noplane_client-ok doer ∙ ap ok (interfaces doer doer' agree) ∙ sym (noplane_client-ok doer'),
      noplane_client-ok doer,
    )
