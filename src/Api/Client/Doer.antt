-- ===== src/Api/Client/Doer.antt =====
-- The generated client over two doers that agree on the requests that its editors let through.
use mathlib.Core.Path.{fun_ext}
use capi_noplane.Prelude.{String, ◌≡◌, List, [], ap, some, arith, refl}
use capi_noplane.Errors.{Result, ok, err, panic}
use capi_noplane.Errors.Monad.{◌>>=◌}
use capi_noplane.Api.Models.{CreateTenantRequest}
use capi_noplane.Api.Http.{HttpRequest, HttpRequestDoer, HttpKit}
use capi_noplane.Api.Client.{
  Client, RequestEditorFn, apply_editors, unsent, send, parsed, get_tenants_with_response,
  create_tenant_with_response, delete_tenant_with_response, get_tenant_kubeconfig_with_response,
}

module _ {W : Type 0} (kit : HttpKit) (server : String) (editors : List RequestEditorFn)
    (P : HttpRequest → Type 0)
    (edited : (req req' : HttpRequest) → apply_editors editors req ≡ ok req' → P req')
    (doer doer' : HttpRequestDoer W)
    (agree : (req : HttpRequest) (w : W) → P req → doer req w ≡ doer' req w) where
  abbrev over : HttpRequestDoer W → Client W
  over d = record { server = server; client = some d; request_editors = editors }

  sent :
      (q : Result HttpRequest) (w : W)
      → ((req : HttpRequest) → q ≡ ok req → P req)
      → unsent (some doer) q w ≡ unsent (some doer') q w
  unfolding unsent
  sent (ok req) w k = agree req w (k req refl)
  sent (err e) w k = refl
  sent panic w k = refl

  last_edit :
      (req req' : HttpRequest)
      → (do r ← apply_editors editors req; apply_editors [] r) ≡ ok req'
      → P req'
  unfolding apply_editors
  last_edit req req' h = edited req req' (ground arith)

  built_edit :
      (built : Result HttpRequest) (req' : HttpRequest)
      → (do req ← built; r ← apply_editors editors req; apply_editors [] r) ≡ ok req'
      → P req'
  built_edit (ok req) req' h = last_edit req req' h
  built_edit (err e) req' h = cc h
  built_edit panic req' h = cc h

  send_agrees :
      (built : Result HttpRequest) → send kit (over doer) [] built ≡ send kit (over doer') [] built
  unfolding send
  send_agrees built = fun_ext λ w. sent _ w (built_edit built)

  pub get_tenants_agrees :
      get_tenants_with_response kit (over doer) [] ≡ get_tenants_with_response kit (over doer') []
  unfolding get_tenants_with_response
  get_tenants_agrees = ap (parsed kit (over doer) [] _) (send_agrees _)

  pub create_tenant_agrees :
      (body : CreateTenantRequest)
      → create_tenant_with_response kit (over doer) [] body
        ≡ create_tenant_with_response kit (over doer') [] body
  unfolding create_tenant_with_response
  create_tenant_agrees body = ap (parsed kit (over doer) [] _) (send_agrees _)

  pub delete_tenant_agrees :
      (id : String)
      → delete_tenant_with_response kit (over doer) [] id
        ≡ delete_tenant_with_response kit (over doer') [] id
  unfolding delete_tenant_with_response
  delete_tenant_agrees id = ap (parsed kit (over doer) [] _) (send_agrees _)

  pub get_tenant_kubeconfig_agrees :
      (id : String)
      → get_tenant_kubeconfig_with_response kit (over doer) [] id
        ≡ get_tenant_kubeconfig_with_response kit (over doer') [] id
  unfolding get_tenant_kubeconfig_with_response
  get_tenant_kubeconfig_agrees id = ap (parsed kit (over doer) [] _) (send_agrees _)
