-- ===== src/ApiServer/Wrapper.antt =====
-- The server interface over HTTP: the implementation that answers 501, the strict server as an
-- implementation, and the wrapper that binds path parameters, adds the scopes to the context and
-- applies the middlewares.
use capi_noplane.Prelude.{String, List, [], ◌∷◌}
use capi_noplane.Exec.{Caught, returned, raised, lift, attempt, ◌>>=◌}
use capi_noplane.ApiServer.Writer.{write_header}
use capi_noplane.ApiServer.Kit.{ServerKit, ServerRequest}
use capi_noplane.ApiServer.ParamErrors.{about_param, invalid_param_format}
use capi_noplane.ApiServer.Chain.{Handling, StrictHandler, ErrorHandlerFunc, write_with}
use capi_noplane.ApiServer.Strict.{
  strict_get_tenants, strict_create_tenant, strict_validate_tenant_unique_id, strict_delete_tenant,
  strict_get_tenant_kubeconfig, strict_list_tenant_tokens, strict_create_tenant_token,
}

-- http.Handler, and MiddlewareFunc
abbrev pub HttpHandler : Type 0 → Type 0 → Type 0
HttpHandler W C = ServerRequest C → Handling W (Unit {0})

abbrev pub MiddlewareFunc : Type 0 → Type 0 → Type 0
MiddlewareFunc W C = HttpHandler W C → HttpHandler W C

pub record ServerInterface (W C : Type 0) : Type 0 where
  pub get_tenants : ServerRequest C → Handling W (Unit {0})
  pub create_tenant : ServerRequest C → Handling W (Unit {0})
  pub validate_tenant_unique_id : ServerRequest C → String → Handling W (Unit {0})
  pub delete_tenant : ServerRequest C → String → Handling W (Unit {0})
  pub get_tenant_kubeconfig : ServerRequest C → String → Handling W (Unit {0})
  pub list_tenant_tokens : ServerRequest C → String → Handling W (Unit {0})
  pub create_tenant_token : ServerRequest C → String → Handling W (Unit {0})

pub record ServerInterfaceWrapper (W C : Type 0) : Type 0 where
  pub handler : ServerInterface W C
  pub handler_middlewares : List (MiddlewareFunc W C)
  pub error_handler_func : ErrorHandlerFunc W C

abbrev pub bearer_auth_scopes : String
bearer_auth_scopes = "BearerAuth.Scopes"

not_implemented : {W : Type 0} → Handling W (Unit {0})
unfolding write_header
not_implemented = write_with (write_header 501)

with_scopes : {C : Type 0} → ServerKit C → ServerRequest C → ServerRequest C
with_scopes kit r = record r { context = kit.with_value r.context bearer_auth_scopes [] }

module _ {W C : Type 0} where
  unfoldable pub unimplemented : ServerInterface W C
  unfolding not_implemented
  unimplemented = record {
    get_tenants = λ r. not_implemented;
    create_tenant = λ r. not_implemented;
    validate_tenant_unique_id = λ r unique_id. not_implemented;
    delete_tenant = λ r tenant_id. not_implemented;
    get_tenant_kubeconfig = λ r tenant_id. not_implemented;
    list_tenant_tokens = λ r tenant_id. not_implemented;
    create_tenant_token = λ r tenant_id. not_implemented;
  }

  -- `for _, middleware := range siw.HandlerMiddlewares { handler = middleware(handler) }`
  unfoldable pub through_http : List (MiddlewareFunc W C) → HttpHandler W C → HttpHandler W C
  through_http [] handler = handler
  through_http (middleware ∷ rest) handler = through_http rest (middleware handler)

  module _ (kit : ServerKit C) where
    -- The strict server is an implementation.
    unfoldable pub strict_interface : StrictHandler W C → ServerInterface W C
    strict_interface sh = record {
      get_tenants = strict_get_tenants kit sh;
      create_tenant = strict_create_tenant kit sh;
      validate_tenant_unique_id = strict_validate_tenant_unique_id kit sh;
      delete_tenant = strict_delete_tenant kit sh;
      get_tenant_kubeconfig = strict_get_tenant_kubeconfig kit sh;
      list_tenant_tokens = strict_list_tenant_tokens kit sh;
      create_tenant_token = strict_create_tenant_token kit sh;
    }

    module _ (siw : ServerInterfaceWrapper W C) where
      serve : HttpHandler W C → HttpHandler W C
      unfolding with_scopes
      serve handler r = through_http siw.handler_middlewares handler (with_scopes kit r)

      with_parameter :
          String
          → (String → HttpHandler W C)
          → ServerRequest C
          → Caught String
          → Handling W (Unit {0})
      unfolding serve
      with_parameter name handler r (raised e) =
          siw.error_handler_func r (about_param (invalid_param_format name e))
      with_parameter name handler r (returned value) = serve (handler value) r

      unfoldable pub wrapped_get_tenants : HttpHandler W C
      unfolding serve
      wrapped_get_tenants r = serve siw.handler.get_tenants r

      unfoldable pub wrapped_create_tenant : HttpHandler W C
      unfolding serve
      wrapped_create_tenant r = serve siw.handler.create_tenant r

      unfoldable pub wrapped_validate_tenant_unique_id : HttpHandler W C
      unfolding with_parameter
      wrapped_validate_tenant_unique_id r = do
        unique_id ←
            attempt (lift (kit.bind_parameter "uniqueID" (kit.url_param r.context "uniqueID")))
        with_parameter "uniqueID"
            (λ unique_id r'. siw.handler.validate_tenant_unique_id r' unique_id) r unique_id

      unfoldable pub wrapped_delete_tenant : HttpHandler W C
      unfolding with_parameter
      wrapped_delete_tenant r = do
        tenant_id ←
            attempt (lift (kit.bind_parameter "tenantId" (kit.url_param r.context "tenantId")))
        with_parameter "tenantId" (λ tenant_id r'. siw.handler.delete_tenant r' tenant_id) r
            tenant_id

      unfoldable pub wrapped_get_tenant_kubeconfig : HttpHandler W C
      unfolding with_parameter
      wrapped_get_tenant_kubeconfig r = do
        tenant_id ←
            attempt (lift (kit.bind_parameter "tenantId" (kit.url_param r.context "tenantId")))
        with_parameter "tenantId" (λ tenant_id r'. siw.handler.get_tenant_kubeconfig r' tenant_id) r
            tenant_id

      unfoldable pub wrapped_list_tenant_tokens : HttpHandler W C
      unfolding with_parameter
      wrapped_list_tenant_tokens r = do
        tenant_id ←
            attempt (lift (kit.bind_parameter "tenantId" (kit.url_param r.context "tenantId")))
        with_parameter "tenantId" (λ tenant_id r'. siw.handler.list_tenant_tokens r' tenant_id) r
            tenant_id

      unfoldable pub wrapped_create_tenant_token : HttpHandler W C
      unfolding with_parameter
      wrapped_create_tenant_token r = do
        tenant_id ←
            attempt (lift (kit.bind_parameter "tenantId" (kit.url_param r.context "tenantId")))
        with_parameter "tenantId" (λ tenant_id r'. siw.handler.create_tenant_token r' tenant_id) r
            tenant_id
