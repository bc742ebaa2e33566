-- ===== src/ApiServer/Strict.antt =====
-- The strict server: the implementation works on decoded requests and on response objects, and each
-- handler decodes the request, passes it through the middlewares to the implementation, and writes
-- what comes back.
use capi_noplane.Prelude.{String, ℕ, List, [], Option, none, some}
use capi_noplane.Errors.{panic, wrap}
use capi_noplane.Exec.{Caught, returned, raised, pure, lift, call, attempt, ◌>>=◌}
use capi_noplane.Api.Models.{CreateTenantRequest, CreateTokenRequest}
use capi_noplane.ApiServer.Writer.{http_error}
use capi_noplane.ApiServer.Kit.{ServerKit, ServerRequest}
use capi_noplane.ApiServer.ParamErrors.{plain, server_error_text}
use capi_noplane.ApiServer.Objects.{
  Visit, no_parameters, visit_get_tenants_response, visit_create_tenant_response,
  visit_validate_tenant_unique_id_response, visit_delete_tenant_response,
  visit_get_tenant_kubeconfig_response, visit_list_tenant_tokens_response,
  visit_create_tenant_token_response,
}
use capi_noplane.ApiServer.Chain.{
  Request, Response, nil, Handling, StrictServerInterface, StrictHandlerFunc, StrictMiddlewareFunc,
  ErrorHandlerFunc, StrictHttpServerOptions, StrictHandler, on_world, write_with, through, respond,
}

-- The type assertions of the handlers on a response.
module _ {C : Type 0} (kit : ServerKit C) where
  unfoldable pub as_get_tenants : Response → Option Visit
  as_get_tenants (Response.get_tenants x) = some (visit_get_tenants_response kit x)
  as_get_tenants _ = none

  unfoldable pub as_create_tenant : Response → Option Visit
  as_create_tenant (Response.create_tenant x) = some (visit_create_tenant_response kit x)
  as_create_tenant _ = none

  unfoldable pub as_validate_tenant_unique_id : Response → Option Visit
  as_validate_tenant_unique_id (Response.validate_tenant_unique_id x) =
      some (visit_validate_tenant_unique_id_response kit x)
  as_validate_tenant_unique_id _ = none

  unfoldable pub as_delete_tenant : Response → Option Visit
  as_delete_tenant (Response.delete_tenant x) = some (visit_delete_tenant_response kit x)
  as_delete_tenant _ = none

  unfoldable pub as_get_tenant_kubeconfig : Response → Option Visit
  as_get_tenant_kubeconfig (Response.get_tenant_kubeconfig x) =
      some (visit_get_tenant_kubeconfig_response kit x)
  as_get_tenant_kubeconfig _ = none

  unfoldable pub as_list_tenant_tokens : Response → Option Visit
  as_list_tenant_tokens (Response.list_tenant_tokens x) =
      some (visit_list_tenant_tokens_response kit x)
  as_list_tenant_tokens _ = none

  unfoldable pub as_create_tenant_token : Response → Option Visit
  as_create_tenant_token (Response.create_tenant_token x) =
      some (visit_create_tenant_token_response kit x)
  as_create_tenant_token _ = none

module _ {W C : Type 0} (kit : ServerKit C) where
  -- http.Error with the text of the error
  abbrev pub plain_error : ℕ → ErrorHandlerFunc W C
  plain_error status r e = write_with (http_error (server_error_text kit e) status)

  unfoldable pub new_strict_handler :
      StrictServerInterface W C → List (StrictMiddlewareFunc W C) → StrictHandler W C
  new_strict_handler ssi middlewares = record {
    ssi = ssi;
    middlewares = middlewares;
    options = record {
      request_error_handler_func = plain_error 400;
      response_error_handler_func = plain_error 500;
    };
  }

  unfoldable pub new_strict_handler_with_options :
      StrictServerInterface W C
      → List (StrictMiddlewareFunc W C)
      → StrictHttpServerOptions W C
      → StrictHandler W C
  new_strict_handler_with_options ssi middlewares options = record {
    ssi = ssi;
    middlewares = middlewares;
    options = options;
  }

  module _ (sh : StrictHandler W C) where
    unfoldable pub call_get_tenants : StrictHandlerFunc W C
    call_get_tenants ctx r (Request.get_tenants x) = do
      response ← call (Request.get_tenants x) (on_world (sh.ssi.get_tenants ctx x))
      pure (elim response [ none ↦ nil | some y ↦ Response.get_tenants y ])
    call_get_tenants ctx r _ = lift panic

    unfoldable pub strict_get_tenants : ServerRequest C → Handling W (Unit {0})
    unfolding as_get_tenants call_get_tenants
    strict_get_tenants r = do
      response ← attempt (
          through sh.middlewares "GetTenants" call_get_tenants r.context r
            (Request.get_tenants no_parameters))
      respond sh r (as_get_tenants kit) response

    unfoldable pub call_create_tenant : StrictHandlerFunc W C
    call_create_tenant ctx r (Request.create_tenant x) = do
      response ← call (Request.create_tenant x) (on_world (sh.ssi.create_tenant ctx x))
      pure (elim response [ none ↦ nil | some y ↦ Response.create_tenant y ])
    call_create_tenant ctx r _ = lift panic

    pass_create_tenant : ServerRequest C → CreateTenantRequest → Handling W (Unit {0})
    unfolding as_create_tenant call_create_tenant
    pass_create_tenant r body = do
      response ← attempt (
          through sh.middlewares "CreateTenant" call_create_tenant r.context r
            (Request.create_tenant (record { body = some body })))
      respond sh r (as_create_tenant kit) response

    decoded_create_tenant : ServerRequest C → Caught CreateTenantRequest → Handling W (Unit {0})
    unfolding pass_create_tenant
    decoded_create_tenant r (raised e) =
        sh.options.request_error_handler_func r (plain (wrap "can't decode JSON body: %w" [] e))
    decoded_create_tenant r (returned body) = pass_create_tenant r body

    unfoldable pub strict_create_tenant : ServerRequest C → Handling W (Unit {0})
    unfolding decoded_create_tenant
    strict_create_tenant r = do
      body ← attempt (lift (kit.decode_create_tenant r.body))
      decoded_create_tenant r body

    unfoldable pub call_validate_tenant_unique_id : StrictHandlerFunc W C
    call_validate_tenant_unique_id ctx r (Request.validate_tenant_unique_id x) = do
      response ←
          call (Request.validate_tenant_unique_id x)
            (on_world (sh.ssi.validate_tenant_unique_id ctx x))
      pure (elim response [ none ↦ nil | some y ↦ Response.validate_tenant_unique_id y ])
    call_validate_tenant_unique_id ctx r _ = lift panic

    unfoldable pub strict_validate_tenant_unique_id :
        ServerRequest C → String → Handling W (Unit {0})
    unfolding as_validate_tenant_unique_id call_validate_tenant_unique_id
    strict_validate_tenant_unique_id r unique_id = do
      response ← attempt (
          through sh.middlewares "ValidateTenantUniqueId" call_validate_tenant_unique_id r.context r
            (Request.validate_tenant_unique_id (record { unique_id = unique_id })))
      respond sh r (as_validate_tenant_unique_id kit) response

    unfoldable pub call_delete_tenant : StrictHandlerFunc W C
    call_delete_tenant ctx r (Request.delete_tenant x) = do
      response ← call (Request.delete_tenant x) (on_world (sh.ssi.delete_tenant ctx x))
      pure (elim response [ none ↦ nil | some y ↦ Response.delete_tenant y ])
    call_delete_tenant ctx r _ = lift panic

    unfoldable pub strict_delete_tenant : ServerRequest C → String → Handling W (Unit {0})
    unfolding as_delete_tenant call_delete_tenant
    strict_delete_tenant r tenant_id = do
      response ← attempt (
          through sh.middlewares "DeleteTenant" call_delete_tenant r.context r
            (Request.delete_tenant (record { tenant_id = tenant_id })))
      respond sh r (as_delete_tenant kit) response

    unfoldable pub call_get_tenant_kubeconfig : StrictHandlerFunc W C
    call_get_tenant_kubeconfig ctx r (Request.get_tenant_kubeconfig x) = do
      response ←
          call (Request.get_tenant_kubeconfig x) (on_world (sh.ssi.get_tenant_kubeconfig ctx x))
      pure (elim response [ none ↦ nil | some y ↦ Response.get_tenant_kubeconfig y ])
    call_get_tenant_kubeconfig ctx r _ = lift panic

    unfoldable pub strict_get_tenant_kubeconfig : ServerRequest C → String → Handling W (Unit {0})
    unfolding as_get_tenant_kubeconfig call_get_tenant_kubeconfig
    strict_get_tenant_kubeconfig r tenant_id = do
      response ← attempt (
          through sh.middlewares "GetTenantKubeconfig" call_get_tenant_kubeconfig r.context r
            (Request.get_tenant_kubeconfig (record { tenant_id = tenant_id })))
      respond sh r (as_get_tenant_kubeconfig kit) response

    unfoldable pub call_list_tenant_tokens : StrictHandlerFunc W C
    call_list_tenant_tokens ctx r (Request.list_tenant_tokens x) = do
      response ← call (Request.list_tenant_tokens x) (on_world (sh.ssi.list_tenant_tokens ctx x))
      pure (elim response [ none ↦ nil | some y ↦ Response.list_tenant_tokens y ])
    call_list_tenant_tokens ctx r _ = lift panic

    unfoldable pub strict_list_tenant_tokens : ServerRequest C → String → Handling W (Unit {0})
    unfolding as_list_tenant_tokens call_list_tenant_tokens
    strict_list_tenant_tokens r tenant_id = do
      response ← attempt (
          through sh.middlewares "ListTenantTokens" call_list_tenant_tokens r.context r
            (Request.list_tenant_tokens (record { tenant_id = tenant_id })))
      respond sh r (as_list_tenant_tokens kit) response

    unfoldable pub call_create_tenant_token : StrictHandlerFunc W C
    call_create_tenant_token ctx r (Request.create_tenant_token x) = do
      response ← call (Request.create_tenant_token x) (on_world (sh.ssi.create_tenant_token ctx x))
      pure (elim response [ none ↦ nil | some y ↦ Response.create_tenant_token y ])
    call_create_tenant_token ctx r _ = lift panic

    pass_create_tenant_token : ServerRequest C → String → CreateTokenRequest → Handling W (Unit {0})
    unfolding as_create_tenant_token call_create_tenant_token
    pass_create_tenant_token r tenant_id body = do
      response ← attempt (
          through sh.middlewares "CreateTenantToken" call_create_tenant_token r.context r
            (Request.create_tenant_token (record { tenant_id = tenant_id; body = some body })))
      respond sh r (as_create_tenant_token kit) response

    decoded_create_tenant_token :
        ServerRequest C → String → Caught CreateTokenRequest → Handling W (Unit {0})
    unfolding pass_create_tenant_token
    decoded_create_tenant_token r tenant_id (raised e) =
        sh.options.request_error_handler_func r (plain (wrap "can't decode JSON body: %w" [] e))
    decoded_create_tenant_token r tenant_id (returned body) =
        pass_create_tenant_token r tenant_id body

    unfoldable pub strict_create_tenant_token : ServerRequest C → String → Handling W (Unit {0})
    unfolding decoded_create_tenant_token
    strict_create_tenant_token r tenant_id = do
      body ← attempt (lift (kit.decode_create_token r.body))
      decoded_create_tenant_token r tenant_id body
