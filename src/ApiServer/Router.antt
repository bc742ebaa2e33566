-- ===== src/ApiServer/Router.antt =====
-- The routes, on a router of chi, which is unknown.
use capi_noplane.Prelude.{String, List, [], Option, none, some, ◌<>◌}
use capi_noplane.ApiServer.Kit.{ServerKit}
use capi_noplane.ApiServer.Chain.{ErrorHandlerFunc}
use capi_noplane.ApiServer.Strict.{plain_error}
use capi_noplane.ApiServer.Wrapper.{
  HttpHandler, MiddlewareFunc, ServerInterface, ServerInterfaceWrapper, wrapped_get_tenants,
  wrapped_create_tenant, wrapped_validate_tenant_unique_id, wrapped_delete_tenant,
  wrapped_get_tenant_kubeconfig, wrapped_list_tenant_tokens, wrapped_create_tenant_token,
}

-- chi.Router, of type `R`: a router with one more route, and `group`, which runs a function on it.
pub record Chi (W C R : Type 0) : Type 0 where
  pub new_router : R
  pub get : String → HttpHandler W C → R → R
  pub post : String → HttpHandler W C → R → R
  pub delete : String → HttpHandler W C → R → R
  pub group : (R → R) → R → R

pub record ChiServerOptions (W C R : Type 0) : Type 0 where
  pub base_url : String
  pub base_router : Option R
  pub middlewares : List (MiddlewareFunc W C)
  pub error_handler_func : Option (ErrorHandlerFunc W C)

module _ {W C R : Type 0} (kit : ServerKit C) (chi : Chi W C R) where
  abbrev pub wrapper_of : ServerInterface W C → ChiServerOptions W C R → ServerInterfaceWrapper W C
  wrapper_of si options = record {
    handler = si;
    handler_middlewares = options.middlewares;
    error_handler_func = elim options.error_handler_func [
      | none ↦ plain_error kit 400
      | some f ↦ f
    ];
  }

  unfoldable pub handler_with_options : ServerInterface W C → ChiServerOptions W C R → R
  handler_with_options si options =
      let wrapper = wrapper_of si options in
      let r0 : R = elim options.base_router [ none ↦ chi.new_router | some r ↦ r ] in
      let r1 =
        chi.group (chi.get (options.base_url <> "/tenants") (wrapped_get_tenants kit wrapper)) r0 in
      let r2 =
        chi.group (chi.post (options.base_url <> "/tenants") (wrapped_create_tenant kit wrapper))
          r1 in
      let r3 =
        chi.group
          (chi.get (options.base_url <> "/tenants/validate/unique-id/{uniqueID}")
            (wrapped_validate_tenant_unique_id kit wrapper))
          r2 in
      let r4 =
        chi.group
          (chi.delete (options.base_url <> "/tenants/{tenantId}")
            (wrapped_delete_tenant kit wrapper))
          r3 in
      let r5 =
        chi.group
          (chi.get (options.base_url <> "/tenants/{tenantId}/kubeconfig")
            (wrapped_get_tenant_kubeconfig kit wrapper))
          r4 in
      let r6 =
        chi.group
          (chi.get (options.base_url <> "/tenants/{tenantId}/token")
            (wrapped_list_tenant_tokens kit wrapper))
          r5 in
      chi.group
        (chi.post (options.base_url <> "/tenants/{tenantId}/token")
          (wrapped_create_tenant_token kit wrapper))
        r6

  unfoldable pub handler : ServerInterface W C → R
  unfolding handler_with_options
  handler si =
      handler_with_options si
        (record { base_url = ""; base_router = none; middlewares = []; error_handler_func = none })

  unfoldable pub handler_from_mux : ServerInterface W C → R → R
  unfolding handler_with_options
  handler_from_mux si r =
      handler_with_options si (record {
        base_url = "";
        base_router = some r;
        middlewares = [];
        error_handler_func = none;
      })

  unfoldable pub handler_from_mux_with_base_url : ServerInterface W C → R → String → R
  unfolding handler_with_options
  handler_from_mux_with_base_url si r base_url = handler_with_options si (record {
    base_url = base_url;
    base_router = some r;
    middlewares = [];
    error_handler_func = none;
  })
