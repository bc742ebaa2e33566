-- ===== src/ApiServer/Bound.antt =====
-- Path parameters, on the way from the router to the implementation.
use capi_noplane.Prelude.{String, ℕ, [], ◌∷◌, none, some, ◌≡◌, ◌<>◌}
use capi_noplane.Errors.{Error, ok, err}
use capi_noplane.Exec.{◌>>=◌, Sys, outcome}
use capi_noplane.Api.Models.{CreateTokenRequest}
use capi_noplane.Api.Http.{Header}
use capi_noplane.ApiServer.Kit.{ServerKit, ServerRequest}
use capi_noplane.ApiServer.ParamErrors.{server_error_text}
use capi_noplane.ApiServer.Delivery.{fresh, IsRejection, rejection}
use capi_noplane.ApiServer.Objects.{no_parameters}
use capi_noplane.ApiServer.Chain.{StrictServerInterface, Served, Request}
use capi_noplane.ApiServer.Strict.{new_strict_handler}
use capi_noplane.ApiServer.Decoded.{called_create_tenant_token}
use capi_noplane.ApiServer.Calls.{
  called_get_tenants, called_validate_tenant_unique_id, called_delete_tenant,
  called_get_tenant_kubeconfig, called_list_tenant_tokens,
}
use capi_noplane.ApiServer.Wrapper.{
  ServerInterface, strict_interface, through_http, bearer_auth_scopes, wrapped_get_tenants,
  wrapped_validate_tenant_unique_id, wrapped_delete_tenant, wrapped_get_tenant_kubeconfig,
  wrapped_list_tenant_tokens, wrapped_create_tenant_token,
}
use capi_noplane.ApiServer.Router.{ChiServerOptions, wrapper_of, Chi}

module _ {W C R : Type 0} (kit : ServerKit C) (chi : Chi W C R) (r : ServerRequest C) where
  module _ (si : ServerInterface W C) (options : ChiServerOptions W C R) (h : Header)
      (s : Sys (Served W) Request) (blank : s.world.writer ≡ fresh h) (text : ℕ → String) where
    abbrev invalid : String → Error → String
    invalid name e = "Invalid format for parameter " <> name <> ": " <> kit.error_text e

    -- A path parameter that cannot be bound is answered before anything else: with the default error
    -- handler, the five operations that have one call neither the implementation nor a middleware,
    -- leave the world as it is, and answer 400 with the name of the parameter. The answer is blank
    -- before, and the connection takes it.
    pub wrapped_unbound :
        options.error_handler_func ≡ none
        → (e e' : Error)
        → kit.bind_parameter "uniqueID" (kit.url_param r.context "uniqueID") ≡ err e
        → kit.bind_parameter "tenantId" (kit.url_param r.context "tenantId") ≡ err e'
        → let siw = wrapper_of kit chi si options in
          IsRejection s text (invalid "uniqueID" e) (wrapped_validate_tenant_unique_id kit siw r s)
          × IsRejection s text (invalid "tenantId" e') (wrapped_delete_tenant kit siw r s)
          × IsRejection s text (invalid "tenantId" e') (wrapped_get_tenant_kubeconfig kit siw r s)
          × IsRejection s text (invalid "tenantId" e') (wrapped_list_tenant_tokens kit siw r s)
          × IsRejection s text (invalid "tenantId" e') (wrapped_create_tenant_token kit siw r s)
    unfolding wrapped_validate_tenant_unique_id wrapped_delete_tenant wrapped_get_tenant_kubeconfig
        wrapped_list_tenant_tokens wrapped_create_tenant_token server_error_text ◌>>=◌
    wrapped_unbound default e e' bad bad' = (
      rw (bad, default) (rejection h s blank text _),
      rw (bad', default) (rejection h s blank text _),
      rw (bad', default) (rejection h s blank text _),
      rw (bad', default) (rejection h s blank text _),
      rw (bad', default) (rejection h s blank text _),
    )

  module _ (ssi : StrictServerInterface W C) (options : ChiServerOptions W C R)
      (s : Sys (Served W) Request) where
    -- From the router to the implementation and back: without middlewares, a list of the tenants
    -- calls the implementation exactly once, with the context that has the scopes of the bearer token,
    -- whatever parameters the route has and whatever is answered.
    pub wrapped_get_tenants_called :
        options.middlewares ≡ []
        → let siw =
            wrapper_of kit chi (strict_interface kit (new_strict_handler kit ssi [])) options in
          let context = kit.with_value r.context bearer_auth_scopes [] in
          (wrapped_get_tenants kit siw r s).1.trace
          ≡ (
            Request.get_tenants no_parameters,
            outcome (ssi.get_tenants context no_parameters s.world.world).0,
          )
            ∷ s.trace
    unfolding wrapped_get_tenants strict_interface through_http ◌>>=◌
    wrapped_get_tenants_called plain = rw (plain) (
        called_get_tenants kit ssi
          (record r { context = kit.with_value r.context bearer_auth_scopes [] }) s)

    -- From the router to the implementation and back: without middlewares, the check of a unique ID
    -- calls the implementation exactly once, with the unique ID that is bound from the path and with
    -- the context that has the scopes of the bearer token, whatever is answered.
    pub wrapped_validate_tenant_unique_id_called :
        options.middlewares ≡ []
        → (unique_id : String)
        → kit.bind_parameter "uniqueID" (kit.url_param r.context "uniqueID") ≡ ok unique_id
        → let siw =
            wrapper_of kit chi (strict_interface kit (new_strict_handler kit ssi [])) options in
          let context = kit.with_value r.context bearer_auth_scopes [] in
          (wrapped_validate_tenant_unique_id kit siw r s).1.trace
          ≡ (
            Request.validate_tenant_unique_id (record { unique_id = unique_id }),
            outcome
                (ssi.validate_tenant_unique_id context
                  (record { unique_id = unique_id })
                  s.world.world).0,
          )
            ∷ s.trace
    unfolding wrapped_validate_tenant_unique_id strict_interface through_http ◌>>=◌
    wrapped_validate_tenant_unique_id_called plain unique_id bound =
        rw (bound, plain)
          (called_validate_tenant_unique_id kit ssi
            (record r { context = kit.with_value r.context bearer_auth_scopes [] }) s unique_id)

    -- From the router to the implementation and back: without middlewares, a deletion, a request for
    -- a kubeconfig and a list of tokens each call the implementation exactly once, with the tenant's
    -- ID that is bound from the path and with the context that has the scopes of the bearer token,
    -- whatever is answered.
    pub wrapped_tenant_called :
        options.middlewares ≡ []
        → (tenant_id : String)
        → kit.bind_parameter "tenantId" (kit.url_param r.context "tenantId") ≡ ok tenant_id
        → let siw =
            wrapper_of kit chi (strict_interface kit (new_strict_handler kit ssi [])) options in
          let context = kit.with_value r.context bearer_auth_scopes [] in
          (((wrapped_delete_tenant kit siw r s).1.trace
              ≡ (
                Request.delete_tenant (record { tenant_id = tenant_id }),
                outcome
                    (ssi.delete_tenant context (record { tenant_id = tenant_id }) s.world.world).0,
              )
                ∷ s.trace)
            × ((wrapped_get_tenant_kubeconfig kit siw r s).1.trace
                ≡ (
                  Request.get_tenant_kubeconfig (record { tenant_id = tenant_id }),
                  outcome
                      (ssi.get_tenant_kubeconfig context
                        (record { tenant_id = tenant_id })
                        s.world.world).0,
                )
                  ∷ s.trace)
            × ((wrapped_list_tenant_tokens kit siw r s).1.trace
                ≡ (
                  Request.list_tenant_tokens (record { tenant_id = tenant_id }),
                  outcome
                      (ssi.list_tenant_tokens context
                        (record { tenant_id = tenant_id })
                        s.world.world).0,
                )
                  ∷ s.trace))
    unfolding wrapped_delete_tenant wrapped_get_tenant_kubeconfig wrapped_list_tenant_tokens
        strict_interface through_http ◌>>=◌
    wrapped_tenant_called plain tenant_id bound = (
      rw (bound, plain)
          (called_delete_tenant kit ssi
            (record r { context = kit.with_value r.context bearer_auth_scopes [] }) s tenant_id),
      rw (bound, plain)
          (called_get_tenant_kubeconfig kit ssi
            (record r { context = kit.with_value r.context bearer_auth_scopes [] }) s tenant_id),
      rw (bound, plain)
          (called_list_tenant_tokens kit ssi
            (record r { context = kit.with_value r.context bearer_auth_scopes [] }) s tenant_id),
    )

    -- From the router to the implementation and back: without middlewares, a creation of a token
    -- whose body decodes calls the implementation exactly once, with the tenant's ID that is bound
    -- from the path, with the decoded body and with the context that has the scopes of the bearer
    -- token, whatever is answered.
    pub wrapped_create_tenant_token_called :
        options.middlewares ≡ []
        → (tenant_id : String) (body : CreateTokenRequest)
        → kit.bind_parameter "tenantId" (kit.url_param r.context "tenantId") ≡ ok tenant_id
        → kit.decode_create_token r.body ≡ ok body
        → let siw =
            wrapper_of kit chi (strict_interface kit (new_strict_handler kit ssi [])) options in
          let context = kit.with_value r.context bearer_auth_scopes [] in
          (wrapped_create_tenant_token kit siw r s).1.trace
          ≡ (
            Request.create_tenant_token (record { tenant_id = tenant_id; body = some body }),
            outcome
                (ssi.create_tenant_token context
                  (record { tenant_id = tenant_id; body = some body })
                  s.world.world).0,
          )
            ∷ s.trace
    unfolding wrapped_create_tenant_token strict_interface through_http ◌>>=◌
    wrapped_create_tenant_token_called plain tenant_id body bound decoded =
        rw (bound, plain)
          (called_create_tenant_token kit ssi
            (record r { context = kit.with_value r.context bearer_auth_scopes [] }) s tenant_id body
            decoded)
