-- ===== src/ApiServer/Decoded.antt =====
-- What reaches the implementation of the two operations that take a body, where the body decodes.
use capi_noplane.Prelude.{String, [], ◌∷◌, none, some, ◌≡◌, ◌∙◌}
use capi_noplane.Errors.{ok}
use capi_noplane.Exec.{◌>>=◌, Sys, outcome}
use capi_noplane.Api.Models.{CreateTenantRequest, CreateTokenRequest}
use capi_noplane.ApiServer.Kit.{ServerKit, ServerRequest}
use capi_noplane.ApiServer.Chain.{Response, nil, StrictServerInterface, Served, Request, through}
use capi_noplane.ApiServer.Chain.Trace.{handled_trace, returned_trace}
use capi_noplane.ApiServer.Strict.{
  new_strict_handler, strict_create_tenant, as_create_tenant, call_create_tenant,
  strict_create_tenant_token, as_create_tenant_token, call_create_tenant_token,
}
use capi_noplane.ApiServer.Calls.{errors-Silent}

module _ {W C : Type 0} (kit : ServerKit C) (ssi : StrictServerInterface W C) (r : ServerRequest C)
    (s : Sys (Served W) Request) where
  -- A creation of a tenant whose body decodes calls the implementation exactly once, with the body
  -- that was decoded, whatever the implementation answers and however its answer is written.
  -- There are no middlewares.
  pub called_create_tenant :
      (body : CreateTenantRequest)
      → kit.decode_create_tenant r.body ≡ ok body
      → (strict_create_tenant kit (new_strict_handler kit ssi []) r s).1.trace
        ≡ (
          Request.create_tenant (record { body = some body }),
          outcome (ssi.create_tenant r.context (record { body = some body }) s.world.world).0,
        )
          ∷ s.trace
  unfolding strict_create_tenant call_create_tenant new_strict_handler through ◌>>=◌
  called_create_tenant body decoded = rw decoded (
      handled_trace (new_strict_handler kit ssi []) r (errors-Silent kit 500 r)
        (as_create_tenant kit)
        (call_create_tenant kit (new_strict_handler kit ssi []) r.context r
          (Request.create_tenant (record { body = some body })))
        s
      ∙ returned_trace (ssi.create_tenant r.context (record { body = some body }) s.world.world).0
          (λ response. elim response [ none ↦ nil | some y ↦ Response.create_tenant y ]) _)

  -- A creation of a token whose body decodes calls the implementation exactly once, with the ID of
  -- the tenant and the body that was decoded, whatever the implementation answers and however its
  -- answer is written. There are no middlewares.
  pub called_create_tenant_token :
      (tenant_id : String) (body : CreateTokenRequest)
      → kit.decode_create_token r.body ≡ ok body
      → (strict_create_tenant_token kit (new_strict_handler kit ssi []) r tenant_id s).1.trace
        ≡ (
          Request.create_tenant_token (record { tenant_id = tenant_id; body = some body }),
          outcome
              (ssi.create_tenant_token r.context
                (record { tenant_id = tenant_id; body = some body })
                s.world.world).0,
        )
          ∷ s.trace
  unfolding strict_create_tenant_token call_create_tenant_token new_strict_handler through ◌>>=◌
  called_create_tenant_token tenant_id body decoded = rw decoded (
      handled_trace (new_strict_handler kit ssi []) r (errors-Silent kit 500 r)
        (as_create_tenant_token kit)
        (call_create_tenant_token kit (new_strict_handler kit ssi []) r.context r
          (Request.create_tenant_token (record { tenant_id = tenant_id; body = some body })))
        s
      ∙ returned_trace
          (ssi.create_tenant_token r.context (record { tenant_id = tenant_id; body = some body })
            s.world.world).0
          (λ response. elim response [ none ↦ nil | some y ↦ Response.create_tenant_token y ]) _)
