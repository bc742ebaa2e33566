-- ===== src/ApiServer/Calls.antt =====
-- What reaches the implementation behind the strict server.
use capi_noplane.Prelude.{String, ℕ, [], ◌∷◌, none, some, ◌≡◌, ◌∙◌}
use capi_noplane.Exec.{◌>>=◌, Sys, outcome}
use capi_noplane.ApiServer.Kit.{ServerKit, ServerRequest}
use capi_noplane.ApiServer.ParamErrors.{ServerError}
use capi_noplane.ApiServer.Objects.{no_parameters}
use capi_noplane.ApiServer.Chain.{Response, nil, StrictServerInterface, Served, Request, through}
use capi_noplane.ApiServer.Chain.Trace.{Silent, write_with-Silent, handled_trace, returned_trace}
use capi_noplane.ApiServer.Strict.{
  new_strict_handler, plain_error, strict_get_tenants, as_get_tenants, call_get_tenants,
  strict_validate_tenant_unique_id, as_validate_tenant_unique_id, call_validate_tenant_unique_id,
  strict_delete_tenant, as_delete_tenant, call_delete_tenant, strict_get_tenant_kubeconfig,
  as_get_tenant_kubeconfig, call_get_tenant_kubeconfig, strict_list_tenant_tokens,
  as_list_tenant_tokens, call_list_tenant_tokens,
}

module _ {W C : Type 0} (kit : ServerKit C) where
  pub errors-Silent :
      (status : ℕ) (r : ServerRequest C) (e : ServerError)
      → Silent {W = W} (plain_error kit status r e)
  errors-Silent status r e t = write_with-Silent _ t

  module _ (ssi : StrictServerInterface W C) (r : ServerRequest C)
      (s : Sys (Served W) Request) where
    pub called_get_tenants :
        (strict_get_tenants kit (new_strict_handler kit ssi []) r s).1.trace
        ≡ (
          Request.get_tenants no_parameters,
          outcome (ssi.get_tenants r.context no_parameters s.world.world).0,
        )
          ∷ s.trace
    unfolding strict_get_tenants call_get_tenants new_strict_handler through ◌>>=◌
    called_get_tenants =
        handled_trace (new_strict_handler kit ssi []) r (errors-Silent 500 r) (as_get_tenants kit)
          (call_get_tenants kit (new_strict_handler kit ssi []) r.context r
            (Request.get_tenants no_parameters))
          s
        ∙ returned_trace (ssi.get_tenants r.context no_parameters s.world.world).0
            (λ response. elim response [ none ↦ nil | some y ↦ Response.get_tenants y ]) _

    pub called_validate_tenant_unique_id :
        (unique_id : String)
        → (strict_validate_tenant_unique_id kit
            (new_strict_handler kit ssi [])
            r
            unique_id
            s).1.trace
          ≡ (
            Request.validate_tenant_unique_id (record { unique_id = unique_id }),
            outcome
                (ssi.validate_tenant_unique_id r.context
                  (record { unique_id = unique_id })
                  s.world.world).0,
          )
            ∷ s.trace
    unfolding strict_validate_tenant_unique_id call_validate_tenant_unique_id new_strict_handler
        through ◌>>=◌
    called_validate_tenant_unique_id unique_id =
        handled_trace (new_strict_handler kit ssi []) r (errors-Silent 500 r)
          (as_validate_tenant_unique_id kit)
          (call_validate_tenant_unique_id kit (new_strict_handler kit ssi []) r.context r
            (Request.validate_tenant_unique_id (record { unique_id = unique_id })))
          s
        ∙ returned_trace
            (ssi.validate_tenant_unique_id r.context (record { unique_id = unique_id })
              s.world.world).0
            (λ response. elim response [
              | none ↦ nil
              | some y ↦ Response.validate_tenant_unique_id y
            ])
            _

    pub called_delete_tenant :
        (tenant_id : String)
        → (strict_delete_tenant kit (new_strict_handler kit ssi []) r tenant_id s).1.trace
          ≡ (
            Request.delete_tenant (record { tenant_id = tenant_id }),
            outcome
                (ssi.delete_tenant r.context (record { tenant_id = tenant_id }) s.world.world).0,
          )
            ∷ s.trace
    unfolding strict_delete_tenant call_delete_tenant new_strict_handler through ◌>>=◌
    called_delete_tenant tenant_id =
        handled_trace (new_strict_handler kit ssi []) r (errors-Silent 500 r) (as_delete_tenant kit)
          (call_delete_tenant kit (new_strict_handler kit ssi []) r.context r
            (Request.delete_tenant (record { tenant_id = tenant_id })))
          s
        ∙ returned_trace
            (ssi.delete_tenant r.context (record { tenant_id = tenant_id }) s.world.world).0
            (λ response. elim response [ none ↦ nil | some y ↦ Response.delete_tenant y ]) _

    pub called_get_tenant_kubeconfig :
        (tenant_id : String)
        → (strict_get_tenant_kubeconfig kit (new_strict_handler kit ssi []) r tenant_id s).1.trace
          ≡ (
            Request.get_tenant_kubeconfig (record { tenant_id = tenant_id }),
            outcome
                (ssi.get_tenant_kubeconfig r.context
                  (record { tenant_id = tenant_id })
                  s.world.world).0,
          )
            ∷ s.trace
    unfolding strict_get_tenant_kubeconfig call_get_tenant_kubeconfig new_strict_handler through
        ◌>>=◌
    called_get_tenant_kubeconfig tenant_id =
        handled_trace (new_strict_handler kit ssi []) r (errors-Silent 500 r)
          (as_get_tenant_kubeconfig kit)
          (call_get_tenant_kubeconfig kit (new_strict_handler kit ssi []) r.context r
            (Request.get_tenant_kubeconfig (record { tenant_id = tenant_id })))
          s
        ∙ returned_trace
            (ssi.get_tenant_kubeconfig r.context (record { tenant_id = tenant_id }) s.world.world).0
            (λ response. elim response [ none ↦ nil | some y ↦ Response.get_tenant_kubeconfig y ]) _

    pub called_list_tenant_tokens :
        (tenant_id : String)
        → (strict_list_tenant_tokens kit (new_strict_handler kit ssi []) r tenant_id s).1.trace
          ≡ (
            Request.list_tenant_tokens (record { tenant_id = tenant_id }),
            outcome
                (ssi.list_tenant_tokens r.context
                  (record { tenant_id = tenant_id })
                  s.world.world).0,
          )
            ∷ s.trace
    unfolding strict_list_tenant_tokens call_list_tenant_tokens new_strict_handler through ◌>>=◌
    called_list_tenant_tokens tenant_id =
        handled_trace (new_strict_handler kit ssi []) r (errors-Silent 500 r)
          (as_list_tenant_tokens kit)
          (call_list_tenant_tokens kit (new_strict_handler kit ssi []) r.context r
            (Request.list_tenant_tokens (record { tenant_id = tenant_id })))
          s
        ∙ returned_trace
            (ssi.list_tenant_tokens r.context (record { tenant_id = tenant_id }) s.world.world).0
            (λ response. elim response [ none ↦ nil | some y ↦ Response.list_tenant_tokens y ]) _

    -- The strict server calls the implementation exactly once, with the request object that has the
    -- parameters of the path: whatever the body of the request is, whatever the implementation
    -- answers and however its answer is written, each of the five handlers that read no body adds
    -- this one call to the trace. There are no middlewares.
    pub strict_called_once :
        (unique_id tenant_id : String)
        → let sh = new_strict_handler kit ssi [] in
          ((strict_get_tenants kit sh r s).1.trace
            ≡ (
              Request.get_tenants no_parameters,
              outcome (ssi.get_tenants r.context no_parameters s.world.world).0,
            )
              ∷ s.trace)
          × ((strict_validate_tenant_unique_id kit sh r unique_id s).1.trace
              ≡ (
                Request.validate_tenant_unique_id (record { unique_id = unique_id }),
                outcome
                    (ssi.validate_tenant_unique_id r.context
                      (record { unique_id = unique_id })
                      s.world.world).0,
              )
                ∷ s.trace)
          × ((strict_delete_tenant kit sh r tenant_id s).1.trace
              ≡ (
                Request.delete_tenant (record { tenant_id = tenant_id }),
                outcome
                    (ssi.delete_tenant r.context
                      (record { tenant_id = tenant_id })
                      s.world.world).0,
              )
                ∷ s.trace)
          × ((strict_get_tenant_kubeconfig kit sh r tenant_id s).1.trace
              ≡ (
                Request.get_tenant_kubeconfig (record { tenant_id = tenant_id }),
                outcome
                    (ssi.get_tenant_kubeconfig r.context
                      (record { tenant_id = tenant_id })
                      s.world.world).0,
              )
                ∷ s.trace)
          × ((strict_list_tenant_tokens kit sh r tenant_id s).1.trace
              ≡ (
                Request.list_tenant_tokens (record { tenant_id = tenant_id }),
                outcome
                    (ssi.list_tenant_tokens r.context
                      (record { tenant_id = tenant_id })
                      s.world.world).0,
              )
                ∷ s.trace)
    strict_called_once unique_id tenant_id = (
      called_get_tenants,
      called_validate_tenant_unique_id unique_id,
      called_delete_tenant tenant_id,
      called_get_tenant_kubeconfig tenant_id,
      called_list_tenant_tokens tenant_id,
    )
