-- ===== src/Tests/Wrapper.antt =====
-- The wrapper of the generated server over the implementation with fixed answers.
use capi_noplane.Prelude.{String, [], ◌∷◌, none, some, ◌≡◌, refl, string_eq, nat_eq}
use capi_noplane.Errors.{external}
use capi_noplane.Exec.{done}
use capi_noplane.ApiServer.Delivery.{IsRejection}
use capi_noplane.ApiServer.Objects.{no_parameters}
use capi_noplane.ApiServer.Chain.{Request}
use capi_noplane.ApiServer.Strict.{new_strict_handler}
use capi_noplane.ApiServer.Wrapper.{
  ServerInterfaceWrapper, wrapped_get_tenants, unimplemented, strict_interface,
  wrapped_validate_tenant_unique_id, wrapped_delete_tenant, wrapped_get_tenant_kubeconfig,
  wrapped_list_tenant_tokens, wrapped_create_tenant_token,
}
use capi_noplane.ApiServer.Router.{Chi, ChiServerOptions, wrapper_of}
use capi_noplane.ApiServer.Bound.{
  wrapped_unbound, wrapped_get_tenants_called, wrapped_validate_tenant_unique_id_called,
  wrapped_tenant_called, wrapped_create_tenant_token_called,
}
use capi_noplane.Tests.ApiServer.{
  Context, server, implementation, empty, at_start, text, of_tenant, posted_to_tenant, of_unique_id,
}

-- chi's router, of which the wrapper uses nothing.
abbrev chi : Chi (Unit {0}) Context (Unit {0})
chi = record {
  new_router = tt;
  get = λ p h r. r;
  post = λ p h r. r;
  delete = λ p h r. r;
  group = λ f r. f r;
}

abbrev options : ChiServerOptions (Unit {0}) Context (Unit {0})
options = record { base_url = ""; base_router = none; middlewares = []; error_handler_func = none }

wrapped_unbound_example :
    let siw = wrapper_of server chi unimplemented options in
    let unique : String = "Invalid format for parameter uniqueID: error" in
    let tenant : String = "Invalid format for parameter tenantId: error" in
    IsRejection at_start text unique (wrapped_validate_tenant_unique_id server siw empty at_start)
    × IsRejection at_start text tenant (wrapped_delete_tenant server siw empty at_start)
    × IsRejection at_start text tenant (wrapped_get_tenant_kubeconfig server siw empty at_start)
    × IsRejection at_start text tenant (wrapped_list_tenant_tokens server siw empty at_start)
    × IsRejection at_start text tenant (wrapped_create_tenant_token server siw empty at_start)
wrapped_unbound_example =
    wrapped_unbound server chi empty unimplemented options [] at_start refl text refl
      (external "empty") (external "empty") refl refl

abbrev siw : ServerInterfaceWrapper (Unit {0}) Context
siw =
    wrapper_of server chi (strict_interface server (new_strict_handler server implementation []))
      options

wrapped_get_tenants_called_example :
    (wrapped_get_tenants server siw empty at_start).1.trace
    ≡ (Request.get_tenants no_parameters, done) ∷ []
wrapped_get_tenants_called_example =
    wrapped_get_tenants_called server chi empty implementation options at_start refl

wrapped_validate_tenant_unique_id_called_example :
    (wrapped_validate_tenant_unique_id server siw of_unique_id at_start).1.trace
    ≡ (Request.validate_tenant_unique_id (record { unique_id = "u" }), done) ∷ []
wrapped_validate_tenant_unique_id_called_example =
    wrapped_validate_tenant_unique_id_called server chi of_unique_id implementation options at_start
      refl "u" refl

wrapped_tenant_called_example :
    (wrapped_delete_tenant server siw of_tenant at_start).1.trace
    ≡ (Request.delete_tenant (record { tenant_id = "a" }), done) ∷ []
wrapped_tenant_called_example =
    (wrapped_tenant_called server chi of_tenant implementation options at_start refl "a" refl).0

wrapped_create_tenant_token_called_example :
    (wrapped_create_tenant_token server siw posted_to_tenant at_start).1.trace
    ≡ (
      Request.create_tenant_token (record { tenant_id = "a"; body = some (record { ttl = "7d" }) }),
      done,
    )
      ∷ []
wrapped_create_tenant_token_called_example =
    wrapped_create_tenant_token_called server chi posted_to_tenant implementation options at_start
      refl "a" (record { ttl = "7d" }) refl refl
