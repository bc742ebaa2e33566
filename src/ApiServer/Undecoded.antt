-- ===== src/ApiServer/Undecoded.antt =====
-- A request whose body does not decode.
use capi_noplane.Api.Http.{Header}
use capi_noplane.Prelude.{String, ℕ, List, [], ◌≡◌}
use capi_noplane.Errors.{wrap, Error, err}
use capi_noplane.Exec.{◌>>=◌, Sys}
use capi_noplane.ApiServer.Kit.{ServerKit, ServerRequest}
use capi_noplane.ApiServer.ParamErrors.{server_error_text}
use capi_noplane.ApiServer.Delivery.{fresh, IsRejection, rejection}
use capi_noplane.ApiServer.Chain.{StrictServerInterface, StrictMiddlewareFunc, Served, Request}
use capi_noplane.ApiServer.Strict.{
  new_strict_handler, strict_create_tenant, strict_create_tenant_token,
}

module _ {W C : Type 0} (kit : ServerKit C) (ssi : StrictServerInterface W C)
    (ms : List (StrictMiddlewareFunc W C)) (r : ServerRequest C) (h : Header)
    (s : Sys (Served W) Request) (blank : s.world.writer ≡ fresh h) (text : ℕ → String) where
  -- The body of a creation of a tenant that does not decode never reaches the implementation or a
  -- middleware: nothing is called, the world stays as it is, and the answer is 400 with the decoder's
  -- error under "can't decode JSON body". The answer is blank before, and the connection takes it.
  pub strict_create_tenant_undecoded :
      (e : Error)
      → kit.decode_create_tenant r.body ≡ err e
      → IsRejection s text
          (kit.error_text (wrap "can't decode JSON body: %w" [] e))
          (strict_create_tenant kit (new_strict_handler kit ssi ms) r s)
  unfolding strict_create_tenant new_strict_handler ◌>>=◌ server_error_text
  strict_create_tenant_undecoded e bad = rw bad (rejection h s blank text _)

  -- The body of a creation of a token that does not decode never reaches the implementation or a
  -- middleware: nothing is called, the world stays as it is, and the answer is 400 with the decoder's
  -- error under "can't decode JSON body". The answer is blank before, and the connection takes it.
  pub strict_create_tenant_token_undecoded :
      (tenant_id : String) (e : Error)
      → kit.decode_create_token r.body ≡ err e
      → IsRejection s text
          (kit.error_text (wrap "can't decode JSON body: %w" [] e))
          (strict_create_tenant_token kit (new_strict_handler kit ssi ms) r tenant_id s)
  unfolding strict_create_tenant_token new_strict_handler ◌>>=◌ server_error_text
  strict_create_tenant_token_undecoded tenant_id e bad = rw bad (rejection h s blank text _)
