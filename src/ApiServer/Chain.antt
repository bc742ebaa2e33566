-- ===== src/ApiServer/Chain.antt =====
-- What the handlers share: values of `interface{}`, the interface of the implementation, middlewares,
-- and how an answer is written.
pub mod Trace
use capi_noplane.Prelude.{String, List, [], ◌∷◌, Option, none, some}
use capi_noplane.Errors.{Result, ok, err, panic, Error, errorf, text}
use capi_noplane.Exec.{Caught, returned, raised, Op, Exec, pure, ◌>>=◌}
use capi_noplane.ApiServer.Writer.{ResponseWriter}
use capi_noplane.ApiServer.Kit.{ServerKit, ServerRequest}
use capi_noplane.ApiServer.ParamErrors.{ServerError, plain}
use capi_noplane.ApiServer.Objects.{
  Visit, GetTenantsRequestObject, GetTenantsResponseObject, CreateTenantRequestObject,
  CreateTenantResponseObject, ValidateTenantUniqueIdRequestObject,
  ValidateTenantUniqueIdResponseObject, DeleteTenantRequestObject, DeleteTenantResponseObject,
  GetTenantKubeconfigRequestObject, GetTenantKubeconfigResponseObject,
  ListTenantTokensRequestObject, ListTenantTokensResponseObject, CreateTenantTokenRequestObject,
  CreateTenantTokenResponseObject, get_tenants200, get_tenants500, create_tenant201,
  create_tenant400, create_tenant403, create_tenant500, validate_tenant_unique_id200,
  validate_tenant_unique_id400, validate_tenant_unique_id500, delete_tenant204, delete_tenant400,
  delete_tenant403, delete_tenant404, delete_tenant500, get_tenant_kubeconfig200,
  get_tenant_kubeconfig400, get_tenant_kubeconfig403, get_tenant_kubeconfig404,
  get_tenant_kubeconfig500, list_tenant_tokens200, list_tenant_tokens403, list_tenant_tokens404,
  list_tenant_tokens500, create_tenant_token201, create_tenant_token400, create_tenant_token403,
  create_tenant_token404, create_tenant_token500,
}

-- The `request interface{}` of a handler, and the `interface{}` that it returns. `other` has the
-- name of a type that is none of these, and `nil` is the nil interface.
pub data Request : Type 0 where
  get_tenants : GetTenantsRequestObject → Request
  create_tenant : CreateTenantRequestObject → Request
  validate_tenant_unique_id : ValidateTenantUniqueIdRequestObject → Request
  delete_tenant : DeleteTenantRequestObject → Request
  get_tenant_kubeconfig : GetTenantKubeconfigRequestObject → Request
  list_tenant_tokens : ListTenantTokensRequestObject → Request
  create_tenant_token : CreateTenantTokenRequestObject → Request
  other : (type_name : String) → Request

pub data Response : Type 0 where
  get_tenants : GetTenantsResponseObject → Response
  create_tenant : CreateTenantResponseObject → Response
  validate_tenant_unique_id : ValidateTenantUniqueIdResponseObject → Response
  delete_tenant : DeleteTenantResponseObject → Response
  get_tenant_kubeconfig : GetTenantKubeconfigResponseObject → Response
  list_tenant_tokens : ListTenantTokensResponseObject → Response
  create_tenant_token : CreateTenantTokenResponseObject → Response
  other : (type_name : String) → Response
  nil : Response

-- What the verb %T prints of a response.
abbrev type_name : Response → String
type_name (Response.get_tenants (get_tenants200 x)) = "v1.GetTenants200JSONResponse"
type_name (Response.get_tenants (get_tenants500 x)) = "v1.GetTenants500JSONResponse"
type_name (Response.create_tenant (create_tenant201 x)) = "v1.CreateTenant201JSONResponse"
type_name (Response.create_tenant (create_tenant400 x)) = "v1.CreateTenant400JSONResponse"
type_name (Response.create_tenant (create_tenant403 x)) = "v1.CreateTenant403JSONResponse"
type_name (Response.create_tenant (create_tenant500 x)) = "v1.CreateTenant500JSONResponse"
type_name (Response.validate_tenant_unique_id (validate_tenant_unique_id200 x)) =
    "v1.ValidateTenantUniqueId200JSONResponse"
type_name (Response.validate_tenant_unique_id (validate_tenant_unique_id400 x)) =
    "v1.ValidateTenantUniqueId400JSONResponse"
type_name (Response.validate_tenant_unique_id (validate_tenant_unique_id500 x)) =
    "v1.ValidateTenantUniqueId500JSONResponse"
type_name (Response.delete_tenant delete_tenant204) = "v1.DeleteTenant204Response"
type_name (Response.delete_tenant (delete_tenant400 x)) = "v1.DeleteTenant400JSONResponse"
type_name (Response.delete_tenant (delete_tenant403 x)) = "v1.DeleteTenant403JSONResponse"
type_name (Response.delete_tenant (delete_tenant404 x)) = "v1.DeleteTenant404JSONResponse"
type_name (Response.delete_tenant (delete_tenant500 x)) = "v1.DeleteTenant500JSONResponse"
type_name (Response.get_tenant_kubeconfig (get_tenant_kubeconfig200 x)) =
    "v1.GetTenantKubeconfig200JSONResponse"
type_name (Response.get_tenant_kubeconfig (get_tenant_kubeconfig400 x)) =
    "v1.GetTenantKubeconfig400JSONResponse"
type_name (Response.get_tenant_kubeconfig (get_tenant_kubeconfig403 x)) =
    "v1.GetTenantKubeconfig403JSONResponse"
type_name (Response.get_tenant_kubeconfig (get_tenant_kubeconfig404 x)) =
    "v1.GetTenantKubeconfig404JSONResponse"
type_name (Response.get_tenant_kubeconfig (get_tenant_kubeconfig500 x)) =
    "v1.GetTenantKubeconfig500JSONResponse"
type_name (Response.list_tenant_tokens (list_tenant_tokens200 x)) =
    "v1.ListTenantTokens200JSONResponse"
type_name (Response.list_tenant_tokens (list_tenant_tokens403 x)) =
    "v1.ListTenantTokens403JSONResponse"
type_name (Response.list_tenant_tokens (list_tenant_tokens404 x)) =
    "v1.ListTenantTokens404JSONResponse"
type_name (Response.list_tenant_tokens (list_tenant_tokens500 x)) =
    "v1.ListTenantTokens500JSONResponse"
type_name (Response.create_tenant_token (create_tenant_token201 x)) =
    "v1.CreateTenantToken201JSONResponse"
type_name (Response.create_tenant_token (create_tenant_token400 x)) =
    "v1.CreateTenantToken400JSONResponse"
type_name (Response.create_tenant_token (create_tenant_token403 x)) =
    "v1.CreateTenantToken403JSONResponse"
type_name (Response.create_tenant_token (create_tenant_token404 x)) =
    "v1.CreateTenantToken404JSONResponse"
type_name (Response.create_tenant_token (create_tenant_token500 x)) =
    "v1.CreateTenantToken500JSONResponse"
type_name (Response.other name) = name
type_name nil = "<nil>"

-- The state that a handler works on: the world of the implementation, and the answer.
pub record Served (W : Type 0) : Type 0 where
  pub world : W
  pub writer : ResponseWriter

-- The trace has the request objects that the implementation was called with.
abbrev pub Handling : Type 0 → Type 0 → Type 0
Handling W A = Exec (Served W) Request A

-- `none` is a nil response object.
pub record StrictServerInterface (W C : Type 0) : Type 0 where
  pub get_tenants : C → GetTenantsRequestObject → Op W (Option GetTenantsResponseObject)
  pub create_tenant : C → CreateTenantRequestObject → Op W (Option CreateTenantResponseObject)
  pub validate_tenant_unique_id :
      C → ValidateTenantUniqueIdRequestObject → Op W (Option ValidateTenantUniqueIdResponseObject)
  pub delete_tenant : C → DeleteTenantRequestObject → Op W (Option DeleteTenantResponseObject)
  pub get_tenant_kubeconfig :
      C → GetTenantKubeconfigRequestObject → Op W (Option GetTenantKubeconfigResponseObject)
  pub list_tenant_tokens :
      C → ListTenantTokensRequestObject → Op W (Option ListTenantTokensResponseObject)
  pub create_tenant_token :
      C → CreateTenantTokenRequestObject → Op W (Option CreateTenantTokenResponseObject)

abbrev pub StrictHandlerFunc : Type 0 → Type 0 → Type 0
StrictHandlerFunc W C = C → ServerRequest C → Request → Handling W Response

abbrev pub StrictMiddlewareFunc : Type 0 → Type 0 → Type 0
StrictMiddlewareFunc W C = StrictHandlerFunc W C → String → StrictHandlerFunc W C

abbrev pub ErrorHandlerFunc : Type 0 → Type 0 → Type 0
ErrorHandlerFunc W C = ServerRequest C → ServerError → Handling W (Unit {0})

-- A nil function in the options is not modelled.
pub record StrictHttpServerOptions (W C : Type 0) : Type 0 where
  pub request_error_handler_func : ErrorHandlerFunc W C
  pub response_error_handler_func : ErrorHandlerFunc W C

pub record StrictHandler (W C : Type 0) : Type 0 where
  pub ssi : StrictServerInterface W C
  pub middlewares : List (StrictMiddlewareFunc W C)
  pub options : StrictHttpServerOptions W C

-- An operation of the implementation, which cannot see the answer.
abbrev pub on_world : {W A : Type 0} → Op W A → Op (Served W) A
on_world op s = let (r, w) = op s.world in (r, record s { world = w })

abbrev visited :
    {W : Type 0}
    → Result (Option Error × ResponseWriter)
    → Served W
    → Result (Option Error) × Served W
visited (ok (e, w)) s = (ok e, record s { writer = w })
visited (err e) s = (err e, s)
visited panic s = (panic, s)

-- A method that writes the answer, and one that cannot fail.
abbrev pub visit : {W : Type 0} → Visit → Handling W (Option Error)
visit f s = let (r, t) = visited (f s.world.writer) s.world in (r, record s { world = t })

abbrev pub write_with : {W : Type 0} → (ResponseWriter → ResponseWriter) → Handling W (Unit {0})
write_with f s = (ok tt, record s { world = record s.world { writer = f s.world.writer } })

module _ {W C : Type 0} where
  -- `for _, middleware := range middlewares { handler = middleware(handler, name) }`
  unfoldable pub through :
      List (StrictMiddlewareFunc W C) → String → StrictHandlerFunc W C → StrictHandlerFunc W C
  through [] name handler = handler
  through (middleware ∷ rest) name handler = through rest name (middleware handler name)

  module _ (sh : StrictHandler W C) (r : ServerRequest C) where
    report : Option Error → Handling W (Unit {0})
    report none = pure tt
    report (some e) = sh.options.response_error_handler_func r (plain e)

    unvisited : Response → Handling W (Unit {0})
    unvisited nil = pure tt
    unvisited response =
        sh.options.response_error_handler_func r
          (plain (errorf "unexpected response type: %T" (text (type_name response) ∷ [])))

    write_response : Option Visit → Response → Handling W (Unit {0})
    unfolding report unvisited
    write_response (some f) response = do e ← visit f; report e
    write_response none response = unvisited response

    -- The end of each handler; the first argument is its type assertion on the response.
    unfoldable pub respond : (Response → Option Visit) → Caught Response → Handling W (Unit {0})
    unfolding write_response
    respond as_visit (raised e) = sh.options.response_error_handler_func r (plain e)
    respond as_visit (returned response) = write_response (as_visit response) response
