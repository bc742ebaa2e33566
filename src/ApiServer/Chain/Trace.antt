-- ===== src/ApiServer/Chain/Trace.antt =====
-- The trace while an answer is written.
use capi_noplane.Prelude.{List, ◌≡◌, refl, Option, none, some}
use capi_noplane.Errors.{Error, Result, ok, err, panic}
use capi_noplane.Exec.{
  ◌>>=◌, Sys, Outcome, continue, pure, Caught, returned, raised, attempt, catch_result,
}
use capi_noplane.Exec.Keeps.{Keeps, keeps_rules, Keeps-pure}
use capi_noplane.ApiServer.Writer.{ResponseWriter}
use capi_noplane.ApiServer.Kit.{ServerRequest}
use capi_noplane.ApiServer.Objects.{Visit}
use capi_noplane.ApiServer.ParamErrors.{ServerError}
use capi_noplane.ApiServer.Chain.{
  Response, nil, Handling, StrictHandler, Served, Request, report, unvisited, write_response,
  respond, visit, write_with,
}

-- The trace stays the same.
abbrev pub Silent : {W A : Type 0} → Handling W A → Type 0
Silent m = (t : List (Request × Outcome)) → Keeps (λ s. s.trace ≡ t) Unit m

pub write_with-Silent :
    {W : Type 0} (f : ResponseWriter → ResponseWriter) → Silent {W = W} (write_with f)
write_with-Silent f t = record { at = λ s e. (e, λ _. tt) }

visit-Silent : {W : Type 0} (f : Visit) → Silent {W = W} (visit f)
visit-Silent f t = record { at = λ s e. (e, λ _. tt) }

module _ {W C : Type 0} (sh : StrictHandler W C) (r : ServerRequest C)
    (silent : (e : ServerError) → Silent (sh.options.response_error_handler_func r e)) where
  report-Silent : (e : Option Error) → Silent (report sh r e)
  unfolding report
  report-Silent none t = Keeps-pure tt
  report-Silent (some e) t = silent _ t

  unvisited-Silent : (response : Response) → Silent (unvisited sh r response)
  unfolding unvisited
  unvisited-Silent (Response.get_tenants x) t = silent _ t
  unvisited-Silent (Response.create_tenant x) t = silent _ t
  unvisited-Silent (Response.validate_tenant_unique_id x) t = silent _ t
  unvisited-Silent (Response.delete_tenant x) t = silent _ t
  unvisited-Silent (Response.get_tenant_kubeconfig x) t = silent _ t
  unvisited-Silent (Response.list_tenant_tokens x) t = silent _ t
  unvisited-Silent (Response.create_tenant_token x) t = silent _ t
  unvisited-Silent (Response.other x) t = silent _ t
  unvisited-Silent nil t = Keeps-pure tt

  write_response-Silent :
      (f : Option Visit) (response : Response) → Silent (write_response sh r f response)
  unfolding write_response
  write_response-Silent (some f) response t = search (keeps_rules, visit-Silent, report-Silent)
  write_response-Silent none response t = unvisited-Silent response t

  respond-Silent :
      (as_visit : Response → Option Visit) (got : Caught Response)
      → Silent (respond sh r as_visit got)
  unfolding respond
  respond-Silent as_visit (raised e) t = silent _ t
  respond-Silent as_visit (returned response) t =
      write_response-Silent (as_visit response) response t

  continue_trace :
      (as_visit : Response → Option Visit) (got : Result Response) (s : Sys (Served W) Request)
      → (continue (catch_result got) (respond sh r as_visit) s).1.trace ≡ s.trace
  continue_trace as_visit (ok x) s = ((respond-Silent as_visit (returned x) s.trace).at s refl).0
  continue_trace as_visit (err e) s = ((respond-Silent as_visit (raised e) s.trace).at s refl).0
  continue_trace as_visit panic s = refl

  -- A handler's trace is that of its call.
  pub handled_trace :
      (as_visit : Response → Option Visit) (m : Handling W Response) (s : Sys (Served W) Request)
      → ((attempt m >>= respond sh r as_visit) s).1.trace ≡ (m s).1.trace
  unfolding ◌>>=◌
  handled_trace as_visit m s = continue_trace as_visit (m s).0 (m s).1

-- What a call returns does not change the trace that it leaves.
pub returned_trace :
    {W A : Type 0} (got : Result A) (f : A → Response) (s : Sys (Served W) Request)
    → (continue got (λ a. pure (f a)) s).1.trace ≡ s.trace
unfolding pure
returned_trace (ok a) f s = refl
returned_trace (err e) f s = refl
returned_trace panic f s = refl
