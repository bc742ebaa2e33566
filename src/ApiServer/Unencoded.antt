-- ===== src/ApiServer/Unencoded.antt =====
-- An answer that cannot be encoded, once its status is written.
use capi_noplane.Prelude.{String, ℕ, List, [], none, some, ◌≡◌, refl, ap, ◌∙◌, ◌<>◌, string_eq}
use capi_noplane.Errors.{Error, ok, err}
use capi_noplane.Exec.{◌>>=◌, Sys}
use capi_noplane.Api.Http.{Header, HttpResponse, header_get}
use capi_noplane.Api.Models.{Tenant}
use capi_noplane.ApiServer.Writer.{ResponseWriter, received, http_error}
use capi_noplane.ApiServer.Kit.{ServerKit, ServerRequest}
use capi_noplane.ApiServer.ParamErrors.{server_error_text}
use capi_noplane.ApiServer.Delivery.{fresh, json_header, empty_append, header-json}
use capi_noplane.ApiServer.Objects.{
  no_parameters, get_tenants200, send_json, visit_get_tenants_response,
}
use capi_noplane.ApiServer.Chain.{StrictServerInterface, Served, Request, through, respond}
use capi_noplane.ApiServer.Strict.{
  new_strict_handler, strict_get_tenants, as_get_tenants, call_get_tenants,
}

-- The status and the headers are out, and the body is empty.
abbrev begun : Header → ℕ → ResponseWriter
begun h status = record {
  header = json_header h;
  sent = some (status, json_header h);
  body = "";
  fault = none;
}

begin :
    (h : Header) (status : ℕ) (e : Error)
    → send_json status (err e) (fresh h) ≡ ok (some e, begun h status)
unfolding send_json
begin h status e = refl

module _ (h : Header) (message : String) (text : ℕ → String) where
  abbrev late : HttpResponse
  late = received text (http_error message 500 (begun h 200))

  late_answer :
      (late.status_code ≡ 200)
      × (header_get "Content-Type" late.header ≡ "application/json")
      × (late.body ≡ ok (message <> "\n"))
  unfolding received http_error
  late_answer = (refl, header-json h, ap ok (empty_append (message <> "\n")))

module _ {W C : Type 0} (kit : ServerKit C) (ssi : StrictServerInterface W C) (r : ServerRequest C)
    (h : Header) (s : Sys (Served W) Request) (blank : s.world.writer ≡ fresh h) (text : ℕ → String)
    (tenants : List Tenant) (e : Error)
    (answered : (ssi.get_tenants r.context no_parameters s.world.world).0
      ≡ ok (some (get_tenants200 tenants)))
    (unencoded : kit.encode_tenants tenants ≡ err e) where
  visited :
      visit_get_tenants_response kit (get_tenants200 tenants) s.world.writer
      ≡ ok (some e, begun h 200)
  unfolding visit_get_tenants_response
  visited =
      ap (λ w. send_json 200 (kit.encode_tenants tenants) w) blank
      ∙ ap (λ x. send_json 200 x (fresh h)) unencoded
      ∙ begin h 200 e

  written :
      (strict_get_tenants kit (new_strict_handler kit ssi []) r s).1.world.writer
      ≡ http_error (kit.error_text e) 500 (begun h 200)
  unfolding strict_get_tenants as_get_tenants call_get_tenants respond new_strict_handler through
      server_error_text ◌>>=◌
  written = rw (answered, visited)

  -- The tenants that cannot be encoded are answered as a success: the status 200 and the content type
  -- are out before the encoder fails, so that the error handler changes neither, and the client gets
  -- a 200 of type application/json whose body is the text of the error. The answer is blank before,
  -- and the connection takes it.
  pub strict_get_tenants_unencoded :
      let rsp =
        received text (strict_get_tenants kit (new_strict_handler kit ssi []) r s).1.world.writer in
      (rsp.status_code ≡ 200)
      × (header_get "Content-Type" rsp.header ≡ "application/json")
      × (rsp.body ≡ ok (kit.error_text e <> "\n"))
  strict_get_tenants_unencoded = rw written (late_answer h (kit.error_text e) text)
