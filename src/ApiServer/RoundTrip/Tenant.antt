-- ===== src/ApiServer/RoundTrip/Tenant.antt =====
-- One tenant: from a response object of the implementation over the answer of the strict server
-- to what the parsers of the client make of it.
use mathlib.Core.Path.{subst}
use capi_noplane.Prelude.{String, ℕ, [], none, some, ◌≡◌, refl, ap, sym, ◌∙◌, arith, nat_eq}
use capi_noplane.Errors.{ok}
use capi_noplane.Exec.{◌>>=◌, Sys}
use capi_noplane.Types.{Bytes}
use capi_noplane.Api.Http.{Header, HttpKit, HttpResponse}
use capi_noplane.Api.Responses.{DeleteTenantResponse, empty_delete_tenant}
use capi_noplane.Api.Parse.{parse_delete_tenant_response}
use capi_noplane.ApiServer.Writer.{ResponseWriter, received}
use capi_noplane.ApiServer.Kit.{ServerKit, ServerRequest}
use capi_noplane.ApiServer.Delivery.{
  handled-respond, fresh, json_answer, send_json_fresh, header_is_json,
}
use capi_noplane.ApiServer.Chain.{Response, StrictServerInterface, Served, Request, through}
use capi_noplane.ApiServer.Strict.{
  new_strict_handler, strict_delete_tenant, as_delete_tenant, call_delete_tenant,
}
use capi_noplane.ApiServer.Objects.{
  DeleteTenantResponseObject, visit_delete_tenant_response, delete_tenant204, delete_tenant400,
  delete_tenant403, delete_tenant404, delete_tenant500,
}

-- What the client makes of a response object.
abbrev pub seen_delete_tenant :
    DeleteTenantResponseObject → HttpResponse → Bytes → DeleteTenantResponse
seen_delete_tenant delete_tenant204 rsp body = empty_delete_tenant rsp body
seen_delete_tenant (delete_tenant400 x) rsp body = record (empty_delete_tenant rsp body) {
  json400 = some x;
}
seen_delete_tenant (delete_tenant403 x) rsp body = record (empty_delete_tenant rsp body) {
  json403 = some x;
}
seen_delete_tenant (delete_tenant404 x) rsp body = record (empty_delete_tenant rsp body) {
  json404 = some x;
}
seen_delete_tenant (delete_tenant500 x) rsp body = record (empty_delete_tenant rsp body) {
  json500 = some x;
}

module _ {C : Type 0} (kit : ServerKit C) (client : HttpKit) where
  -- The client reads the value back from the bytes that the server writes for it.
  abbrev pub IsReadDeleteTenant : DeleteTenantResponseObject → Bytes → Type 0
  IsReadDeleteTenant delete_tenant204 body = body ≡ ""
  IsReadDeleteTenant (delete_tenant400 x) body =
      (kit.encode_error x ≡ ok body) × (client.unmarshal_error body ≡ ok x)
  IsReadDeleteTenant (delete_tenant403 x) body =
      (kit.encode_error x ≡ ok body) × (client.unmarshal_error body ≡ ok x)
  IsReadDeleteTenant (delete_tenant404 x) body =
      (kit.encode_error x ≡ ok body) × (client.unmarshal_error body ≡ ok x)
  IsReadDeleteTenant (delete_tenant500 x) body =
      (kit.encode_error x ≡ ok body) × (client.unmarshal_error body ≡ ok x)

  answer_delete_tenant : DeleteTenantResponseObject → Header → Bytes → ResponseWriter
  answer_delete_tenant delete_tenant204 h body = record {
    header = h;
    sent = some (204, h);
    body = body;
    fault = none;
  }
  answer_delete_tenant (delete_tenant400 x) h body = json_answer h 400 body
  answer_delete_tenant (delete_tenant403 x) h body = json_answer h 403 body
  answer_delete_tenant (delete_tenant404 x) h body = json_answer h 404 body
  answer_delete_tenant (delete_tenant500 x) h body = json_answer h 500 body

  visited_delete_tenant :
      (resp : DeleteTenantResponseObject) (h : Header) (body : Bytes)
      → IsReadDeleteTenant resp body
      → visit_delete_tenant_response kit resp (fresh h)
        ≡ ok (none, answer_delete_tenant resp h body)
  unfolding visit_delete_tenant_response answer_delete_tenant
  visited_delete_tenant delete_tenant204 h body e =
      ap (λ b. ok (none, record { header = h; sent = some (204, h); body = b; fault = none }))
        (sym e)
  visited_delete_tenant (delete_tenant400 x) h body (e, _) = send_json_fresh h 400 body refl e
  visited_delete_tenant (delete_tenant403 x) h body (e, _) = send_json_fresh h 403 body refl e
  visited_delete_tenant (delete_tenant404 x) h body (e, _) = send_json_fresh h 404 body refl e
  visited_delete_tenant (delete_tenant500 x) h body (e, _) = send_json_fresh h 500 body refl e

  parsed_delete_tenant :
      (resp : DeleteTenantResponseObject) (h : Header) (body : Bytes) (text : ℕ → String)
      → IsReadDeleteTenant resp body
      → let rsp = received text (answer_delete_tenant resp h body) in
        parse_delete_tenant_response client rsp ≡ ok (seen_delete_tenant resp rsp body)
  unfolding parse_delete_tenant_response answer_delete_tenant received
  parsed_delete_tenant delete_tenant204 h body text e = ground arith
  parsed_delete_tenant (delete_tenant400 x) h body text (_, e) = ground (arith, header_is_json h)
  parsed_delete_tenant (delete_tenant403 x) h body text (_, e) = ground (arith, header_is_json h)
  parsed_delete_tenant (delete_tenant404 x) h body text (_, e) = ground (arith, header_is_json h)
  parsed_delete_tenant (delete_tenant500 x) h body text (_, e) = ground (arith, header_is_json h)

  module _ {W : Type 0} (ssi : StrictServerInterface W C) (r : ServerRequest C) (h : Header)
      (s : Sys (Served W) Request) (blank : s.world.writer ≡ fresh h) (text : ℕ → String)
      (tenant_id : String) (resp : DeleteTenantResponseObject) (body : Bytes)
      (answered : (ssi.delete_tenant r.context (record { tenant_id = tenant_id }) s.world.world).0
        ≡ ok (some resp))
      (reads : IsReadDeleteTenant resp body) where
    written_delete_tenant :
        (strict_delete_tenant kit (new_strict_handler kit ssi []) r tenant_id s).1.world.writer
        ≡ answer_delete_tenant resp h body
    unfolding strict_delete_tenant as_delete_tenant call_delete_tenant new_strict_handler through
        ◌>>=◌
    written_delete_tenant =
        handled-respond (new_strict_handler kit ssi []) r (as_delete_tenant kit)
          (call_delete_tenant kit (new_strict_handler kit ssi []) r.context r
            (Request.delete_tenant (record { tenant_id = tenant_id })))
          s (Response.delete_tenant resp) (λ w. visit_delete_tenant_response kit resp w)
          (rw answered) (rw answered) refl
          (ap (λ w. visit_delete_tenant_response kit resp w) blank
            ∙ visited_delete_tenant resp h body reads)

    -- Where the implementation answers with a documented response whose bytes the client can read
    -- back, what the client parses from the answer of the strict server is that response: the field
    -- of its status has the value, and no other field is set. The answer is blank before, the
    -- connection takes the bytes, and there are no middlewares.
    pub strict_delete_tenant_roundtrip :
        let rsp =
          received text
            (strict_delete_tenant kit
              (new_strict_handler kit ssi [])
              r
              tenant_id
              s).1.world.writer in
        parse_delete_tenant_response client rsp ≡ ok (seen_delete_tenant resp rsp body)
    strict_delete_tenant_roundtrip =
        subst
          (λ w.
            parse_delete_tenant_response client (received text w)
            ≡ ok (seen_delete_tenant resp (received text w) body))
          (sym written_delete_tenant) (parsed_delete_tenant resp h body text reads)
