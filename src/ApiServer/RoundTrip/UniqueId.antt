-- ===== src/ApiServer/RoundTrip/UniqueId.antt =====
-- The availability of a unique ID: from a response object of the implementation over the answer of
-- the strict server to what the parsers of the client make of it.
use mathlib.Core.Path.{subst}
use capi_noplane.Prelude.{String, ℕ, [], none, some, ◌≡◌, refl, ap, sym, ◌∙◌, arith, nat_eq}
use capi_noplane.Errors.{ok}
use capi_noplane.Exec.{◌>>=◌, Sys}
use capi_noplane.Types.{Bytes}
use capi_noplane.Api.Http.{Header, HttpKit, HttpResponse}
use capi_noplane.Api.Responses.{ValidateTenantUniqueIdResponse, empty_validate_tenant_unique_id}
use capi_noplane.Api.Parse.{parse_validate_tenant_unique_id_response}
use capi_noplane.ApiServer.Writer.{ResponseWriter, received}
use capi_noplane.ApiServer.Kit.{ServerKit, ServerRequest}
use capi_noplane.ApiServer.Delivery.{
  handled-respond, fresh, json_answer, send_json_fresh, header_is_json,
}
use capi_noplane.ApiServer.Chain.{Response, StrictServerInterface, Served, Request, through}
use capi_noplane.ApiServer.Strict.{
  new_strict_handler, strict_validate_tenant_unique_id, as_validate_tenant_unique_id,
  call_validate_tenant_unique_id,
}
use capi_noplane.ApiServer.Objects.{
  ValidateTenantUniqueIdResponseObject, visit_validate_tenant_unique_id_response,
  validate_tenant_unique_id200, validate_tenant_unique_id400, validate_tenant_unique_id500,
}

-- What the client makes of a response object.
abbrev pub seen_validate_tenant_unique_id :
    ValidateTenantUniqueIdResponseObject → HttpResponse → Bytes → ValidateTenantUniqueIdResponse
seen_validate_tenant_unique_id (validate_tenant_unique_id200 x) rsp body =
    record (empty_validate_tenant_unique_id rsp body) { json200 = some x }
seen_validate_tenant_unique_id (validate_tenant_unique_id400 x) rsp body =
    record (empty_validate_tenant_unique_id rsp body) { json400 = some x }
seen_validate_tenant_unique_id (validate_tenant_unique_id500 x) rsp body =
    record (empty_validate_tenant_unique_id rsp body) { json500 = some x }

module _ {C : Type 0} (kit : ServerKit C) (client : HttpKit) where
  -- The client reads the value back from the bytes that the server writes for it.
  abbrev pub IsReadValidateTenantUniqueId : ValidateTenantUniqueIdResponseObject → Bytes → Type 0
  IsReadValidateTenantUniqueId (validate_tenant_unique_id200 x) body =
      (kit.encode_available x ≡ ok body) × (client.unmarshal_available body ≡ ok x)
  IsReadValidateTenantUniqueId (validate_tenant_unique_id400 x) body =
      (kit.encode_error x ≡ ok body) × (client.unmarshal_error body ≡ ok x)
  IsReadValidateTenantUniqueId (validate_tenant_unique_id500 x) body =
      (kit.encode_error x ≡ ok body) × (client.unmarshal_error body ≡ ok x)

  answer_validate_tenant_unique_id :
      ValidateTenantUniqueIdResponseObject → Header → Bytes → ResponseWriter
  answer_validate_tenant_unique_id (validate_tenant_unique_id200 x) h body = json_answer h 200 body
  answer_validate_tenant_unique_id (validate_tenant_unique_id400 x) h body = json_answer h 400 body
  answer_validate_tenant_unique_id (validate_tenant_unique_id500 x) h body = json_answer h 500 body

  visited_validate_tenant_unique_id :
      (resp : ValidateTenantUniqueIdResponseObject) (h : Header) (body : Bytes)
      → IsReadValidateTenantUniqueId resp body
      → visit_validate_tenant_unique_id_response kit resp (fresh h)
        ≡ ok (none, answer_validate_tenant_unique_id resp h body)
  unfolding visit_validate_tenant_unique_id_response answer_validate_tenant_unique_id
  visited_validate_tenant_unique_id (validate_tenant_unique_id200 x) h body (e, _) =
      send_json_fresh h 200 body refl e
  visited_validate_tenant_unique_id (validate_tenant_unique_id400 x) h body (e, _) =
      send_json_fresh h 400 body refl e
  visited_validate_tenant_unique_id (validate_tenant_unique_id500 x) h body (e, _) =
      send_json_fresh h 500 body refl e

  parsed_validate_tenant_unique_id :
      (resp : ValidateTenantUniqueIdResponseObject) (h : Header) (body : Bytes) (text : ℕ → String)
      → IsReadValidateTenantUniqueId resp body
      → let rsp = received text (answer_validate_tenant_unique_id resp h body) in
        parse_validate_tenant_unique_id_response client rsp
        ≡ ok (seen_validate_tenant_unique_id resp rsp body)
  unfolding parse_validate_tenant_unique_id_response answer_validate_tenant_unique_id received
  parsed_validate_tenant_unique_id (validate_tenant_unique_id200 x) h body text (_, e) =
      ground (arith, header_is_json h)
  parsed_validate_tenant_unique_id (validate_tenant_unique_id400 x) h body text (_, e) =
      ground (arith, header_is_json h)
  parsed_validate_tenant_unique_id (validate_tenant_unique_id500 x) h body text (_, e) =
      ground (arith, header_is_json h)

  module _ {W : Type 0} (ssi : StrictServerInterface W C) (r : ServerRequest C) (h : Header)
      (s : Sys (Served W) Request) (blank : s.world.writer ≡ fresh h) (text : ℕ → String)
      (unique_id : String) (resp : ValidateTenantUniqueIdResponseObject) (body : Bytes)
      (answered : (ssi.validate_tenant_unique_id r.context
          (record { unique_id = unique_id })
          s.world.world).0
        ≡ ok (some resp))
      (reads : IsReadValidateTenantUniqueId resp body) where
    written_validate_tenant_unique_id :
        (strict_validate_tenant_unique_id kit
          (new_strict_handler kit ssi [])
          r
          unique_id
          s).1.world.writer
        ≡ answer_validate_tenant_unique_id resp h body
    unfolding strict_validate_tenant_unique_id as_validate_tenant_unique_id
        call_validate_tenant_unique_id new_strict_handler through ◌>>=◌
    written_validate_tenant_unique_id =
        handled-respond (new_strict_handler kit ssi []) r (as_validate_tenant_unique_id kit)
          (call_validate_tenant_unique_id kit (new_strict_handler kit ssi []) r.context r
            (Request.validate_tenant_unique_id (record { unique_id = unique_id })))
          s (Response.validate_tenant_unique_id resp)
          (λ w. visit_validate_tenant_unique_id_response kit resp w) (rw answered) (rw answered)
          refl
          (ap (λ w. visit_validate_tenant_unique_id_response kit resp w) blank
            ∙ visited_validate_tenant_unique_id resp h body reads)

    -- Where the implementation answers with a documented response whose bytes the client can read
    -- back, what the client parses from the answer of the strict server is that response: the field
    -- of its status has the value, and no other field is set. The answer is blank before, the
    -- connection takes the bytes, and there are no middlewares.
    pub strict_validate_tenant_unique_id_roundtrip :
        let rsp =
          received text
            (strict_validate_tenant_unique_id kit
              (new_strict_handler kit ssi [])
              r
              unique_id
              s).1.world.writer in
        parse_validate_tenant_unique_id_response client rsp
        ≡ ok (seen_validate_tenant_unique_id resp rsp body)
    strict_validate_tenant_unique_id_roundtrip =
        subst
          (λ w.
            parse_validate_tenant_unique_id_response client (received text w)
            ≡ ok (seen_validate_tenant_unique_id resp (received text w) body))
          (sym written_validate_tenant_unique_id)
          (parsed_validate_tenant_unique_id resp h body text reads)
