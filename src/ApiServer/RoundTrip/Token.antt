-- ===== src/ApiServer/RoundTrip/Token.antt =====
-- A new bootstrap token: from a response object of the implementation over the answer of the strict
-- server to what the parsers of the client make of it.
use mathlib.Core.Path.{subst}
use capi_noplane.Prelude.{String, ℕ, [], none, some, ◌≡◌, refl, ap, sym, ◌∙◌, arith, nat_eq}
use capi_noplane.Errors.{ok}
use capi_noplane.Exec.{◌>>=◌, Sys}
use capi_noplane.Types.{Bytes}
use capi_noplane.Api.Models.{CreateTokenRequest}
use capi_noplane.Api.Http.{Header, HttpKit, HttpResponse}
use capi_noplane.Api.Responses.{CreateTenantTokenResponse, empty_create_tenant_token}
use capi_noplane.Api.Parse.{parse_create_tenant_token_response}
use capi_noplane.ApiServer.Writer.{ResponseWriter, received}
use capi_noplane.ApiServer.Kit.{ServerKit, ServerRequest}
use capi_noplane.ApiServer.Delivery.{
  handled-respond, fresh, json_answer, send_json_fresh, header_is_json,
}
use capi_noplane.ApiServer.Chain.{Response, StrictServerInterface, Served, Request, through}
use capi_noplane.ApiServer.Strict.{
  new_strict_handler, strict_create_tenant_token, as_create_tenant_token, call_create_tenant_token,
}
use capi_noplane.ApiServer.Objects.{
  CreateTenantTokenResponseObject, visit_create_tenant_token_response, create_tenant_token201,
  create_tenant_token400, create_tenant_token403, create_tenant_token404, create_tenant_token500,
}

-- What the client makes of a response object.
abbrev pub seen_create_tenant_token :
    CreateTenantTokenResponseObject → HttpResponse → Bytes → CreateTenantTokenResponse
seen_create_tenant_token (create_tenant_token201 x) rsp body =
    record (empty_create_tenant_token rsp body) { json201 = some x }
seen_create_tenant_token (create_tenant_token400 x) rsp body =
    record (empty_create_tenant_token rsp body) { json400 = some x }
seen_create_tenant_token (create_tenant_token403 x) rsp body =
    record (empty_create_tenant_token rsp body) { json403 = some x }
seen_create_tenant_token (create_tenant_token404 x) rsp body =
    record (empty_create_tenant_token rsp body) { json404 = some x }
seen_create_tenant_token (create_tenant_token500 x) rsp body =
    record (empty_create_tenant_token rsp body) { json500 = some x }

module _ {C : Type 0} (kit : ServerKit C) (client : HttpKit) where
  -- The client reads the value back from the bytes that the server writes for it.
  abbrev pub IsReadCreateTenantToken : CreateTenantTokenResponseObject → Bytes → Type 0
  IsReadCreateTenantToken (create_tenant_token201 x) body =
      (kit.encode_token x ≡ ok body) × (client.unmarshal_token body ≡ ok x)
  IsReadCreateTenantToken (create_tenant_token400 x) body =
      (kit.encode_error x ≡ ok body) × (client.unmarshal_error body ≡ ok x)
  IsReadCreateTenantToken (create_tenant_token403 x) body =
      (kit.encode_error x ≡ ok body) × (client.unmarshal_error body ≡ ok x)
  IsReadCreateTenantToken (create_tenant_token404 x) body =
      (kit.encode_error x ≡ ok body) × (client.unmarshal_error body ≡ ok x)
  IsReadCreateTenantToken (create_tenant_token500 x) body =
      (kit.encode_error x ≡ ok body) × (client.unmarshal_error body ≡ ok x)

  answer_create_tenant_token : CreateTenantTokenResponseObject → Header → Bytes → ResponseWriter
  answer_create_tenant_token (create_tenant_token201 x) h body = json_answer h 201 body
  answer_create_tenant_token (create_tenant_token400 x) h body = json_answer h 400 body
  answer_create_tenant_token (create_tenant_token403 x) h body = json_answer h 403 body
  answer_create_tenant_token (create_tenant_token404 x) h body = json_answer h 404 body
  answer_create_tenant_token (create_tenant_token500 x) h body = json_answer h 500 body

  visited_create_tenant_token :
      (resp : CreateTenantTokenResponseObject) (h : Header) (body : Bytes)
      → IsReadCreateTenantToken resp body
      → visit_create_tenant_token_response kit resp (fresh h)
        ≡ ok (none, answer_create_tenant_token resp h body)
  unfolding visit_create_tenant_token_response answer_create_tenant_token
  visited_create_tenant_token (create_tenant_token201 x) h body (e, _) =
      send_json_fresh h 201 body refl e
  visited_create_tenant_token (create_tenant_token400 x) h body (e, _) =
      send_json_fresh h 400 body refl e
  visited_create_tenant_token (create_tenant_token403 x) h body (e, _) =
      send_json_fresh h 403 body refl e
  visited_create_tenant_token (create_tenant_token404 x) h body (e, _) =
      send_json_fresh h 404 body refl e
  visited_create_tenant_token (create_tenant_token500 x) h body (e, _) =
      send_json_fresh h 500 body refl e

  parsed_create_tenant_token :
      (resp : CreateTenantTokenResponseObject) (h : Header) (body : Bytes) (text : ℕ → String)
      → IsReadCreateTenantToken resp body
      → let rsp = received text (answer_create_tenant_token resp h body) in
        parse_create_tenant_token_response client rsp ≡ ok (seen_create_tenant_token resp rsp body)
  unfolding parse_create_tenant_token_response answer_create_tenant_token received
  parsed_create_tenant_token (create_tenant_token201 x) h body text (_, e) =
      ground (arith, header_is_json h)
  parsed_create_tenant_token (create_tenant_token400 x) h body text (_, e) =
      ground (arith, header_is_json h)
  parsed_create_tenant_token (create_tenant_token403 x) h body text (_, e) =
      ground (arith, header_is_json h)
  parsed_create_tenant_token (create_tenant_token404 x) h body text (_, e) =
      ground (arith, header_is_json h)
  parsed_create_tenant_token (create_tenant_token500 x) h body text (_, e) =
      ground (arith, header_is_json h)

  module _ {W : Type 0} (ssi : StrictServerInterface W C) (r : ServerRequest C) (h : Header)
      (s : Sys (Served W) Request) (blank : s.world.writer ≡ fresh h) (text : ℕ → String)
      (tenant_id : String) {asked : CreateTokenRequest}
      (decoded : kit.decode_create_token r.body ≡ ok asked) (resp : CreateTenantTokenResponseObject)
      (body : Bytes)
      (answered : (ssi.create_tenant_token r.context
          (record { tenant_id = tenant_id; body = some asked })
          s.world.world).0
        ≡ ok (some resp))
      (reads : IsReadCreateTenantToken resp body) where
    written_create_tenant_token :
        (strict_create_tenant_token kit
          (new_strict_handler kit ssi [])
          r
          tenant_id
          s).1.world.writer
        ≡ answer_create_tenant_token resp h body
    unfolding strict_create_tenant_token as_create_tenant_token call_create_tenant_token
        new_strict_handler through ◌>>=◌
    written_create_tenant_token = rw decoded (
        handled-respond (new_strict_handler kit ssi []) r (as_create_tenant_token kit)
          (call_create_tenant_token kit (new_strict_handler kit ssi []) r.context r
            (Request.create_tenant_token (record { tenant_id = tenant_id; body = some asked })))
          s (Response.create_tenant_token resp) (λ w. visit_create_tenant_token_response kit resp w)
          (rw answered) (rw answered) refl
          (ap (λ w. visit_create_tenant_token_response kit resp w) blank
            ∙ visited_create_tenant_token resp h body reads))

    -- Where the implementation answers a request that decodes with a documented response whose
    -- bytes the client can read back, what the client parses from the answer of the strict server
    -- is that response: the field of its status has the value, and no other field is set. The
    -- answer is blank before, the connection takes the bytes, and there are no middlewares.
    pub strict_create_tenant_token_roundtrip :
        let rsp =
          received text
            (strict_create_tenant_token kit
              (new_strict_handler kit ssi [])
              r
              tenant_id
              s).1.world.writer in
        parse_create_tenant_token_response client rsp ≡ ok (seen_create_tenant_token resp rsp body)
    strict_create_tenant_token_roundtrip =
        subst
          (λ w.
            parse_create_tenant_token_response client (received text w)
            ≡ ok (seen_create_tenant_token resp (received text w) body))
          (sym written_create_tenant_token) (parsed_create_tenant_token resp h body text reads)
