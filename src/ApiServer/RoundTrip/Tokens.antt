-- ===== src/ApiServer/RoundTrip/Tokens.antt =====
-- The bootstrap tokens: from a response object of the implementation over the answer of the strict
-- server to what the parsers of the client make of it.
use mathlib.Core.Path.{subst}
use capi_noplane.Prelude.{String, ℕ, [], none, some, ◌≡◌, refl, ap, sym, ◌∙◌, arith, nat_eq}
use capi_noplane.Errors.{ok}
use capi_noplane.Exec.{◌>>=◌, Sys}
use capi_noplane.Types.{Bytes}
use capi_noplane.Api.Http.{Header, HttpKit, HttpResponse}
use capi_noplane.Api.Responses.{ListTenantTokensResponse, empty_list_tenant_tokens}
use capi_noplane.Api.Parse.{parse_list_tenant_tokens_response}
use capi_noplane.ApiServer.Writer.{ResponseWriter, received}
use capi_noplane.ApiServer.Kit.{ServerKit, ServerRequest}
use capi_noplane.ApiServer.Delivery.{
  handled-respond, fresh, json_answer, send_json_fresh, header_is_json,
}
use capi_noplane.ApiServer.Chain.{Response, StrictServerInterface, Served, Request, through}
use capi_noplane.ApiServer.Strict.{
  new_strict_handler, strict_list_tenant_tokens, as_list_tenant_tokens, call_list_tenant_tokens,
}
use capi_noplane.ApiServer.Objects.{
  ListTenantTokensResponseObject, visit_list_tenant_tokens_response, list_tenant_tokens200,
  list_tenant_tokens403, list_tenant_tokens404, list_tenant_tokens500,
}

-- What the client makes of a response object.
abbrev pub seen_list_tenant_tokens :
    ListTenantTokensResponseObject → HttpResponse → Bytes → ListTenantTokensResponse
seen_list_tenant_tokens (list_tenant_tokens200 x) rsp body =
    record (empty_list_tenant_tokens rsp body) { json200 = some x }
seen_list_tenant_tokens (list_tenant_tokens403 x) rsp body =
    record (empty_list_tenant_tokens rsp body) { json403 = some x }
seen_list_tenant_tokens (list_tenant_tokens404 x) rsp body =
    record (empty_list_tenant_tokens rsp body) { json404 = some x }
seen_list_tenant_tokens (list_tenant_tokens500 x) rsp body =
    record (empty_list_tenant_tokens rsp body) { json500 = some x }

module _ {C : Type 0} (kit : ServerKit C) (client : HttpKit) where
  -- The client reads the value back from the bytes that the server writes for it.
  abbrev pub IsReadListTenantTokens : ListTenantTokensResponseObject → Bytes → Type 0
  IsReadListTenantTokens (list_tenant_tokens200 x) body =
      (kit.encode_tokens x ≡ ok body) × (client.unmarshal_tokens body ≡ ok x)
  IsReadListTenantTokens (list_tenant_tokens403 x) body =
      (kit.encode_error x ≡ ok body) × (client.unmarshal_error body ≡ ok x)
  IsReadListTenantTokens (list_tenant_tokens404 x) body =
      (kit.encode_error x ≡ ok body) × (client.unmarshal_error body ≡ ok x)
  IsReadListTenantTokens (list_tenant_tokens500 x) body =
      (kit.encode_error x ≡ ok body) × (client.unmarshal_error body ≡ ok x)

  answer_list_tenant_tokens : ListTenantTokensResponseObject → Header → Bytes → ResponseWriter
  answer_list_tenant_tokens (list_tenant_tokens200 x) h body = json_answer h 200 body
  answer_list_tenant_tokens (list_tenant_tokens403 x) h body = json_answer h 403 body
  answer_list_tenant_tokens (list_tenant_tokens404 x) h body = json_answer h 404 body
  answer_list_tenant_tokens (list_tenant_tokens500 x) h body = json_answer h 500 body

  visited_list_tenant_tokens :
      (resp : ListTenantTokensResponseObject) (h : Header) (body : Bytes)
      → IsReadListTenantTokens resp body
      → visit_list_tenant_tokens_response kit resp (fresh h)
        ≡ ok (none, answer_list_tenant_tokens resp h body)
  unfolding visit_list_tenant_tokens_response answer_list_tenant_tokens
  visited_list_tenant_tokens (list_tenant_tokens200 x) h body (e, _) =
      send_json_fresh h 200 body refl e
  visited_list_tenant_tokens (list_tenant_tokens403 x) h body (e, _) =
      send_json_fresh h 403 body refl e
  visited_list_tenant_tokens (list_tenant_tokens404 x) h body (e, _) =
      send_json_fresh h 404 body refl e
  visited_list_tenant_tokens (list_tenant_tokens500 x) h body (e, _) =
      send_json_fresh h 500 body refl e

  parsed_list_tenant_tokens :
      (resp : ListTenantTokensResponseObject) (h : Header) (body : Bytes) (text : ℕ → String)
      → IsReadListTenantTokens resp body
      → let rsp = received text (answer_list_tenant_tokens resp h body) in
        parse_list_tenant_tokens_response client rsp ≡ ok (seen_list_tenant_tokens resp rsp body)
  unfolding parse_list_tenant_tokens_response answer_list_tenant_tokens received
  parsed_list_tenant_tokens (list_tenant_tokens200 x) h body text (_, e) =
      ground (arith, header_is_json h)
  parsed_list_tenant_tokens (list_tenant_tokens403 x) h body text (_, e) =
      ground (arith, header_is_json h)
  parsed_list_tenant_tokens (list_tenant_tokens404 x) h body text (_, e) =
      ground (arith, header_is_json h)
  parsed_list_tenant_tokens (list_tenant_tokens500 x) h body text (_, e) =
      ground (arith, header_is_json h)

  module _ {W : Type 0} (ssi : StrictServerInterface W C) (r : ServerRequest C) (h : Header)
      (s : Sys (Served W) Request) (blank : s.world.writer ≡ fresh h) (text : ℕ → String)
      (tenant_id : String) (resp : ListTenantTokensResponseObject) (body : Bytes)
      (answered : (ssi.list_tenant_tokens r.context
          (record { tenant_id = tenant_id })
          s.world.world).0
        ≡ ok (some resp))
      (reads : IsReadListTenantTokens resp body) where
    written_list_tenant_tokens :
        (strict_list_tenant_tokens kit (new_strict_handler kit ssi []) r tenant_id s).1.world.writer
        ≡ answer_list_tenant_tokens resp h body
    unfolding strict_list_tenant_tokens as_list_tenant_tokens call_list_tenant_tokens
        new_strict_handler through ◌>>=◌
    written_list_tenant_tokens =
        handled-respond (new_strict_handler kit ssi []) r (as_list_tenant_tokens kit)
          (call_list_tenant_tokens kit (new_strict_handler kit ssi []) r.context r
            (Request.list_tenant_tokens (record { tenant_id = tenant_id })))
          s (Response.list_tenant_tokens resp) (λ w. visit_list_tenant_tokens_response kit resp w)
          (rw answered) (rw answered) refl
          (ap (λ w. visit_list_tenant_tokens_response kit resp w) blank
            ∙ visited_list_tenant_tokens resp h body reads)

    -- Where the implementation answers with a documented response whose bytes the client can read
    -- back, what the client parses from the answer of the strict server is that response: the field
    -- of its status has the value, and no other field is set. The answer is blank before, the
    -- connection takes the bytes, and there are no middlewares.
    pub strict_list_tenant_tokens_roundtrip :
        let rsp =
          received text
            (strict_list_tenant_tokens kit
              (new_strict_handler kit ssi [])
              r
              tenant_id
              s).1.world.writer in
        parse_list_tenant_tokens_response client rsp ≡ ok (seen_list_tenant_tokens resp rsp body)
    strict_list_tenant_tokens_roundtrip =
        subst
          (λ w.
            parse_list_tenant_tokens_response client (received text w)
            ≡ ok (seen_list_tenant_tokens resp (received text w) body))
          (sym written_list_tenant_tokens) (parsed_list_tenant_tokens resp h body text reads)
