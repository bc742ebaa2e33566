-- ===== src/ApiServer/RoundTrip/Kubeconfig.antt =====
-- A kubeconfig: from a response object of the implementation over the answer of the strict server
-- to what the parsers of the client make of it.
use mathlib.Core.Path.{subst}
use capi_noplane.Prelude.{String, ℕ, [], none, some, ◌≡◌, refl, ap, sym, ◌∙◌, arith, nat_eq}
use capi_noplane.Errors.{ok}
use capi_noplane.Exec.{◌>>=◌, Sys}
use capi_noplane.Types.{Bytes}
use capi_noplane.Api.Http.{Header, HttpKit, HttpResponse}
use capi_noplane.Api.Responses.{GetTenantKubeconfigResponse, empty_get_tenant_kubeconfig}
use capi_noplane.Api.Parse.{parse_get_tenant_kubeconfig_response}
use capi_noplane.ApiServer.Writer.{ResponseWriter, received}
use capi_noplane.ApiServer.Kit.{ServerKit, ServerRequest}
use capi_noplane.ApiServer.Delivery.{
  handled-respond, fresh, json_answer, send_json_fresh, header_is_json,
}
use capi_noplane.ApiServer.Chain.{Response, StrictServerInterface, Served, Request, through}
use capi_noplane.ApiServer.Strict.{
  new_strict_handler, strict_get_tenant_kubeconfig, as_get_tenant_kubeconfig,
  call_get_tenant_kubeconfig,
}
use capi_noplane.ApiServer.Objects.{
  GetTenantKubeconfigResponseObject, visit_get_tenant_kubeconfig_response, get_tenant_kubeconfig200,
  get_tenant_kubeconfig400, get_tenant_kubeconfig403, get_tenant_kubeconfig404,
  get_tenant_kubeconfig500,
}

-- What the client makes of a response object.
abbrev pub seen_get_tenant_kubeconfig :
    GetTenantKubeconfigResponseObject → HttpResponse → Bytes → GetTenantKubeconfigResponse
seen_get_tenant_kubeconfig (get_tenant_kubeconfig200 x) rsp body =
    record (empty_get_tenant_kubeconfig rsp body) { json200 = some x }
seen_get_tenant_kubeconfig (get_tenant_kubeconfig400 x) rsp body =
    record (empty_get_tenant_kubeconfig rsp body) { json400 = some x }
seen_get_tenant_kubeconfig (get_tenant_kubeconfig403 x) rsp body =
    record (empty_get_tenant_kubeconfig rsp body) { json403 = some x }
seen_get_tenant_kubeconfig (get_tenant_kubeconfig404 x) rsp body =
    record (empty_get_tenant_kubeconfig rsp body) { json404 = some x }
seen_get_tenant_kubeconfig (get_tenant_kubeconfig500 x) rsp body =
    record (empty_get_tenant_kubeconfig rsp body) { json500 = some x }

module _ {C : Type 0} (kit : ServerKit C) (client : HttpKit) where
  -- The client reads the value back from the bytes that the server writes for it.
  abbrev pub IsReadGetTenantKubeconfig : GetTenantKubeconfigResponseObject → Bytes → Type 0
  IsReadGetTenantKubeconfig (get_tenant_kubeconfig200 x) body =
      (kit.encode_kubeconfig x ≡ ok body) × (client.unmarshal_kubeconfig body ≡ ok x)
  IsReadGetTenantKubeconfig (get_tenant_kubeconfig400 x) body =
      (kit.encode_error x ≡ ok body) × (client.unmarshal_error body ≡ ok x)
  IsReadGetTenantKubeconfig (get_tenant_kubeconfig403 x) body =
      (kit.encode_error x ≡ ok body) × (client.unmarshal_error body ≡ ok x)
  IsReadGetTenantKubeconfig (get_tenant_kubeconfig404 x) body =
      (kit.encode_error x ≡ ok body) × (client.unmarshal_error body ≡ ok x)
  IsReadGetTenantKubeconfig (get_tenant_kubeconfig500 x) body =
      (kit.encode_error x ≡ ok body) × (client.unmarshal_error body ≡ ok x)

  answer_get_tenant_kubeconfig : GetTenantKubeconfigResponseObject → Header → Bytes → ResponseWriter
  answer_get_tenant_kubeconfig (get_tenant_kubeconfig200 x) h body = json_answer h 200 body
  answer_get_tenant_kubeconfig (get_tenant_kubeconfig400 x) h body = json_answer h 400 body
  answer_get_tenant_kubeconfig (get_tenant_kubeconfig403 x) h body = json_answer h 403 body
  answer_get_tenant_kubeconfig (get_tenant_kubeconfig404 x) h body = json_answer h 404 body
  answer_get_tenant_kubeconfig (get_tenant_kubeconfig500 x) h body = json_answer h 500 body

  visited_get_tenant_kubeconfig :
      (resp : GetTenantKubeconfigResponseObject) (h : Header) (body : Bytes)
      → IsReadGetTenantKubeconfig resp body
      → visit_get_tenant_kubeconfig_response kit resp (fresh h)
        ≡ ok (none, answer_get_tenant_kubeconfig resp h body)
  unfolding visit_get_tenant_kubeconfig_response answer_get_tenant_kubeconfig
  visited_get_tenant_kubeconfig (get_tenant_kubeconfig200 x) h body (e, _) =
      send_json_fresh h 200 body refl e
  visited_get_tenant_kubeconfig (get_tenant_kubeconfig400 x) h body (e, _) =
      send_json_fresh h 400 body refl e
  visited_get_tenant_kubeconfig (get_tenant_kubeconfig403 x) h body (e, _) =
      send_json_fresh h 403 body refl e
  visited_get_tenant_kubeconfig (get_tenant_kubeconfig404 x) h body (e, _) =
      send_json_fresh h 404 body refl e
  visited_get_tenant_kubeconfig (get_tenant_kubeconfig500 x) h body (e, _) =
      send_json_fresh h 500 body refl e

  parsed_get_tenant_kubeconfig :
      (resp : GetTenantKubeconfigResponseObject) (h : Header) (body : Bytes) (text : ℕ → String)
      → IsReadGetTenantKubeconfig resp body
      → let rsp = received text (answer_get_tenant_kubeconfig resp h body) in
        parse_get_tenant_kubeconfig_response client rsp
        ≡ ok (seen_get_tenant_kubeconfig resp rsp body)
  unfolding parse_get_tenant_kubeconfig_response answer_get_tenant_kubeconfig received
  parsed_get_tenant_kubeconfig (get_tenant_kubeconfig200 x) h body text (_, e) =
      ground (arith, header_is_json h)
  parsed_get_tenant_kubeconfig (get_tenant_kubeconfig400 x) h body text (_, e) =
      ground (arith, header_is_json h)
  parsed_get_tenant_kubeconfig (get_tenant_kubeconfig403 x) h body text (_, e) =
      ground (arith, header_is_json h)
  parsed_get_tenant_kubeconfig (get_tenant_kubeconfig404 x) h body text (_, e) =
      ground (arith, header_is_json h)
  parsed_get_tenant_kubeconfig (get_tenant_kubeconfig500 x) h body text (_, e) =
      ground (arith, header_is_json h)

  module _ {W : Type 0} (ssi : StrictServerInterface W C) (r : ServerRequest C) (h : Header)
      (s : Sys (Served W) Request) (blank : s.world.writer ≡ fresh h) (text : ℕ → String)
      (tenant_id : String) (resp : GetTenantKubeconfigResponseObject) (body : Bytes)
      (answered : (ssi.get_tenant_kubeconfig r.context
          (record { tenant_id = tenant_id })
          s.world.world).0
        ≡ ok (some resp))
      (reads : IsReadGetTenantKubeconfig resp body) where
    written_get_tenant_kubeconfig :
        (strict_get_tenant_kubeconfig kit
          (new_strict_handler kit ssi [])
          r
          tenant_id
          s).1.world.writer
        ≡ answer_get_tenant_kubeconfig resp h body
    unfolding strict_get_tenant_kubeconfig as_get_tenant_kubeconfig call_get_tenant_kubeconfig
        new_strict_handler through ◌>>=◌
    written_get_tenant_kubeconfig =
        handled-respond (new_strict_handler kit ssi []) r (as_get_tenant_kubeconfig kit)
          (call_get_tenant_kubeconfig kit (new_strict_handler kit ssi []) r.context r
            (Request.get_tenant_kubeconfig (record { tenant_id = tenant_id })))
          s (Response.get_tenant_kubeconfig resp)
          (λ w. visit_get_tenant_kubeconfig_response kit resp w) (rw answered) (rw answered) refl
          (ap (λ w. visit_get_tenant_kubeconfig_response kit resp w) blank
            ∙ visited_get_tenant_kubeconfig resp h body reads)

    -- Where the implementation answers with a documented response whose bytes the client can read
    -- back, what the client parses from the answer of the strict server is that response: the field
    -- of its status has the value, and no other field is set. The answer is blank before, the
    -- connection takes the bytes, and there are no middlewares.
    pub strict_get_tenant_kubeconfig_roundtrip :
        let rsp =
          received text
            (strict_get_tenant_kubeconfig kit
              (new_strict_handler kit ssi [])
              r
              tenant_id
              s).1.world.writer in
        parse_get_tenant_kubeconfig_response client rsp
        ≡ ok (seen_get_tenant_kubeconfig resp rsp body)
    strict_get_tenant_kubeconfig_roundtrip =
        subst
          (λ w.
            parse_get_tenant_kubeconfig_response client (received text w)
            ≡ ok (seen_get_tenant_kubeconfig resp (received text w) body))
          (sym written_get_tenant_kubeconfig) (parsed_get_tenant_kubeconfig resp h body text reads)
