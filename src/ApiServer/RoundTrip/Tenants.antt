-- ===== src/ApiServer/RoundTrip/Tenants.antt =====
-- The tenants: from a response object of the implementation over the answer of the strict server
-- to what the parsers of the client make of it.
use mathlib.Core.Path.{subst}
use capi_noplane.Prelude.{String, ℕ, [], none, some, ◌≡◌, refl, ap, sym, ◌∙◌, arith, nat_eq}
use capi_noplane.Errors.{ok}
use capi_noplane.Exec.{◌>>=◌, Sys}
use capi_noplane.Types.{Bytes}
use capi_noplane.Api.Models.{CreateTenantRequest}
use capi_noplane.Api.Http.{Header, HttpKit, HttpResponse}
use capi_noplane.Api.Responses.{
  GetTenantsResponse, empty_get_tenants, CreateTenantResponse, empty_create_tenant,
}
use capi_noplane.Api.Parse.{parse_get_tenants_response, parse_create_tenant_response}
use capi_noplane.ApiServer.Writer.{ResponseWriter, received}
use capi_noplane.ApiServer.Kit.{ServerKit, ServerRequest}
use capi_noplane.ApiServer.Delivery.{
  handled-respond, fresh, json_answer, send_json_fresh, header_is_json,
}
use capi_noplane.ApiServer.Chain.{Response, StrictServerInterface, Served, Request, through}
use capi_noplane.ApiServer.Strict.{
  new_strict_handler, strict_get_tenants, as_get_tenants, call_get_tenants, strict_create_tenant,
  as_create_tenant, call_create_tenant,
}
use capi_noplane.ApiServer.Objects.{
  no_parameters, GetTenantsResponseObject, visit_get_tenants_response, get_tenants200,
  get_tenants500, CreateTenantResponseObject, visit_create_tenant_response, create_tenant201,
  create_tenant400, create_tenant403, create_tenant500,
}

-- What the client makes of a response object.
abbrev pub seen_get_tenants : GetTenantsResponseObject → HttpResponse → Bytes → GetTenantsResponse
seen_get_tenants (get_tenants200 x) rsp body = record (empty_get_tenants rsp body) {
  json200 = some x;
}
seen_get_tenants (get_tenants500 x) rsp body = record (empty_get_tenants rsp body) {
  json500 = some x;
}

module _ {C : Type 0} (kit : ServerKit C) (client : HttpKit) where
  -- The client reads the value back from the bytes that the server writes for it.
  abbrev pub IsReadGetTenants : GetTenantsResponseObject → Bytes → Type 0
  IsReadGetTenants (get_tenants200 x) body =
      (kit.encode_tenants x ≡ ok body) × (client.unmarshal_tenants body ≡ ok x)
  IsReadGetTenants (get_tenants500 x) body =
      (kit.encode_error x ≡ ok body) × (client.unmarshal_error body ≡ ok x)

  answer_get_tenants : GetTenantsResponseObject → Header → Bytes → ResponseWriter
  answer_get_tenants (get_tenants200 x) h body = json_answer h 200 body
  answer_get_tenants (get_tenants500 x) h body = json_answer h 500 body

  visited_get_tenants :
      (resp : GetTenantsResponseObject) (h : Header) (body : Bytes)
      → IsReadGetTenants resp body
      → visit_get_tenants_response kit resp (fresh h) ≡ ok (none, answer_get_tenants resp h body)
  unfolding visit_get_tenants_response answer_get_tenants
  visited_get_tenants (get_tenants200 x) h body (e, _) = send_json_fresh h 200 body refl e
  visited_get_tenants (get_tenants500 x) h body (e, _) = send_json_fresh h 500 body refl e

  parsed_get_tenants :
      (resp : GetTenantsResponseObject) (h : Header) (body : Bytes) (text : ℕ → String)
      → IsReadGetTenants resp body
      → let rsp = received text (answer_get_tenants resp h body) in
        parse_get_tenants_response client rsp ≡ ok (seen_get_tenants resp rsp body)
  unfolding parse_get_tenants_response answer_get_tenants received
  parsed_get_tenants (get_tenants200 x) h body text (_, e) = ground (arith, header_is_json h)
  parsed_get_tenants (get_tenants500 x) h body text (_, e) = ground (arith, header_is_json h)

  module _ {W : Type 0} (ssi : StrictServerInterface W C) (r : ServerRequest C) (h : Header)
      (s : Sys (Served W) Request) (blank : s.world.writer ≡ fresh h) (text : ℕ → String)
      (resp : GetTenantsResponseObject) (body : Bytes)
      (answered : (ssi.get_tenants r.context no_parameters s.world.world).0 ≡ ok (some resp))
      (reads : IsReadGetTenants resp body) where
    written_get_tenants :
        (strict_get_tenants kit (new_strict_handler kit ssi []) r s).1.world.writer
        ≡ answer_get_tenants resp h body
    unfolding strict_get_tenants as_get_tenants call_get_tenants new_strict_handler through ◌>>=◌
    written_get_tenants =
        handled-respond (new_strict_handler kit ssi []) r (as_get_tenants kit)
          (call_get_tenants kit (new_strict_handler kit ssi []) r.context r
            (Request.get_tenants no_parameters))
          s (Response.get_tenants resp) (λ w. visit_get_tenants_response kit resp w) (rw answered)
          (rw answered) refl
          (ap (λ w. visit_get_tenants_response kit resp w) blank
            ∙ visited_get_tenants resp h body reads)

    -- Where the implementation answers with a documented response whose bytes the client can read
    -- back, what the client parses from the answer of the strict server is that response: the field
    -- of its status has the value, and no other field is set. The answer is blank before, the
    -- connection takes the bytes, and there are no middlewares.
    pub strict_get_tenants_roundtrip :
        let rsp =
          received text
            (strict_get_tenants kit (new_strict_handler kit ssi []) r s).1.world.writer in
        parse_get_tenants_response client rsp ≡ ok (seen_get_tenants resp rsp body)
    strict_get_tenants_roundtrip =
        subst
          (λ w.
            parse_get_tenants_response client (received text w)
            ≡ ok (seen_get_tenants resp (received text w) body))
          (sym written_get_tenants) (parsed_get_tenants resp h body text reads)

-- What the client makes of a response object.
abbrev pub seen_create_tenant :
    CreateTenantResponseObject → HttpResponse → Bytes → CreateTenantResponse
seen_create_tenant (create_tenant201 x) rsp body = record (empty_create_tenant rsp body) {
  json201 = some x;
}
seen_create_tenant (create_tenant400 x) rsp body = record (empty_create_tenant rsp body) {
  json400 = some x;
}
seen_create_tenant (create_tenant403 x) rsp body = record (empty_create_tenant rsp body) {
  json403 = some x;
}
seen_create_tenant (create_tenant500 x) rsp body = record (empty_create_tenant rsp body) {
  json500 = some x;
}

module _ {C : Type 0} (kit : ServerKit C) (client : HttpKit) where
  -- The client reads the value back from the bytes that the server writes for it.
  abbrev pub IsReadCreateTenant : CreateTenantResponseObject → Bytes → Type 0
  IsReadCreateTenant (create_tenant201 x) body =
      (kit.encode_tenant x ≡ ok body) × (client.unmarshal_tenant body ≡ ok x)
  IsReadCreateTenant (create_tenant400 x) body =
      (kit.encode_error x ≡ ok body) × (client.unmarshal_error body ≡ ok x)
  IsReadCreateTenant (create_tenant403 x) body =
      (kit.encode_error x ≡ ok body) × (client.unmarshal_error body ≡ ok x)
  IsReadCreateTenant (create_tenant500 x) body =
      (kit.encode_error x ≡ ok body) × (client.unmarshal_error body ≡ ok x)

  answer_create_tenant : CreateTenantResponseObject → Header → Bytes → ResponseWriter
  answer_create_tenant (create_tenant201 x) h body = json_answer h 201 body
  answer_create_tenant (create_tenant400 x) h body = json_answer h 400 body
  answer_create_tenant (create_tenant403 x) h body = json_answer h 403 body
  answer_create_tenant (create_tenant500 x) h body = json_answer h 500 body

  visited_create_tenant :
      (resp : CreateTenantResponseObject) (h : Header) (body : Bytes)
      → IsReadCreateTenant resp body
      → visit_create_tenant_response kit resp (fresh h)
        ≡ ok (none, answer_create_tenant resp h body)
  unfolding visit_create_tenant_response answer_create_tenant
  visited_create_tenant (create_tenant201 x) h body (e, _) = send_json_fresh h 201 body refl e
  visited_create_tenant (create_tenant400 x) h body (e, _) = send_json_fresh h 400 body refl e
  visited_create_tenant (create_tenant403 x) h body (e, _) = send_json_fresh h 403 body refl e
  visited_create_tenant (create_tenant500 x) h body (e, _) = send_json_fresh h 500 body refl e

  parsed_create_tenant :
      (resp : CreateTenantResponseObject) (h : Header) (body : Bytes) (text : ℕ → String)
      → IsReadCreateTenant resp body
      → let rsp = received text (answer_create_tenant resp h body) in
        parse_create_tenant_response client rsp ≡ ok (seen_create_tenant resp rsp body)
  unfolding parse_create_tenant_response answer_create_tenant received
  parsed_create_tenant (create_tenant201 x) h body text (_, e) = ground (arith, header_is_json h)
  parsed_create_tenant (create_tenant400 x) h body text (_, e) = ground (arith, header_is_json h)
  parsed_create_tenant (create_tenant403 x) h body text (_, e) = ground (arith, header_is_json h)
  parsed_create_tenant (create_tenant500 x) h body text (_, e) = ground (arith, header_is_json h)

  module _ {W : Type 0} (ssi : StrictServerInterface W C) (r : ServerRequest C) (h : Header)
      (s : Sys (Served W) Request) (blank : s.world.writer ≡ fresh h) (text : ℕ → String)
      {asked : CreateTenantRequest} (decoded : kit.decode_create_tenant r.body ≡ ok asked)
      (resp : CreateTenantResponseObject) (body : Bytes)
      (answered : (ssi.create_tenant r.context (record { body = some asked }) s.world.world).0
        ≡ ok (some resp))
      (reads : IsReadCreateTenant resp body) where
    written_create_tenant :
        (strict_create_tenant kit (new_strict_handler kit ssi []) r s).1.world.writer
        ≡ answer_create_tenant resp h body
    unfolding strict_create_tenant as_create_tenant call_create_tenant new_strict_handler through
        ◌>>=◌
    written_create_tenant = rw decoded (
        handled-respond (new_strict_handler kit ssi []) r (as_create_tenant kit)
          (call_create_tenant kit (new_strict_handler kit ssi []) r.context r
            (Request.create_tenant (record { body = some asked })))
          s (Response.create_tenant resp) (λ w. visit_create_tenant_response kit resp w)
          (rw answered) (rw answered) refl
          (ap (λ w. visit_create_tenant_response kit resp w) blank
            ∙ visited_create_tenant resp h body reads))

    -- Where the implementation answers a request that decodes with a documented response whose
    -- bytes the client can read back, what the client parses from the answer of the strict server
    -- is that response: the field of its status has the value, and no other field is set. The
    -- answer is blank before, the connection takes the bytes, and there are no middlewares.
    pub strict_create_tenant_roundtrip :
        let rsp =
          received text
            (strict_create_tenant kit (new_strict_handler kit ssi []) r s).1.world.writer in
        parse_create_tenant_response client rsp ≡ ok (seen_create_tenant resp rsp body)
    strict_create_tenant_roundtrip =
        subst
          (λ w.
            parse_create_tenant_response client (received text w)
            ≡ ok (seen_create_tenant resp (received text w) body))
          (sym written_create_tenant) (parsed_create_tenant resp h body text reads)
