-- ===== src/Tests/ApiServer.antt =====
-- The server half over an implementation that gives fixed answers, with simple encodings.
use capi_noplane.Prelude.{
  String, ℕ, List, [], ◌∷◌, none, some, ◌≡◌, refl, string_eq, nat_eq, Dict, insert, lookup, Bool,
  true, false, ◌==◌, if◌then◌else◌,
}
use capi_noplane.Errors.{ok, err, external}
use capi_noplane.Exec.{Sys, done}
use capi_noplane.Api.Http.{header_get}
use capi_noplane.Api.Models.{Tenant, CreateTenantRequest}
use capi_noplane.Api.Parse.{
  parse_get_tenants_response, parse_create_tenant_response, parse_delete_tenant_response,
  parse_get_tenant_kubeconfig_response,
}
use capi_noplane.ApiServer.Writer.{received}
use capi_noplane.ApiServer.Kit.{ServerKit, ServerRequest}
use capi_noplane.ApiServer.Delivery.{fresh, IsRejection}
use capi_noplane.ApiServer.Objects.{
  get_tenants200, create_tenant201, delete_tenant404, get_tenant_kubeconfig200,
}
use capi_noplane.ApiServer.Chain.{StrictServerInterface, Served, Request}
use capi_noplane.ApiServer.Strict.{
  new_strict_handler, strict_get_tenants, strict_create_tenant, strict_delete_tenant,
  strict_get_tenant_kubeconfig, strict_create_tenant_token,
}
use capi_noplane.ApiServer.Calls.{strict_called_once}
use capi_noplane.ApiServer.Decoded.{called_create_tenant, called_create_tenant_token}
use capi_noplane.ApiServer.Undecoded.{
  strict_create_tenant_undecoded, strict_create_tenant_token_undecoded,
}
use capi_noplane.ApiServer.Unencoded.{strict_get_tenants_unencoded}
use capi_noplane.ApiServer.RoundTrip.Tenants.{
  strict_get_tenants_roundtrip, strict_create_tenant_roundtrip, seen_get_tenants,
  seen_create_tenant,
}
use capi_noplane.ApiServer.RoundTrip.Tenant.{strict_delete_tenant_roundtrip, seen_delete_tenant}
use capi_noplane.ApiServer.RoundTrip.Kubeconfig.{
  strict_get_tenant_kubeconfig_roundtrip, seen_get_tenant_kubeconfig,
}
use capi_noplane.Tests.Server.{tenant, problem, kit}

-- A context is the list of its values.
abbrev pub Context : Type 0
Context = Dict String (List String)

-- Two tenants are known to the encoder, and only they.
abbrev pub encodes : List Tenant → Bool
encodes (a ∷ b ∷ []) = true
encodes _ = false

abbrev pub bound : String → Bool
bound value = value == ""

abbrev pub creation : String → CreateTenantRequest
creation name = record {
  description = none;
  kubernetes_version = none;
  labels = none;
  name = name;
  replicas = none;
  subdomain = none;
  unique_id = name;
}

abbrev pub server : ServerKit Context
server = record {
  with_value = λ c k v. insert k v c;
  url_param =
      λ c name. elim (lookup name c) [ none ↦ "" | some vs ↦ elim vs [ [] ↦ "" | v ∷ rest ↦ v ] ];
  bind_parameter = λ name value. if bound value then err (external "empty") else ok value;
  decode_create_tenant = λ b. if b == "" then err (external "EOF") else ok (creation b);
  decode_create_token = λ b. if b == "" then err (external "EOF") else ok (record { ttl = b });
  encode_tenants = λ ts. if encodes ts then ok "ab" else err (external "unsupported value");
  encode_tenant = λ t. ok t.id;
  encode_error = λ e. ok "problem";
  encode_kubeconfig = λ k. ok k.kubeconfig;
  encode_available = λ a. ok "available";
  encode_tokens = λ ts. ok "tokens";
  encode_token = λ t. ok t.id;
  error_text = λ e. "error";
  format_int = λ n. "n";
}

-- The implementation, over a world that has nothing.
abbrev pub implementation : StrictServerInterface (Unit {0}) Context
implementation = record {
  get_tenants = λ c x w. (ok (some (get_tenants200 (tenant "a" ∷ tenant "b" ∷ []))), w);
  create_tenant = λ c x w. (ok (some (create_tenant201 (tenant "a"))), w);
  validate_tenant_unique_id = λ c x w. (ok none, w);
  delete_tenant = λ c x w. (ok (some (delete_tenant404 problem)), w);
  get_tenant_kubeconfig =
      λ c x w. (ok (some (get_tenant_kubeconfig200 (record { kubeconfig = "K" }))), w);
  list_tenant_tokens = λ c x w. (err (external "down"), w);
  create_tenant_token = λ c x w. (ok none, w);
}

-- The same with a tenant more than the encoder knows.
abbrev crowded : StrictServerInterface (Unit {0}) Context
crowded = record implementation {
  get_tenants = λ c x w. (ok (some (get_tenants200 (tenant "a" ∷ []))), w);
}

abbrev asked : ServerRequest Context
asked = record { context = ("tenantId", "a" ∷ []) ∷ ("uniqueID", "u" ∷ []) ∷ []; body = "body" }

abbrev pub empty : ServerRequest Context
empty = record { context = []; body = "" }

abbrev pub at_start : Sys (Served (Unit {0})) Request
at_start = record { world = record { world = tt; writer = fresh [] }; trace = [] }

abbrev pub text : ℕ → String
text status = ""

strict_get_tenants_roundtrip_example :
    let sh = new_strict_handler server implementation [] in
    let rsp = received text (strict_get_tenants server sh asked at_start).1.world.writer in
    parse_get_tenants_response kit rsp
    ≡ ok (seen_get_tenants (get_tenants200 (tenant "a" ∷ tenant "b" ∷ [])) rsp "ab")
strict_get_tenants_roundtrip_example =
    strict_get_tenants_roundtrip server kit implementation asked [] at_start refl text
      (get_tenants200 (tenant "a" ∷ tenant "b" ∷ [])) "ab" refl (refl, refl)

strict_create_tenant_roundtrip_example :
    let sh = new_strict_handler server implementation [] in
    let rsp = received text (strict_create_tenant server sh asked at_start).1.world.writer in
    parse_create_tenant_response kit rsp
    ≡ ok (seen_create_tenant (create_tenant201 (tenant "a")) rsp "a")
strict_create_tenant_roundtrip_example =
    strict_create_tenant_roundtrip server kit implementation asked [] at_start refl text refl
      (create_tenant201 (tenant "a")) "a" refl (refl, refl)

strict_delete_tenant_roundtrip_example :
    let sh = new_strict_handler server implementation [] in
    let rsp = received text (strict_delete_tenant server sh asked "a" at_start).1.world.writer in
    parse_delete_tenant_response kit rsp
    ≡ ok (seen_delete_tenant (delete_tenant404 problem) rsp "problem")
strict_delete_tenant_roundtrip_example =
    strict_delete_tenant_roundtrip server kit implementation asked [] at_start refl text "a"
      (delete_tenant404 problem) "problem" refl (refl, refl)

strict_get_tenant_kubeconfig_roundtrip_example :
    let sh = new_strict_handler server implementation [] in
    let rsp =
      received text (strict_get_tenant_kubeconfig server sh asked "a" at_start).1.world.writer in
    parse_get_tenant_kubeconfig_response kit rsp
    ≡ ok (
        seen_get_tenant_kubeconfig (get_tenant_kubeconfig200 (record { kubeconfig = "K" })) rsp "K")
strict_get_tenant_kubeconfig_roundtrip_example =
    strict_get_tenant_kubeconfig_roundtrip server kit implementation asked [] at_start refl text "a"
      (get_tenant_kubeconfig200 (record { kubeconfig = "K" })) "K" refl (refl, refl)

-- Requests of the routes with and without a tenant, with and without a body.
abbrev posted : ServerRequest Context
posted = record { context = []; body = "body" }

abbrev pub of_tenant : ServerRequest Context
of_tenant = record { context = ("tenantId", "a" ∷ []) ∷ []; body = "" }

abbrev pub posted_to_tenant : ServerRequest Context
posted_to_tenant = record { context = ("tenantId", "a" ∷ []) ∷ []; body = "7d" }

abbrev pub of_unique_id : ServerRequest Context
of_unique_id = record { context = ("uniqueID", "u" ∷ []) ∷ []; body = "" }

strict_called_once_example :
    (strict_delete_tenant server
      (new_strict_handler server implementation [])
      of_tenant
      "a"
      at_start).1.trace
    ≡ (Request.delete_tenant (record { tenant_id = "a" }), done) ∷ []
strict_called_once_example = (strict_called_once server implementation of_tenant at_start "u" "a").2

called_create_tenant_example :
    (strict_create_tenant server
      (new_strict_handler server implementation [])
      posted
      at_start).1.trace
    ≡ (Request.create_tenant (record { body = some (creation "body") }), done) ∷ []
called_create_tenant_example =
    called_create_tenant server implementation posted at_start (creation "body") refl

called_create_tenant_token_example :
    (strict_create_tenant_token server
      (new_strict_handler server implementation [])
      posted_to_tenant
      "a"
      at_start).1.trace
    ≡ (
      Request.create_tenant_token (record { tenant_id = "a"; body = some (record { ttl = "7d" }) }),
      done,
    )
      ∷ []
called_create_tenant_token_example =
    called_create_tenant_token server implementation posted_to_tenant at_start "a"
      (record { ttl = "7d" }) refl

strict_create_tenant_undecoded_example :
    IsRejection at_start text "error"
      (strict_create_tenant server (new_strict_handler server implementation []) empty at_start)
strict_create_tenant_undecoded_example =
    strict_create_tenant_undecoded server implementation [] empty [] at_start refl text
      (external "EOF") refl

strict_create_tenant_token_undecoded_example : IsRejection at_start text "error" (
    strict_create_tenant_token server
      (new_strict_handler server implementation [])
      of_tenant
      "a"
      at_start)
strict_create_tenant_token_undecoded_example =
    strict_create_tenant_token_undecoded server implementation [] of_tenant [] at_start refl text
      "a" (external "EOF") refl

strict_get_tenants_unencoded_example :
    let rsp =
      received text
        (strict_get_tenants server
          (new_strict_handler server crowded [])
          asked
          at_start).1.world.writer in
    (rsp.status_code ≡ 200)
    × (header_get "Content-Type" rsp.header ≡ "application/json")
    × (rsp.body ≡ ok "error\n")
strict_get_tenants_unencoded_example =
    strict_get_tenants_unencoded server crowded asked [] at_start refl text (tenant "a" ∷ [])
      (external "unsupported value") refl refl
