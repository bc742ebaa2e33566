-- ===== src/Tests/Server.antt =====
-- A server that gives one answer, and simple encodings.
use capi_noplane.Prelude.{String, ℕ, [], ◌∷◌, ◌<>◌, none, some, true}
use capi_noplane.Prelude.Int.{pos}
use capi_noplane.Errors.{ok}
use capi_noplane.Fake.{FakeClient}
use capi_noplane.Api.Models.{Tenant, ApiError}
use capi_noplane.Api.Http.{HttpResponse, HttpRequestDoer, HttpKit}
use capi_noplane.Api.Client.{Client}
use capi_noplane.Tests.World.{always}

abbrev pub tenant : String → Tenant
tenant id = record {
  created_at = "";
  description = none;
  hash = "";
  hostname = some "k8s.example";
  id = id;
  kubernetes_version = some "v1.33";
  labels = none;
  name = "cp";
  owner = "o";
  replicas = some (pos 1);
  subdomain = some "cp";
  updated_at = none;
}

abbrev pub problem : ApiError
problem = record {
  detail = some "gone";
  errors = none;
  instance_uri = none;
  status = pos 404;
  title = "t";
  type_uri = "u";
}

abbrev pub kit : HttpKit
kit = record {
  parse = λ s. ok (record { scheme = "https"; host = "h"; path = s; raw_query = "" });
  parse_reference = λ u s. ok (record u { path = u.path <> s });
  url_string = λ u. u.path;
  new_request =
      λ method url body. ok (record { method = method; url = url; header = []; body = body });
  style_param = λ name value. ok value;
  marshal_create_tenant = λ b. ok b.name;
  marshal_create_token = λ b. ok b.ttl;
  unmarshal_tenants = λ b. ok (tenant "a" ∷ tenant "b" ∷ []);
  unmarshal_tenant = λ b. ok (tenant b);
  unmarshal_error = λ b. ok problem;
  unmarshal_kubeconfig = λ b. ok (record { kubeconfig = b });
  unmarshal_available = λ b. ok (record { available = true });
  unmarshal_tokens = λ b. ok [];
  unmarshal_token =
      λ b. ok (record { created_at = ""; expires_at = ""; id = b; name = ""; secret = "" });
}

abbrev pub answer : ℕ → HttpResponse
answer code = record {
  status = "";
  status_code = code;
  header = ("Content-Type", "application/json" ∷ []) ∷ [];
  body = ok "body";
}

abbrev pub plain_answer : ℕ → HttpResponse
plain_answer code = record (answer code) { header = ("Content-Type", "text/plain" ∷ []) ∷ [] }

abbrev pub server : ℕ → HttpRequestDoer FakeClient
server code req = always (ok (answer code))

abbrev pub api : ℕ → Client FakeClient
api code = record { server = "https://h/"; client = some (server code); request_editors = [] }
