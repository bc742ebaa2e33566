-- ===== src/ApiClient/Laws.antt =====
-- internal/api/noplane/client.go: how a tenant becomes a plane, what the client finds in a list of
-- tenants, and when creation panics.
use capi_noplane.Prelude.{
  String, false, ◌≡◌, ◌≢◌, ◌↔◌, List, [], ◌∷◌, none, some, All, arith, string_eq, nat_eq, refl,
  Bool-cases, inl, inr, ne_of_beq, ap, ◌++◌, ◌==◌,
}
use mathlib.Core.Path.{subst}
use capi_noplane.Prelude.Int.{pos}
use capi_noplane.Errors.{ok, err, panic, errorf, text}
use capi_noplane.Plane.{Plane}
use capi_noplane.Api.Models.{Tenant}
use capi_noplane.Api.Http.{HttpKit, HttpResponse}
use capi_noplane.Api.Client.{Client}
use capi_noplane.Api.Responses.{CreateTenantResponse, status_code}
use capi_noplane.Api.Parse.{parse_create_tenant_response, json_with}
use capi_noplane.ApiClient.Answers.{tenant_to_plane, created_plane, api_error, unexpected}
use capi_noplane.ApiClient.{client_get_plane, plane_of, first_tenant, list_tenants}

-- The plane of a tenant has the tenant's ID and name; it is ready exactly if the tenant has a
-- hostname, and then it is reached at that host on port 6443.
pub tenant_to_plane_ready :
    (t : Tenant) {p : Plane}
    → tenant_to_plane (some t) ≡ ok p
    → (p.id ≡ t.id)
      × (p.name ≡ t.name)
      × ((p.status ≡ "ready") ↔ (t.hostname ≢ none))
      × ((host : String)
          → t.hostname ≡ some host
          → p.endpoint ≡ record { host = host; port = pos 6443 })
unfolding tenant_to_plane
tenant_to_plane_ready t h = ground (arith, string_eq.beq_iff "created" "ready")

-- Creation panics exactly if the answer has the status 201 and no tenant was decoded.
pub created_plane_panics :
    (resp : CreateTenantResponse)
    → (created_plane resp ≡ panic)
      ↔ ((status_code resp.http_response ≡ 201) × (resp.json201 ≡ none))
unfolding created_plane tenant_to_plane api_error unexpected
created_plane_panics resp = ground (arith, nat_eq.beq_iff)

-- An answer to a creation that was read and decoded makes the client panic exactly if its status is
-- 201 and its content type is not JSON.
pub parse_create_panics :
    (kit : HttpKit) (rsp : HttpResponse) {resp : CreateTenantResponse}
    → parse_create_tenant_response kit rsp ≡ ok resp
    → (created_plane resp ≡ panic) ↔ ((rsp.status_code ≡ 201) × (json_with rsp 201 ≡ false))
unfolding parse_create_tenant_response created_plane tenant_to_plane api_error unexpected
    status_code
parse_create_panics kit rsp h = ground (arith, nat_eq.beq_iff)

-- The first element under the wanted key, with what stands before it.
pub record IsFirst (key : Tenant → String) (wanted : String) (ts : List Tenant) (t : Tenant)
    : Type 0 where
  pub before : List Tenant
  pub after : List Tenant
  pub split : ts ≡ before ++ (t ∷ after)
  pub found : key t ≡ wanted
  pub missed : All (λ x. key x ≢ wanted) before

module _ (key : Tenant → String) (wanted : String) where
  here : (t : Tenant) (ts : List Tenant) → key t ≡ wanted → IsFirst key wanted (t ∷ ts) t
  here t ts e = record { before = []; after = ts; split = refl; found = e; missed = tt }

  later :
      (x t : Tenant) (ts : List Tenant)
      → key x ≢ wanted
      → IsFirst key wanted ts t
      → IsFirst key wanted (x ∷ ts) t
  later x t ts e f = record {
    before = x ∷ f.before;
    after = f.after;
    split = ap (λ l. x ∷ l) f.split;
    found = f.found;
    missed = (e, f.missed);
  }

  -- The element that is found stands first among those with the wanted key.
  pub first_tenant-some :
      (ts : List Tenant) (t : Tenant)
      → first_tenant key wanted ts ≡ some t
      → IsFirst key wanted ts t
  unfolding first_tenant
  first_tenant-some [] t h = cc h
  first_tenant-some (x ∷ ts) t h = elim (Bool-cases (key x == wanted)) [
    | inl e ↦
        subst (IsFirst key wanted (x ∷ ts)) (ground arith)
          (here x ts ((string_eq.beq_iff (key x) wanted).0 e))
    | inr e ↦ later x t ts (ne_of_beq (key x) wanted e) (first_tenant-some ts t (ground arith))
  ]

  first_tenant_after :
      (before after : List Tenant) (t : Tenant)
      → key t ≡ wanted
      → All (λ x. key x ≢ wanted) before
      → first_tenant key wanted (before ++ (t ∷ after)) ≡ some t
  unfolding first_tenant
  first_tenant_after [] after t e missed = ground (arith, string_eq.beq_iff (key t) wanted)
  first_tenant_after (x ∷ before) after t e (ne, missed) =
      let rec = first_tenant_after before after t e missed in
      ground (arith, string_eq.beq_iff (key x) wanted)

  first_tenant_lem :
      (ts : List Tenant) (t : Tenant)
      → IsFirst key wanted ts t
      → first_tenant key wanted ts ≡ some t
  first_tenant_lem ts t f = rw f.split (first_tenant_after f.before f.after t f.found f.missed)

  -- Nothing is found exactly if no element has the key.
  first_tenant-none :
      (ts : List Tenant) → (first_tenant key wanted ts ≡ none) ↔ All (λ t. key t ≢ wanted) ts
  unfolding first_tenant
  first_tenant-none [] = ground arith
  first_tenant-none (t ∷ ts) =
      let rec = first_tenant-none ts in ground (arith, string_eq.beq_iff (key t) wanted)

module _ {W : Type 0} (kit : HttpKit) (c : Client W) (id : String) (w : W) where
  got_first :
      {ts : List Tenant} (t : Tenant)
      → (list_tenants kit c w).0 ≡ ok ts
      → first_tenant (λ x. x.id) id ts ≡ some t
      → (client_get_plane kit c id w).0 ≡ tenant_to_plane (some t)
  unfolding client_get_plane plane_of tenant_to_plane
  got_first {ts} t h e = ground arith

  got_none :
      {ts : List Tenant}
      → (list_tenants kit c w).0 ≡ ok ts
      → ((client_get_plane kit c id w).0 ≡ err (errorf "plane %q not found" (text id ∷ [])))
        ↔ All (λ t. t.id ≢ id) ts
  unfolding client_get_plane plane_of tenant_to_plane
  got_none {ts} h = ground (arith, first_tenant-none (λ x. x.id) id ts)

  -- Where the tenants could be listed, the client answers with the plane of the tenant that has the ID
  -- and before which no tenant of the list has it, and with the error "not found" exactly if no
  -- tenant has it.
  pub client_get_plane_lem :
      {ts : List Tenant}
      → (list_tenants kit c w).0 ≡ ok ts
      → let got = (client_get_plane kit c id w).0 in
        ((t : Tenant) → IsFirst (λ x. x.id) id ts t → got ≡ tenant_to_plane (some t))
        × ((got ≡ err (errorf "plane %q not found" (text id ∷ []))) ↔ All (λ t. t.id ≢ id) ts)
  client_get_plane_lem {ts} h =
      (λ t f. got_first t h (first_tenant_lem (λ x. x.id) id ts t f), got_none h)
