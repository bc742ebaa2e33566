-- ===== src/ApiServer/Delivery.antt =====
-- A JSON answer, from a response object to what a client receives.
use text.Mathlib.TextLemmas.{native_laws}
use capi_noplane.Prelude.{
  String, ℕ, List, [], ◌∷◌, Option, none, some, ◌≡◌, refl, ap, ◌∙◌, true, false, Bool, nat_eq,
  if◌then◌else◌, not, lookup-insert, string_eq, ◌<>◌,
}
use capi_noplane.Errors.{Result, ok}
use capi_noplane.Exec.{◌>>=◌, Sys, returned, attempt}
use capi_noplane.ApiServer.Chain.{
  write_with, Response, Handling, Request, Served, StrictHandler, respond,
}
use capi_noplane.Types.{Bytes}
use capi_noplane.Api.Http.{Header, header_set, header_get, contains}
use capi_noplane.ApiServer.Writer.{
  http_error, received, ResponseWriter, body_allowed, received, write,
}
use capi_noplane.ApiServer.Kit.{ServerRequest}
use capi_noplane.ApiServer.Objects.{Visit, send_json}

abbrev pub fresh : Header → ResponseWriter
fresh h = record { header = h; sent = none; body = ""; fault = none }

abbrev pub json_header : Header → Header
json_header h = header_set "Content-Type" "application/json" h

abbrev pub json_answer : Header → ℕ → Bytes → ResponseWriter
json_answer h status bytes = record {
  header = json_header h;
  sent = some (status, json_header h);
  body = bytes;
  fault = none;
}

if_not_false : {A : Type 0} (b : Bool) (x y : A) → b ≡ true → (if not b then x else y) ≡ y
if_not_false true x y e = refl
if_not_false false x y e = cc e

pub empty_append : (s : String) → "" <> s ≡ s
empty_append s = native_laws.nil-append s

write_sent :
    (status : ℕ) (h : Header) (bytes : Bytes)
    → body_allowed status ≡ true
    → write bytes (record { header = h; sent = some (status, h); body = ""; fault = none })
      ≡ (none, record { header = h; sent = some (status, h); body = bytes; fault = none })
unfolding write
write_sent status h bytes allowed =
    if_not_false (body_allowed status) _ _ allowed
    ∙ ap (λ b. (none, record { header = h; sent = some (status, h); body = b; fault = none }))
        (empty_append bytes)

pub send_json_fresh :
    (h : Header) (status : ℕ) (bytes : Bytes) {encoded : Result Bytes}
    → body_allowed status ≡ true
    → encoded ≡ ok bytes
    → send_json status encoded (fresh h) ≡ ok (none, json_answer h status bytes)
unfolding send_json
send_json_fresh h status bytes allowed e =
    ap (λ x. send_json status x (fresh h)) e
    ∙ ap ok (write_sent status (json_header h) bytes allowed)

vals : Option (List String) → List String
vals got = elim got [ none ↦ [] | some vs ↦ vs ]

first : Option (List String) → String
unfolding vals
first got = elim (vals got) [ [] ↦ "" | v ∷ vs ↦ v ]

pub header-json : (h : Header) → header_get "Content-Type" (json_header h) ≡ "application/json"
unfolding header_get header_set first
header-json h = ap first (lookup-insert "Content-Type" ("application/json" ∷ []) h)

pub header_is_json :
    (h : Header) → contains (header_get "Content-Type" (json_header h)) "json" ≡ true
unfolding contains
header_is_json h = ap (λ x. contains x "json") (header-json h)

-- http.Error with status 400 on a blank answer.
module _ (h : Header) (message : String) (text : ℕ → String) where
  rejected_status : (received text (http_error message 400 (fresh h))).status_code ≡ 400
  unfolding received http_error
  rejected_status = refl

  rejected_body : (received text (http_error message 400 (fresh h))).body ≡ ok (message <> "\n")
  unfolding received http_error
  rejected_body = ap ok (empty_append (message <> "\n"))

-- What a handler leaves that calls nothing and answers 400 with a message.
abbrev pub IsRejection :
    {W : Type 0}
    → Sys (Served W) Request
    → (ℕ → String)
    → String
    → Result (Unit {0}) × Sys (Served W) Request
    → Type 0
IsRejection s text message (result, t) =
    (t.trace ≡ s.trace)
    × (t.world.world ≡ s.world.world)
    × ((received text t.world.writer).status_code ≡ 400)
    × ((received text t.world.writer).body ≡ ok (message <> "\n"))

module _ {W : Type 0} (h : Header) (s : Sys (Served W) Request) (blank : s.world.writer ≡ fresh h)
    (text : ℕ → String) where
  pub rejection :
      (message : String) → IsRejection s text message (write_with (http_error message 400) s)
  rejection message = (
    refl,
    refl,
    ap (λ w. (received text (http_error message 400 w)).status_code) blank
        ∙ rejected_status h message text,
    ap (λ w. (received text (http_error message 400 w)).body) blank ∙ rejected_body h message text,
  )

module _ {W C : Type 0} (sh : StrictHandler W C) (r : ServerRequest C) where
  -- A response that its method writes without an error is the answer.
  pub respond-visit :
      (as_visit : Response → Option Visit) (response : Response) (s : Sys (Served W) Request)
      {f : Visit} {w : ResponseWriter}
      → as_visit response ≡ some f
      → f s.world.writer ≡ ok (none, w)
      → (respond sh r as_visit (returned response) s).1.world.writer ≡ w
  unfolding respond ◌>>=◌
  respond-visit as_visit response s is e = rw (is, e)

  pub handled-respond :
      (as_visit : Response → Option Visit) (m : Handling W Response) (s : Sys (Served W) Request)
      (response : Response) (f : Visit) {w : ResponseWriter}
      → (m s).0 ≡ ok response
      → (m s).1.world.writer ≡ s.world.writer
      → as_visit response ≡ some f
      → f s.world.writer ≡ ok (none, w)
      → ((attempt m >>= respond sh r as_visit) s).1.world.writer ≡ w
  unfolding ◌>>=◌
  handled-respond as_visit m s response f given kept is e =
      rw given (respond-visit as_visit response (m s).1 is (ap f kept ∙ e))
