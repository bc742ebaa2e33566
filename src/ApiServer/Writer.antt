-- ===== src/ApiServer/Writer.antt =====
-- http.ResponseWriter and http.Error of net/http, and what a client receives of an answer.
use capi_noplane.Prelude.{
  erase, String, ℕ, Bool, Option, none, some, ◌==◌, ◌||◌, ◌&&◌, not, ltb, string_eq, nat_eq, ◌<>◌,
  if◌then◌else◌,
}
use capi_noplane.Errors.{Error, external, ok}
use capi_noplane.Types.{Bytes}
use capi_noplane.Api.Http.{Header, HttpResponse, header_set}

-- `sent` is the status line and the headers once they are written, after which a change of `header`
-- has no effect; `fault` is what the connection answers to a write.
pub record ResponseWriter : Type 0 where
  pub header : Header
  pub sent : Option (ℕ × Header)
  pub body : Bytes
  pub fault : Option Error

abbrev pub set_header : String → String → ResponseWriter → ResponseWriter
set_header k v w = record w { header = header_set k v w.header }

abbrev without_header : String → ResponseWriter → ResponseWriter
without_header k w = record w { header = erase k w.header }

-- A second call is ignored.
unfoldable pub write_header : ℕ → ResponseWriter → ResponseWriter
write_header status w = elim w.sent [
  | none ↦ record w { sent = some (status, w.header) }
  | some x ↦ w
]

-- Informational answers, 204 and 304 have no body.
abbrev pub body_allowed : ℕ → Bool
body_allowed status = not (ltb 99 status && ltb status 200) && not (status == 204 || status == 304)

abbrev status_of : ResponseWriter → ℕ
status_of w = elim w.sent [ none ↦ 200 | some x ↦ x.0 ]

abbrev append_body : Bytes → ResponseWriter → Option Error × ResponseWriter
append_body bytes w =
    if not (body_allowed (status_of w))
    then (some (external "http: request method or response status code does not allow body"), w)
    else elim w.fault [ none ↦ (none, record w { body = w.body <> bytes }) | some e ↦ (some e, w) ]

unfoldable pub write : Bytes → ResponseWriter → Option Error × ResponseWriter
unfolding write_header
write bytes w = append_body bytes (write_header 200 w)

-- http.Error, which drops the error of its write
unfoldable pub http_error : String → ℕ → ResponseWriter → ResponseWriter
unfolding write_header write
http_error message status w =
    (write (message <> "\n") (
      write_header status (
        set_header "X-Content-Type-Options" "nosniff" (
          set_header "Content-Type" "text/plain; charset=utf-8"
            (without_header "Content-Length" w))))).1

-- The answer as it reaches the client, with a text for each status; without a call of WriteHeader or
-- Write it is a 200.
unfoldable pub received : (ℕ → String) → ResponseWriter → HttpResponse
received text w = record {
  status = text (status_of w);
  status_code = status_of w;
  header = elim w.sent [ none ↦ w.header | some x ↦ x.1 ];
  body = ok w.body;
}
