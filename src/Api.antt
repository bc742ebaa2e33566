-- ===== src/Api.antt =====
-- internal/api/noplane/hack/v1/api.gen.go: the client side of the generated package.
pub mod Models
pub mod Http
pub mod Requests
pub mod Responses
pub mod Parse
pub mod Client
