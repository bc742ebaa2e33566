-- ===== src/ApiServer.antt =====
-- internal/api/noplane/hack/v1/api.gen.go, the server half
pub mod Writer
pub mod Kit
pub mod Objects
pub mod ParamErrors
pub mod Chain
pub mod Strict
pub mod Wrapper
pub mod Router
pub mod Delivery
pub mod RoundTrip
pub mod Calls
pub mod Decoded
pub mod Undecoded
pub mod Bound
pub mod Unencoded
