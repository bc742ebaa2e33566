-- ===== src/ApiServer/RoundTrip.antt =====
-- The server and the client agree: one theorem for each operation.
pub mod Tenants
pub mod UniqueId
pub mod Kubeconfig
pub mod Tenant
pub mod Tokens
pub mod Token
