-- ===== src/Reconciler.antt =====
-- internal/controller/noplanecontrolplane_controller.go
pub mod Calls
pub mod Policy
pub mod PlaneId
pub mod Secrets
pub mod CaSecret
pub mod Normal
pub mod Reconcile
pub mod Template
