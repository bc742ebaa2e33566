-- ===== src/Tests.antt =====
-- Runs of the definitions at concrete inputs, and each theorem at a concrete input.
mod World
mod PlaneId
mod Secrets
mod Normal
mod Reconcile
mod Server
mod ApiServer
mod Wrapper
mod Api
mod Controlled
mod Fake
mod Manager
mod DeepCopy
