-- ===== src/Tests.antt =====
-- Runs at concrete data, and the theorems at concrete inputs.
mod Sink
mod ConfigEntry
mod Syncer
mod Peering
mod ParseTags
mod Source
mod ServiceResource
mod Informer
mod Upstreams
mod Deregister
pub mod Endpoints
mod Registrations
mod Webhook
mod Metrics
mod AclInit
