-- ===== src/Catalog.antt =====
-- Catalog sync (control-plane/catalog): Consul services into Kubernetes by `Source` and `K8sSink`, and
-- Kubernetes services into Consul by `ConsulSyncer`.
pub mod K8sSink
pub mod ConsulSyncer
pub mod Source
pub mod ServiceResource
