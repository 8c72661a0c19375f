-- ===== src/Clients.antt =====
-- internal/clients/clients.go: the cache of Kubernetes clients, one session for each hash.
pub mod Sessions
pub mod Reuse
pub mod Removal
