-- ===== src/Auth.antt =====
-- internal/auth/auth.go: credentials from request headers, their hash, and their injection into the
-- configuration of a Kubernetes client.
pub mod Header
pub mod Credentials
pub mod Extract
pub mod Bearer
pub mod Hash
pub mod Websocket
