-- ===== src/Proxy.antt =====
-- The service proxy: pkg/kubeproxy.
pub mod Dns
pub mod Server
mod Tests
