-- ===== src/Tproxy.antt =====
-- ebpf-proxy/internal/tproxy: the transparent-proxy controller.
pub mod Command
pub mod Transaction
pub mod Plan
pub mod Journal
pub mod Durable
pub mod Supervisor
