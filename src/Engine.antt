-- ===== src/Engine.antt =====
-- ebpf-proxy/internal/config: the configuration of the proxy engine.
pub mod Config
pub mod Validation
mod Tests
