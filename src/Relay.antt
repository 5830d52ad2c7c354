-- ===== src/Relay.antt =====
-- ebpf-proxy/internal/relay: accepting connections and relaying them.
pub mod Serve
mod Tests
