-- ===== src/Upstream.antt =====
-- ebpf-proxy/internal/upstream: connecting through the upstream proxy.
pub mod Socks5
