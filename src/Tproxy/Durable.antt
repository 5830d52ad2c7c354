-- ===== src/Tproxy/Durable.antt =====
-- ebpf-proxy/internal/tproxy/journal_linux.go: the durable controller.
pub mod State
pub mod Methods
pub mod Covers
pub mod Frame
pub mod Saving
pub mod Sound
pub mod Step
pub mod Loops
pub mod Recovery
pub mod Installing
pub mod Crash
mod Tests
