-- ===== src/Redirect.antt =====
-- ebpf-proxy/internal/redirect: the manager of the BPF maps and programs.
pub mod Abi
pub mod Cgroup
pub mod Manager
pub mod Uids
pub mod Flows
mod Tests
