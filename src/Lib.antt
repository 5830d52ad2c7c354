-- ===== src/Lib.antt =====
-- Verification of KernelSU-tun2proxy: the transparent-proxy controller and the SOCKS5 client of the
-- engine (ebpf-proxy/) with its relay and BPF manager, and the control program (cmd/tun2proxy-web/).
--
-- The control program keeps saved connections, makes the engine's configuration from the active one,
-- and starts and stops a backend; it also shows added certificates in the system's trust store by
-- mounts that it journals. The engine validates that configuration, loads the BPF programs that
-- redirect connections to its listener, finds the destination of each, connects through a
-- SOCKS5 proxy, and installs routing and firewall resources, either within one process or with a
-- journal that survives it; a supervisor runs workers and cleans up after each.
--
-- Prelude: Booleans, lists, integers, and `Exec`, Go methods that change a state and may fail.
-- Tproxy.Command, Tproxy.Transaction: ebpf-proxy/internal/tproxy/transaction.go and report.go.
--   `setup_failing` is `setup`, `release` the loop of `teardown`; the trace of commands is added.
-- Tproxy.Plan, Tproxy.Journal: plan.go, journal.go, and `countsMatch` of witness_linux.go.
-- Tproxy.Durable: journal_linux.go. `Env` is the kernel with its tools and the storage; `Kernel`
--   states what is assumed of it. `change` is `declare`, `apply_step` and `commit`; the loops of
--   `Setup` and `Recover` take as fuel the number of steps: each round adds or removes one.
--   A file is partial, written or synced, and `save` works on the staging file and renames it.
--   A crash is an environment whose later calls all fail.
-- Tproxy.Supervisor: supervisor.go and supervisor_linux.go; an attempt also gives the signals it sends.
-- Upstream.Socks5: ebpf-proxy/internal/upstream/socks5.go. A write loop has as fuel the bytes to write.
-- Engine: ebpf-proxy/internal/config/config.go, `Validate`.
-- Web.Config, Web.Profiles: cmd/tun2proxy-web/profiles.go and main.go; an error is its HTTP status.
-- Web.Backend, Web.Actions: cmd/tun2proxy-web/backend.go, `ebpfConfig` and `backendAction`. A wait
--   polls 54 or 100 times, as its deadline and its sleep give.
-- Web.Routes: cmd/tun2proxy-web/routes.go.
-- Web.Certificates: cmd/tun2proxy-web/certificate/store.go, and in Names `AllocateName` of
--   certificate.go, whose loop has a round more than there are names.
-- Web.Mounts: cmd/tun2proxy-web/cert_mount.go. `Host` is the system with its tools; `Mounts` states
--   what is assumed of mount and umount: places of one `group`, in one namespace or peers of a
--   shared subtree, show the same layers; `Umounts` alone also allows mounts that follow others one
--   way. The loops over plans are structural, and a mount point
--   gives up at most 64 layers, as in the source.
-- Relay.Serve: ebpf-proxy/internal/relay/relay.go, `Serve` for one listener, as a relation of steps. A
--   call of `Relay` is left by a step of its own, which may never be taken.
-- Redirect: ebpf-proxy/internal/redirect. `Kernel` and `FlowKernel` are the BPF maps, programs and
--   links and the clock; `UidMap` states what is assumed of one map,
--   whose iterator may end early. `Resolve` tries ten times.
-- Daemon: ebpf-proxy/internal/daemon/server_linux.go, over Redirect; its loop is over the events given.
--
-- Not modelled: system calls and the text of tools' output (parameters of the models), JSON, HTTP
-- and URL parsing, the copying of bytes between sockets, the worker broker, preflight
-- and the clients of other services.
pub mod Prelude
pub mod Tproxy
pub mod Upstream
pub mod Web
pub mod Engine
pub mod Relay
pub mod Redirect
pub mod Daemon
