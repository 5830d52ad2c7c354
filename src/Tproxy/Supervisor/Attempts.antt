-- ===== src/Tproxy/Supervisor/Attempts.antt =====
-- ebpf-proxy/internal/tproxy/supervisor_linux.go: one attempt.
use kernel_su_tun2proxy.Prelude.{◌≤◌, Bool, true, false, not, ◌||◌, List, [], ◌∷◌, ◌≡◌, arith}
use kernel_su_tun2proxy.Tproxy.Supervisor.{
  SupervisorOptions, options_valid, Events, Reason, identity_failed, broker_failed, Signal, term,
  kill, by_pid, by_pidfd,
}

-- Valid options bound the restarts by 3, and every wait from below and above.
pub options_bounds :
    (o : SupervisorOptions)
    → options_valid o ≡ true
    → (o.max_restarts ≤ 3)
      × (10 ≤ o.ready_timeout)
      × (o.ready_timeout ≤ 30000)
      × (10 ≤ o.stop_grace)
      × (o.stop_grace ≤ 10000)
      × (10 ≤ o.kill_wait)
      × (o.kill_wait ≤ 5000)
      × (1000 ≤ o.recovery_timeout)
      × (o.recovery_timeout ≤ 120000)
      × (10 ≤ o.backoff)
      × (o.backoff ≤ 1000)
unfolding options_valid
options_bounds o h = ground arith

-- The factory returned a worker not yet started, with nothing of its own, and it was launched.
abbrev pub launched : Events → Bool
launched ev = not (
    not ev.factory_ok
    || ev.already_started
    || not ev.unstarted_worker
    || ev.foreign_attributes
    || not ev.pipe_ok
    || not ev.start_ok)

-- The signals that an attempt may send, by what it reports.
abbrev pub Sent : Reason → Bool → Bool → List Signal → Type 0
Sent identity_failed t k signals = (signals ≡ by_pid kill ∷ []) × (t ≡ false) × (k ≡ false)
Sent broker_failed t k signals = (signals ≡ by_pidfd kill ∷ []) × (t ≡ false) × (k ≡ false)
Sent _ false k signals = (signals ≡ []) × (k ≡ false)
Sent _ true false signals = signals ≡ by_pidfd term ∷ []
Sent _ true true signals = signals ≡ by_pidfd term ∷ by_pidfd kill ∷ []
