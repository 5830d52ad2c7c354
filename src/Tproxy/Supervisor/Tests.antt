-- ===== src/Tproxy/Supervisor/Tests.antt =====
-- A worker that becomes ready and exits, and a supervisor of one that never becomes clean.
use kernel_su_tun2proxy.Prelude.{ℕ, true, false, some}
use kernel_su_tun2proxy.Tproxy.Command.{code}
use kernel_su_tun2proxy.Tproxy.Supervisor.{
  SupervisorOptions, Events, ready_then_exited, ready_then_cancelled, sent, worker_exited, Round,
}

abbrev options : SupervisorOptions
options = record {
  max_restarts = 1;
  ready_timeout = 1000;
  stop_grace = 500;
  kill_wait = 500;
  recovery_timeout = 5000;
  backoff = 100;
}

abbrev worker : Events
worker = record {
  factory_ok = true;
  already_started = false;
  unstarted_worker = true;
  foreign_attributes = false;
  pipe_ok = true;
  start_ok = true;
  pidfd_ok = true;
  killed_in_time = true;
  pinned_ok = true;
  first = ready_then_exited;
  done_after_first = true;
  term = sent;
  exits_in_grace = true;
  kill = sent;
  exits_in_wait = true;
  process_state = some (code 1);
}

abbrev crashing : ℕ → Round
crashing n = record {
  stop_before = false;
  stop_in_backoff = false;
  attempt = record {
    number = n;
    ready = true;
    reason = worker_exited;
    exit_observed = true;
    exit_code = code 1;
    term_requested = false;
    kill_requested = false;
    clean = false;
    recovered_steps = 0;
  };
  recovered = 2;
  cleanup_ok = true;
  stop_after = false;
}

-- A worker that is asked to stop and has to be killed.
abbrev stubborn : Events
stubborn = record worker {
  first = ready_then_cancelled;
  done_after_first = false;
  exits_in_grace = false;
}
