-- ===== src/Tproxy/Supervisor.antt =====
-- ebpf-proxy/internal/tproxy/supervisor.go and supervisor_linux.go: bounded supervision of a
-- worker. What the operating system and the clock decide is given as data: the events of one
-- attempt (`Events`), and for each round of the loop the attempt, the cleanup and the points where
-- the context is found cancelled (`Round`). Times are milliseconds.
pub mod Attempts
pub mod Rounds
mod Tests
use kernel_su_tun2proxy.Prelude.{
  ℕ, zero, suc, Bool, true, false, not, ◌&&◌, ◌||◌, List, [], ◌∷◌, Option, none, some, ltb, ◌==◌,
  if◌then◌else◌,
}
use kernel_su_tun2proxy.Tproxy.Command.{ExitCode, code, negative, is_zero}

pub record SupervisorOptions : Type 0 where
  pub max_restarts : ℕ
  pub ready_timeout : ℕ
  pub stop_grace : ℕ
  pub kill_wait : ℕ
  pub recovery_timeout : ℕ
  pub backoff : ℕ

-- `Validate() == nil`
unfoldable pub options_valid : SupervisorOptions → Bool
options_valid o = not (
    ltb 3 o.max_restarts
    || ltb o.ready_timeout 10
    || ltb 30000 o.ready_timeout
    || ltb o.stop_grace 10
    || ltb 10000 o.stop_grace
    || ltb o.kill_wait 10
    || ltb 5000 o.kill_wait
    || ltb o.recovery_timeout 1000
    || ltb 120000 o.recovery_timeout
    || ltb o.backoff 10
    || ltb 1000 o.backoff)

pub data Reason : Type 0 where
  launch_failed started_by_factory identity_failed broker_failed stop_requested : Reason
  exit_before_ready readiness_invalid worker_exited readiness_timeout : Reason

pub record Attempt : Type 0 where
  pub number : ℕ
  pub ready : Bool
  pub reason : Reason
  pub exit_observed : Bool
  pub exit_code : ExitCode
  pub term_requested : Bool
  pub kill_requested : Bool
  pub clean : Bool
  pub recovered_steps : ℕ

-- What comes first: a cancelled context, the exit, a readiness record, or the timeout; after a
-- valid record, the cancelled context or the exit.
pub data First : Type 0 where
  cancelled exited ready_bad timed_out : First
  ready_then_cancelled ready_then_exited : First

pub data Signalled : Type 0 where
  sent no_process refused : Signalled

-- A signal sent to the worker: by its number, `cmd.Process.Kill()`, or by its pidfd.
pub data SignalName : Type 0 where
  term kill : SignalName

pub data Signal : Type 0 where
  by_pid by_pidfd : SignalName → Signal

pub record Events : Type 0 where
  pub factory_ok : Bool
  pub already_started : Bool
  pub unstarted_worker : Bool
  pub foreign_attributes : Bool
  pub pipe_ok : Bool
  pub start_ok : Bool
  pub pidfd_ok : Bool
  pub killed_in_time : Bool
  pub pinned_ok : Bool
  pub first : First
  pub done_after_first : Bool
  pub term : Signalled
  pub exits_in_grace : Bool
  pub kill : Signalled
  pub exits_in_wait : Bool
  -- `cmd.ProcessState` once the worker was waited for
  pub process_state : Option ExitCode

abbrev has_state : Option ExitCode → Bool
has_state none = false
has_state (some c) = true

abbrev state_code : Option ExitCode → ExitCode
state_code none = negative 0
state_code (some c) = c

abbrev first_ready : First → Bool
first_ready ready_then_cancelled = true
first_ready ready_then_exited = true
first_ready _ = false

abbrev first_reason : First → Reason
first_reason cancelled = stop_requested
first_reason exited = exit_before_ready
first_reason ready_bad = readiness_invalid
first_reason timed_out = readiness_timeout
first_reason ready_then_cancelled = stop_requested
first_reason ready_then_exited = worker_exited

abbrev is_refused : Signalled → Bool
is_refused refused = true
is_refused _ = false

-- The end of an attempt whose worker has exited.
reap : Events → Attempt → List Signal → Attempt × (Bool × List Signal)
reap ev a signals = (
  record a { exit_observed = has_state ev.process_state; exit_code = state_code ev.process_state },
  (true, signals),
)

-- SIGTERM, the grace period, SIGKILL and the kill wait.
escalate : Events → Attempt → Attempt × (Bool × List Signal)
unfolding reap
escalate ev a =
    let t = record a { term_requested = true } in
    let u = record t { kill_requested = true } in
    if is_refused ev.term
    then (t, (false, by_pidfd term ∷ []))
    else if ev.exits_in_grace
    then reap ev t (by_pidfd term ∷ [])
    else if is_refused ev.kill
    then (u, (false, by_pidfd term ∷ by_pidfd kill ∷ []))
    else if ev.exits_in_wait
    then reap ev u (by_pidfd term ∷ by_pidfd kill ∷ [])
    else (u, (false, by_pidfd term ∷ by_pidfd kill ∷ []))

-- `superviseAttemptWithBroker`: the report, whether the error is nil, and the signals sent to the
-- worker, in their order.
unfoldable pub supervise_attempt : Events → ℕ → Attempt × (Bool × List Signal)
unfolding escalate reap
supervise_attempt ev number =
    let a : Attempt = record {
      number = number;
      ready = false;
      reason = launch_failed;
      exit_observed = false;
      exit_code = negative 0;
      term_requested = false;
      kill_requested = false;
      clean = false;
      recovered_steps = 0;
    } in
    if not ev.factory_ok
    then (a, (false, []))
    else if ev.already_started
    then (record a { reason = started_by_factory }, (false, []))
    else if not ev.unstarted_worker || ev.foreign_attributes || not ev.pipe_ok || not ev.start_ok
    then (a, (false, []))
    else if not ev.pidfd_ok
    then (
      record a {
        reason = identity_failed;
        exit_observed = ev.killed_in_time && has_state ev.process_state;
      },
      (false, by_pid kill ∷ []),
    )
    else if not ev.pinned_ok
    then (
      record a {
        reason = broker_failed;
        exit_observed = ev.killed_in_time && has_state ev.process_state;
      },
      (false, by_pidfd kill ∷ []),
    )
    else let b = record a { ready = first_ready ev.first; reason = first_reason ev.first } in
      if ev.done_after_first then reap ev b [] else escalate ev b

pub data RunState : Type 0 where
  blocked stopped completed exhausted : RunState

pub data Failure : Type 0 where
  exit_unverified recovery_refused budget_exhausted unreachable_state : Failure

-- `attempts` has the newest first.
pub record SupervisorResult : Type 0 where
  pub state : RunState
  pub clean : Bool
  pub restarts : ℕ
  pub attempts : List Attempt

pub record Round : Type 0 where
  pub stop_before : Bool
  pub stop_in_backoff : Bool
  pub attempt : Attempt
  -- scopedCleanup: the steps recovered, and whether it returned no error
  pub recovered : ℕ
  pub cleanup_ok : Bool
  pub stop_after : Bool

abbrev pub is_launch_failed : Reason → Bool
is_launch_failed launch_failed = true
is_launch_failed _ = false

abbrev pub with_state : SupervisorResult → RunState → SupervisorResult
with_state r s = record r { state = s }

-- The loop from round `number` on; `left` more rounds may run.
unfoldable pub rounds :
    ℕ → (ℕ → Round) → ℕ → ℕ → SupervisorResult → SupervisorResult × Option Failure
rounds max round zero number r = (r, some unreachable_state)
rounds max round (suc left) number r =
    let now = round number in
    let a = now.attempt in
    let restarted = if number == 0 then r.restarts else suc r.restarts in
    let tried : SupervisorResult = record r {
      attempts = a ∷ r.attempts;
      restarts = restarted;
      clean = false;
    } in
    let swept : SupervisorResult = record tried {
      attempts = record a { recovered_steps = now.recovered } ∷ r.attempts;
    } in
    let verified : SupervisorResult = record swept {
      attempts = record a { recovered_steps = now.recovered; clean = true } ∷ r.attempts;
      clean = true;
    } in
    let more = rounds max round left (suc number) verified in
    if now.stop_before || (not (number == 0) && now.stop_in_backoff)
    then (with_state r stopped, none)
    else if not a.exit_observed && not (is_launch_failed a.reason)
    then (tried, some exit_unverified)
    else if not now.cleanup_ok
    then (swept, some recovery_refused)
    else if now.stop_after
    then (with_state verified stopped, none)
    else if a.ready && a.exit_observed && is_zero a.exit_code
    then (with_state verified completed, none)
    else if number == max
    then (with_state verified exhausted, some budget_exhausted)
    else more

-- `SuperviseScopedIsolated` after the initial recovery.
unfoldable pub supervise : SupervisorOptions → (ℕ → Round) → SupervisorResult × Option Failure
unfolding rounds
supervise o round =
    rounds o.max_restarts round (suc o.max_restarts) 0
      (record { state = blocked; clean = true; restarts = 0; attempts = [] })
