-- ===== src/Tproxy/Supervisor/Rounds.antt =====
-- ebpf-proxy/internal/tproxy/supervisor_linux.go: the loop of attempts.
use kernel_su_tun2proxy.Prelude.{
  ℕ, suc, ◌-◌, ◌≤◌, ◌==◌, if◌then◌else◌, true, ◌≡◌, ◌≢◌, List, [], ◌∷◌, length, some, none, Option,
}
use kernel_su_tun2proxy.Tproxy.Supervisor.{
  Attempt, Round, SupervisorResult, Failure, unreachable_state,
}

-- Every attempt of the list was cleaned up after.
abbrev pub AllClean : List Attempt → Type 0
AllClean [] = Unit {0}
AllClean (a ∷ l) = (a.clean ≡ true) × AllClean l

-- The attempts before the newest.
abbrev pub before_newest : List Attempt → List Attempt
before_newest [] = []
before_newest (a ∷ l) = l

-- What holds when round `number` begins.
record IsRunning (number : ℕ) (r : SupervisorResult) : Type 0 where
  count : length r.attempts ≡ number
  restarted : r.restarts ≡ number - 1
  cleaned : AllClean r.attempts
  clean : r.clean ≡ true

-- What holds of the outcome.
pub record IsBounded (max : ℕ) (p : SupervisorResult × Option Failure) : Type 0 where
  pub attempts : length p.0.attempts ≤ suc max
  pub restarts : p.0.restarts ≤ max
  pub earlier : AllClean (before_newest p.0.attempts)
  pub reachable : p.1 ≢ some unreachable_state
  pub success : p.1 ≡ none → AllClean p.0.attempts × (p.0.clean ≡ true)

-- The result before the next round, after attempt `a`.
abbrev next : ℕ → Round → SupervisorResult → SupervisorResult
next number now r = record r {
  attempts = record now.attempt { recovered_steps = now.recovered; clean = true } ∷ r.attempts;
  restarts = if number == 0 then r.restarts else suc r.restarts;
  clean = true;
}
