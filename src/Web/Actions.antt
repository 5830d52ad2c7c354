-- ===== src/Web/Actions.antt =====
-- cmd/tun2proxy-web/backend.go: `backendAction`, which starts and stops one of the two backends.
-- Every command and every look at the system is an event of a trace; what it finds comes from
-- outside, by its place in the trace. The lock, the log file and the written configuration are
-- taken as tests of the outside. A wait polls a bounded number of times, as its deadline and its
-- sleep say.
pub mod Start
use kernel_su_tun2proxy.Prelude.{
  ℕ, zero, suc, String, str_eq, Bool, true, false, not, ◌&&◌, ◌||◌, List, [], ◌∷◌, ◌++◌, Option,
  none, some, length, if◌then◌else◌,
}
use kernel_su_tun2proxy.Prelude.Exec.{
  Result, ok, err, Exec, ◌>>=◌, ◌>>◌, pure, raise, fail_if, continue,
}
use kernel_su_tun2proxy.Web.Config.{Config, Url, validate_backend, backend_name}

pub data Command : Type 0 where
  legacy_start legacy_stop engine_check engine_stop launch kill : Command

-- What `ebpf-proxy status` prints.
pub record Status : Type 0 where
  pub running : Bool
  pub programs_loaded : Bool

pub data ActionError : Type 0 where
  no_lock no_config unsupported bad_backend other_backend routes_left not_written preflight_failed :
      ActionError
  command_failed still_stopping no_log not_started exited not_ready : ActionError

pub data Done : Type 0 where
  stopped started already_running disabled : Done

pub record Host : Type 0 where
  pub ran : List Command
  pub looks : ℕ

pub record ActionEnv : Type 0 where
  pub lock : Bool
  pub config : Option Config
  pub parse_url : String → Option Url
  pub tun_running : ℕ → Bool
  pub status : ℕ → Status
  pub daemon_alive : ℕ → Bool
  pub has_exited : ℕ → Bool
  pub fails : ℕ → Command → Bool
  pub routes_left : Bool
  pub config_written : Bool
  pub log_opens : Bool

abbrev pub M : Type 0 → Type 0
M A = Exec Host ActionError A

-- One look at the system.
abbrev pub look : {A : Type 0} → (ℕ → A) → M A
look f h = (record h { looks = suc h.looks }, ok (f h.looks))

module _ (env : ActionEnv) where
  unfoldable pub command : Command → ActionError → M (Unit {0})
  command c e h =
      if env.fails (length h.ran) c
      then (record h { ran = h.ran ++ c ∷ [] }, err e)
      else (record h { ran = h.ran ++ c ∷ [] }, ok tt)

  -- The wait for the daemon to go.
  unfoldable pub await_end : ℕ → M (Unit {0})
  await_end zero = pure tt
  await_end (suc n) = do
    alive ← look env.daemon_alive
    rest ← (if alive then await_end n else pure tt)
    pure tt

  unfoldable pub stop_engine : M (Unit {0})
  stop_engine = do
    command engine_stop command_failed
    await_end 100
    alive ← look env.daemon_alive
    fail_if alive still_stopping

  unfoldable pub stop : M Done
  stop = do
    s ← look env.status
    (if s.programs_loaded then stop_engine else pure tt)
    command legacy_stop command_failed
    pure stopped

  -- The wait for readiness: some result, or none when the time is over.
  unfoldable pub await_ready : ℕ → M (Option Bool)
  await_ready zero = pure none
  await_ready (suc n) = do
    gone ← look env.has_exited
    s ← look env.status
    rest ← (if gone || s.running then pure none else await_ready n)
    pure (if gone then some false else if s.running then some true else rest)

  unfoldable pub settle : Option Bool → M Done
  settle (some true) = pure started
  settle (some false) = raise exited
  settle none = command kill not_ready >> raise not_ready

  -- The start of the engine, no backend running.
  unfoldable pub start_engine : M Done
  start_engine = do
    fail_if env.routes_left routes_left
    fail_if (not env.config_written) not_written
    command engine_check preflight_failed
    fail_if (not env.log_opens) no_log
    command launch not_started
    r ← await_ready 54
    settle r

  -- `getProcessStatus().Running`
  unfoldable pub any_running : M Bool
  any_running = do t ← look env.tun_running; s ← look env.status; pure (t || s.running)

  unfoldable pub start : Config → M Done
  start c = do
    fail_if (not (validate_backend env.parse_url c)) bad_backend
    running ← any_running
    if running
        then (do
          s ← look env.status
          if (s.running && str_eq (backend_name c) "ebpf")
                || (not s.running && str_eq (backend_name c) "tun")
              then pure already_running
              else raise other_backend)
        else (if str_eq (backend_name c) "tun"
            then (command legacy_start command_failed >> pure started)
            else start_engine)

  unfoldable pub loaded : Option Config → M Config
  loaded none = raise no_config
  loaded (some c) = pure c

  -- `backendAction` for an action other than the read-only "tproxy-preflight".
  unfoldable pub backend_action : String → M Done
  backend_action action = do
    fail_if (not env.lock) no_lock
    c ← loaded env.config
    if str_eq action "stop"
        then stop
        else if str_eq action "restart"
        then (stop >>= λ d. start c)
        else if str_eq action "auto-start"
        then (if c.enabled then start c else pure disabled)
        else if str_eq action "start"
        then start c
        else raise unsupported
