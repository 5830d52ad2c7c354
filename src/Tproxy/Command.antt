-- ===== src/Tproxy/Command.antt =====
-- Commands and their results: `Result` of ebpf-proxy/internal/tproxy/report.go, `Step` and
-- `commandError` of ebpf-proxy/internal/tproxy/transaction.go.
use kernel_su_tun2proxy.Prelude.{ℕ, zero, String, str_eq, Bool, true, false, ◌&&◌, List}

-- Go's `int`, as far as a process exit code needs it.
pub data ExitCode : Type 0 where
  code : ℕ → ExitCode
  negative : ℕ → ExitCode

abbrev pub Argv : Type 0
Argv = List String

pub record CommandResult : Type 0 where
  pub exit_code : ExitCode
  pub output : String
  pub error : String

pub record Step : Type 0 where
  pub add : Argv
  pub remove : Argv

abbrev pub is_zero : ExitCode → Bool
is_zero (code zero) = true
is_zero _ = false

-- `commandError(r) == nil`; the formatted message is not modelled.
unfoldable pub succeeded : CommandResult → Bool
succeeded r = is_zero r.exit_code && str_eq r.error ""
