-- ===== src/Tproxy/Transaction.antt =====
-- ebpf-proxy/internal/tproxy/transaction.go: the in-process transaction.
-- `run` is the environment. Its answer may depend on every command given before, so that other
-- writers, flaky tools and broken kernels are all among its values. `trace` records the commands
-- given to `run`, newest first, with whether they succeeded; the Go value has no such field.
pub mod Ledger
pub mod Rollback
pub mod Trace
mod Tests
use kernel_su_tun2proxy.Prelude.{
  ℕ, zero, suc, ◌+◌, Bool, true, false, not, ◌&&◌, ◌≡◌, List, [], ◌∷◌, Option, none, some, length,
  get_elem?, ◌==◌, if◌then◌else◌,
}
use kernel_su_tun2proxy.Tproxy.Command.{Argv, Step, CommandResult, succeeded}

pub record Call : Type 0 where
  pub argv : Argv
  pub done : Bool

pub data Error : Type 0 where
  command_failed : Argv → Error
  incomplete_rollback : ℕ → Error
  injected : ℕ → Error
  index_panic : Error
  join : Error → Error → Error

pub record Transaction : Type 0 where
  pub steps : List Step
  pub done : ℕ
  pub stopping : Bool
  pub trace : List Call

-- The answer of `run`, given the earlier calls.
abbrev pub Runner : Type 0
Runner = List Call → Argv → CommandResult

pub new_transaction : List Step → Transaction
new_transaction steps = record { steps = steps; done = 0; stopping = false; trace = [] }

-- errors.Join
join_opt : Error → Option Error → Error
join_opt e none = e
join_opt e (some f) = join e f

module _ (run : Runner) where
  pub issue : Argv → Transaction → Transaction × Option Error
  issue argv t =
      let good = succeeded (run t.trace argv) in
      let t' = record t { trace = record { argv = argv; done = good } ∷ t.trace } in
      if good then (t', none) else (t', some (command_failed argv))

  -- `for t.done > 0`: the number is `t.done`.
  pub release : ℕ → Transaction → Transaction × Option Error
  release zero t = (record t { stopping = false }, none)
  release (suc k) t = elim (get_elem? t.steps k) [
    | none ↦ (t, some index_panic)
    | some s ↦
        let (t', e) = issue s.remove t in
        elim e [ none ↦ release k (record t' { done = k }) | some x ↦ (t', some x) ]
  ]

  pub teardown : Transaction → Transaction × Option Error
  unfolding release
  teardown t = release t.done (record t { stopping = true })

  -- `return errors.Join(e, t.teardown())`
  abort : Error → Transaction → Transaction × Option Error
  unfolding teardown join_opt
  abort e t = let (t', f) = teardown t in (t', some (join_opt e f))

  -- `for i, s := range t.steps`
  pub install : ℕ → List Step → ℕ → Transaction → Transaction × Option Error
  unfolding abort
  install fail_after [] i t = (t, none)
  install fail_after (s ∷ rest) i t =
      let (t', e) = issue s.add t in
      elim e [
        | some x ↦ abort x t'
        | none ↦
            let t'' = record t' { done = suc t'.done } in
            let more = install fail_after rest (suc i) t'' in
            if fail_after == suc i then abort (injected fail_after) t'' else more
      ]

  pub setup_failing : ℕ → Transaction → Transaction × Option Error
  unfolding install
  setup_failing fail_after t =
      if t.done == length t.steps && not t.stopping
      then (t, none)
      else if not (t.done == 0)
      then (t, some (incomplete_rollback t.done))
      else install fail_after t.steps 0 t

  -- `Setup`: no injected failure.
  pub setup : Transaction → Transaction × Option Error
  unfolding setup_failing
  setup t = setup_failing 0 t
