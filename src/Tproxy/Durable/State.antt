-- ===== src/Tproxy/Durable/State.antt =====
-- ebpf-proxy/internal/tproxy/journal_linux.go: the durable controller.
-- A method is an `Exec` over the controller, the journal file and the world outside. The world is
-- a parameter: it holds the kernel, other processes and the storage device, and may change at
-- each call that leaves the process. `observe` and `admit` stand for the inspections of command
-- output (observeResources, observeScopedWith, and the checks for a fresh namespace in `Setup`).
use kernel_su_tun2proxy.Prelude.{
  ℕ, String, str_eq, Bool, true, false, not, ◌&&◌, List, Option, none, some, if◌then◌else◌,
}
use kernel_su_tun2proxy.Prelude.Exec.{ok, err, Exec, ◌>>=◌, ◌>>◌, pure, get, fail_if}
use kernel_su_tun2proxy.Tproxy.Command.{Argv, Step, CommandResult}
use kernel_su_tun2proxy.Tproxy.Journal.{JournalRecord, is_idle, counts_match}

pub data Error : Type 0 where
  controller_closed uncertain_intent external_change observation_failed profile_differs : Error
  differs_before_intent command_failed index_panic partial_setup not_fresh cannot_adopt : Error
  legacy_intent foreign_change not_single_operation : Error
  file_error fuel_exhausted : Error

-- The file operations of `save`, in order.
pub data FileStep : Type 0 where
  remove_staging create_staging write_staging sync_staging close_staging rename open_dir sync_dir :
      FileStep

-- What a file of the journal holds: less than a record, a record that a loss of power may still
-- take back, or one that is on the device.
pub data Contents : Type 0 where
  partial : Contents
  written synced : JournalRecord → Contents

abbrev flushed : Option Contents → Option Contents
flushed none = none
flushed (some partial) = some partial
flushed (some (written r)) = some (synced r)
flushed (some (synced r)) = some (synced r)

-- `resourceWitness`, and `scopedWitness` with `excluding` at the index asked for.
pub record Witness : Type 0 where
  pub counts : List ℕ
  pub residual : String
  pub whole : String

pub record Env : Type 1 where
  pub World : Type 0
  pub run : World → Argv → World × CommandResult
  -- isolatedSnapshot
  pub capture : World → World × Option String
  -- observeResources, or in scoped mode observeScopedWith and the digest without the resource
  pub observe : Bool → Option ℕ → World → World × Option Witness
  -- the inspection of firewall, rules and routes at the start of an unscoped `Setup`
  pub admit : World → World × Bool
  pub file : FileStep → World → World × Bool

pub record Durable : Type 0 where
  pub r : JournalRecord
  pub steps : List Step
  pub closed : Bool
  pub scoped : Bool

module _ (env : Env) where
  open env use {World, run, capture, observe, admit, file}

  pub record State : Type 0 where
    pub ctl : Durable
    pub disk : Option Contents  -- journal.json
    pub staging : Option Contents  -- journal.next
    pub world : World

  abbrev pub M : Type 0 → Type 0
  M A = Exec State Error A

  abbrev pub set_record : State → JournalRecord → State
  set_record s r = record s { ctl = record s.ctl { r = r } }

  -- A call that leaves the process and may fail.
  unfoldable pub ask : {A : Type 0} → (World → World × Option A) → Error → M A
  ask q e s =
      let (w, a) = q s.world in
      elim a [ none ↦ (record s { world = w }, err e) | some x ↦ (record s { world = w }, ok x) ]

  -- What a file operation leaves of the two files, where it works and where it fails.
  unfoldable pub file_effect : FileStep → Bool → State → State
  file_effect remove_staging true s = record s { staging = none }
  file_effect create_staging true s = record s { staging = some partial }
  file_effect write_staging true s = record s { staging = some (written s.ctl.r) }
  file_effect write_staging false s = record s { staging = some partial }
  file_effect sync_staging true s = record s { staging = flushed s.staging }
  file_effect rename true s = record s { disk = s.staging; staging = none }
  file_effect st b s = s

  unfoldable pub file_step : FileStep → M (Unit {0})
  unfolding file_effect
  file_step st s =
      let (w, good) = file st s.world in
      if good
      then (file_effect st true (record s { world = w }), ok tt)
      else (file_effect st false (record s { world = w }), err file_error)

  unfoldable pub save : M (Unit {0})
  save = do
    file_step remove_staging
    file_step create_staging
    file_step write_staging
    file_step sync_staging
    file_step close_staging
    file_step rename
    file_step open_dir
    file_step sync_dir

  -- `observeScopedWith`, and the comparison of its counts with what is owned
  unfoldable pub scoped_snapshot : M String
  scoped_snapshot = do
    w ← ask (observe true none) observation_failed
    s ← get
    fail_if (not (counts_match w.counts s.ctl.r.owned)) profile_differs
    pure w.whole

  unfoldable pub snapshot : M String
  snapshot s = if not s.ctl.scoped then ask capture observation_failed s else scoped_snapshot s

  unfoldable pub witness : Option ℕ → M Witness
  witness index s = ask (observe s.ctl.scoped index) observation_failed s

  unfoldable pub check : M (Unit {0})
  check = do
    s ← get
    fail_if s.ctl.closed controller_closed
    fail_if (not (is_idle s.ctl.r.pending)) uncertain_intent
    d ← snapshot
    fail_if (not (str_eq s.ctl.r.snapshot "") && not (str_eq d s.ctl.r.snapshot)) external_change
