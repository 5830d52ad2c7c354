-- ===== src/Tproxy/Durable/Methods.antt =====
-- ebpf-proxy/internal/tproxy/journal_linux.go: `change`, `Recover`, `reconcile`, `ResolvePending`,
-- `Setup` and `Close` of the durable controller.
use kernel_su_tun2proxy.Prelude.{
  ℕ, zero, suc, String, str_eq, Bool, true, false, not, ◌&&◌, ◌||◌, List, Option, none, some,
  length, get_elem?, ◌==◌, ltb, if◌then◌else◌,
}
use kernel_su_tun2proxy.Prelude.Exec.{
  Result, ok, err, ◌>>=◌, ◌>>◌, pure, raise, get, modify, fail_if, attempt, continue,
}
use kernel_su_tun2proxy.Tproxy.Command.{Argv, Step, succeeded}
use kernel_su_tun2proxy.Tproxy.Journal.{
  Identity, JournalRecord, Pending, idle, adding, removing, is_idle, counts_match, admissible,
}
use kernel_su_tun2proxy.Tproxy.Durable.State.{
  Contents, partial, written, synced, Error, controller_closed, differs_before_intent,
  command_failed, index_panic, partial_setup, not_fresh, cannot_adopt, legacy_intent,
  foreign_change, fuel_exhausted, not_single_operation, Witness, Env, Durable, State, M, set_record,
  ask, save, snapshot, witness, check, observation_failed,
}

-- The index of the step that an intent is about: `Owned`, or `Owned - 1` for a removal.
abbrev pub index_of : Pending → ℕ → Option ℕ
index_of removing zero = none
index_of removing (suc n) = some n
index_of _ n = some n

abbrev pub at_index : List Step → Option ℕ → Option Step
at_index steps none = none
at_index steps (some i) = get_elem? steps i

abbrev pub argv_of : Pending → Step → Argv
argv_of removing s = s.remove
argv_of _ s = s.add

-- `Owned++` or `Owned--`
abbrev pub owned_after : Pending → ℕ → ℕ
owned_after removing zero = zero
owned_after removing (suc n) = n
owned_after adding n = suc n
owned_after idle n = n

-- The number of installed steps that the counts show: `after` if they fit it, or `Owned`.
abbrev pub outcome : List ℕ → Pending → ℕ → Option ℕ
outcome counts pending owned =
    if counts_match counts (owned_after pending owned)
    then some (owned_after pending owned)
    else if counts_match counts owned
    then some owned
    else none

-- The version that a new intent is written with.
abbrev pub version_of : Bool → ℕ
version_of scoped = if scoped then 3 else 2

module _ (env : Env) where
  open env use {World, run, capture, observe, admit}

  -- First part of `change`: verify, and write the intent before the kernel is touched.
  unfoldable pub declare : Pending → M env String
  declare intent = do
    check env
    s ← get
    w ← witness env (index_of intent s.ctl.r.owned)
    fail_if (not (str_eq w.whole s.ctl.r.snapshot) || not (counts_match w.counts s.ctl.r.owned))
        differs_before_intent
    modify (λ t. set_record env t (record t.ctl.r {
      version = version_of t.ctl.scoped;
      pending = intent;
      pending_proof = w.residual;
    }))
    save env
    pure w.residual

  -- Second part: the command. Its completion may be ambiguous.
  unfoldable pub apply_step : Pending → M env (Unit {0})
  apply_step intent s = elim (at_index s.ctl.steps (index_of intent s.ctl.r.owned)) [
    | none ↦ (s, err index_panic)
    | some st ↦
        let (w, result) = run s.world (argv_of intent st) in
        if succeeded result
        then (record s { world = w }, ok tt)
        else (record s { world = w }, err command_failed)
  ]

  unfoldable pub restore : ℕ → Error → M env (Unit {0})
  restore owned e = do modify (λ t. set_record env t (record t.ctl.r { owned = owned })); raise e

  unfoldable pub undo :
      Pending → JournalRecord → String → Result Error (Unit {0}) → M env (Unit {0})
  undo intent before proof (ok u) = pure tt
  undo intent before proof (err e) = do
    modify (λ t. set_record env t (record t.ctl.r {
      owned = before.owned;
      snapshot = before.snapshot;
      pending = intent;
      pending_proof = proof;
    }))
    raise e

  unfoldable pub finish : Pending → JournalRecord → String → Result Error String → M env (Unit {0})
  finish intent before proof (err e) = restore before.owned e
  finish intent before proof (ok d) = do
    modify (λ t.
        set_record env t (record t.ctl.r { snapshot = d; pending = idle; pending_proof = "" }))
    saved ← attempt (save env)
    undo intent before proof saved

  -- Third part: observe the new state and commit it; on failure the intent stays in memory.
  unfoldable pub commit : Pending → JournalRecord → String → M env (Unit {0})
  commit intent before proof = do
    modify (λ t. set_record env t (record t.ctl.r { owned = owned_after intent t.ctl.r.owned }))
    seen ← attempt (snapshot env)
    finish intent before proof seen

  unfoldable pub change : Pending → M env (Unit {0})
  change intent = do s ← get; proof ← declare intent; apply_step intent; commit intent s.ctl.r proof

  -- `for d.r.Owned > 0`, with fuel.
  unfoldable pub remove_all : ℕ → M env (Unit {0})
  remove_all zero s = if s.ctl.r.owned == 0 then (s, ok tt) else (s, err fuel_exhausted)
  remove_all (suc fuel) s =
      let more = continue (change removing s) (λ _. remove_all fuel) in
      if s.ctl.r.owned == 0 then (s, ok tt) else more

  -- `for d.r.Owned < len(d.steps)`, with fuel.
  unfoldable pub add_all : ℕ → M env (Unit {0})
  add_all zero s =
      if ltb s.ctl.r.owned (length s.ctl.steps) then (s, err fuel_exhausted) else (s, ok tt)
  add_all (suc fuel) s =
      let more = continue (change adding s) (λ _. add_all fuel) in
      if ltb s.ctl.r.owned (length s.ctl.steps) then more else (s, ok tt)

  unfoldable pub roll_back : JournalRecord → Result Error (Unit {0}) → M env (Unit {0})
  roll_back old (ok u) = pure tt
  roll_back old (err e) = do modify (λ t. set_record env t old); raise e

  -- `reconcile`, once the outcome is known to be a single planned operation.
  unfoldable pub settle : Witness → Option ℕ → M env (Unit {0})
  settle w none = raise not_single_operation
  settle w (some n) = do
    s ← get
    modify (λ t.
        set_record env t
          (record t.ctl.r { owned = n; snapshot = w.whole; pending = idle; pending_proof = "" }))
    saved ← attempt (save env)
    roll_back s.ctl.r saved

  unfoldable pub reconcile : M env (Unit {0})
  reconcile = do
    s ← get
    let r = s.ctl.r
    fail_if ((not (r.version == 2) && not (r.version == 3)) || str_eq r.pending_proof "")
        legacy_intent
    w ← witness env (index_of r.pending r.owned)
    fail_if (not (str_eq w.residual r.pending_proof)) foreign_change
    settle w (outcome w.counts r.pending r.owned)

  unfoldable pub reconcile_if : Bool → M env (Unit {0})
  reconcile_if true = reconcile
  reconcile_if false = pure tt

  unfoldable pub recover : M env (Unit {0})
  recover = do
    s ← get
    fail_if s.ctl.closed controller_closed
    reconcile_if (not (is_idle s.ctl.r.pending))
    check env
    t ← get
    remove_all t.ctl.r.owned

  unfoldable pub resolve_pending : M env (Unit {0})
  resolve_pending = do
    s ← get
    fail_if s.ctl.closed controller_closed
    if is_idle s.ctl.r.pending then check env else reconcile

  -- `d.r.Snapshot, e = isolatedSnapshot()` assigns "" when it fails.
  unfoldable pub first_snapshot : Result Error String → M env (Unit {0})
  first_snapshot (ok d) = modify (λ t. set_record env t (record t.ctl.r { snapshot = d }))
  first_snapshot (err e) = do
    modify (λ t. set_record env t (record t.ctl.r { snapshot = "" }))
    raise e

  unfoldable pub setup_scoped : M env (Unit {0})
  setup_scoped = do
    w ← ask env (observe true none) observation_failed
    fail_if (not (counts_match w.counts 0)) cannot_adopt
    modify (λ t. set_record env t (record t.ctl.r { snapshot = w.whole }))
    save env
    s ← get
    add_all (length s.ctl.steps)

  unfoldable pub setup_strict : M env (Unit {0})
  setup_strict = do
    admitted ←
        ask env (λ w. let (w', good) = admit w in (w', if good then some tt else none)) not_fresh
    seen ← attempt (ask env capture observation_failed)
    first_snapshot seen
    save env
    s ← get
    add_all (length s.ctl.steps)

  unfoldable pub start : State env → M env (Unit {0})
  start s =
      if s.ctl.r.owned == length s.ctl.steps
      then pure tt
      else if not (s.ctl.r.owned == 0)
      then raise partial_setup
      else if s.ctl.scoped
      then setup_scoped
      else setup_strict

  unfoldable pub setup : M env (Unit {0})
  setup = do check env; s ← get; start s

  -- `Close`; errors of closing the lock are not modelled.
  unfoldable pub close : State env → State env
  close s = record s { ctl = record s.ctl { closed = true } }

abbrev adopted : Bool → Identity → List Step → JournalRecord → Option Durable
adopted scoped id steps r =
    if admissible scoped id (length steps) r
    then some (record { r = r; steps = steps; closed = false; scoped = scoped })
    else none

-- `openDurableIsolated` once the lock is held: the record of a journal file that passes
-- `decodeJournalMode`, or a new one if there is no file.
unfoldable pub open_durable : Bool → Identity → List Step → Option Contents → Option Durable
open_durable scoped id steps none = some (record {
  r = record {
    version = version_of scoped;
    identity = id;
    owned = 0;
    pending = idle;
    snapshot = "";
    pending_proof = "";
  };
  steps = steps;
  closed = false;
  scoped = scoped;
})
open_durable scoped id steps (some partial) = none
open_durable scoped id steps (some (written r)) = adopted scoped id steps r
open_durable scoped id steps (some (synced r)) = adopted scoped id steps r
