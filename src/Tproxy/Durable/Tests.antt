-- ===== src/Tproxy/Durable/Tests.antt =====
-- A kernel with one resource, and a process that dies while it installs it.
use kernel_su_tun2proxy.Prelude.{
  ℕ, zero, suc, String, Bool, true, false, List, [], ◌∷◌, none, some, get_elem?, ◌≡◌, refl, subst,
  some_eq, sym, ap, inl, inr, ◌⊎◌, arith,
}
use kernel_su_tun2proxy.Prelude.Exec.{ok, Ensures, continue}
use kernel_su_tun2proxy.Tproxy.Command.{Argv, Step, CommandResult, code, succeeded}
use kernel_su_tun2proxy.Tproxy.Plan.{v4, plan_eq}
use kernel_su_tun2proxy.Tproxy.Journal.{
  JournalRecord, Identity, idle, adding, match_from, counts_match, admissible,
}
use kernel_su_tun2proxy.Tproxy.Durable.State.{
  synced, file_effect, Env, State, Durable, ask, file_step, save, scoped_snapshot, snapshot,
  witness, check,
}
use kernel_su_tun2proxy.Tproxy.Durable.Methods.{
  declare, apply_step, restore, undo, finish, commit, change, remove_all, add_all, roll_back,
  settle, reconcile, reconcile_if, recover, resolve_pending, first_snapshot, setup_scoped,
  setup_strict, start, setup, open_durable,
}
use kernel_su_tun2proxy.Tproxy.Durable.Covers.{Kernel, Holds}
use kernel_su_tun2proxy.Tproxy.Durable.Sound.{IsSound}
use kernel_su_tun2proxy.Tproxy.Durable.Saving.{Saved, Interrupted, save_atomic}
use kernel_su_tun2proxy.Tproxy.Durable.Step.{Committed, change_lem}
use kernel_su_tun2proxy.Tproxy.Durable.Loops.{Settled, remove_all_fuel, add_all_fuel}
use kernel_su_tun2proxy.Tproxy.Durable.Recovery.{recover_lem, reconcile_lem}
use kernel_su_tun2proxy.Tproxy.Durable.Installing.{setup_lem}
use kernel_su_tun2proxy.Tproxy.Durable.Crash.{
  IsWhole, crash-IsWhole, setting_up, method, crash, limited, reopened, crash-recover,
  crash-IsSound, method-IsSound,
}

abbrev digest : String
digest = "0123456789abcdef0123456789abcdef0123456789abcdef0123456789abcdef"

abbrev one : Step
one = record { add = "add" ∷ []; remove = "del" ∷ "it" ∷ [] }

abbrev counts_of : Bool → List ℕ
counts_of true = 1 ∷ []
counts_of false = 0 ∷ []

abbrev fine : CommandResult
fine = record { exit_code = code 0; output = ""; error = "" }

abbrev run_one : Bool → Argv → Bool × CommandResult
run_one w (a ∷ []) = (true, fine)
run_one w argv = (false, fine)

abbrev bool_env : Env
bool_env = record {
  World = Bool;
  run = run_one;
  capture = λ w. (w, some digest);
  observe = λ b i w. (w, some (record { counts = counts_of w; residual = digest; whole = digest }));
  admit = λ w. (w, true);
  file = λ st w. (w, true);
}

abbrev identity : Identity
identity = record {
  namespace = "net:[1]";
  boot = "b";
  plan = record {
    destination = v4 192 0 2 1;
    port = 443;
    listener_port = 12345;
    mark = 1;
    mask = 255;
    table = 100;
    priority = 100;
    prefix = "p";
  };
}

abbrev fresh : State bool_env
fresh = record {
  ctl = record {
    r = record {
      version = 3;
      identity = identity;
      owned = 0;
      pending = idle;
      snapshot = "";
      pending_proof = "";
    };
    steps = one ∷ [];
    closed = false;
    scoped = true;
  };
  disk = none;
  staging = none;
  world = false;
}

one_effect :
    (Q : Step → Type 0) (n : ℕ) (s : Step) → get_elem? (one ∷ []) n ≡ some s → (n ≡ 0 → Q one) → Q s
one_effect Q zero s e q = subst Q (some_eq e) (q refl)
one_effect Q (suc n) s e q = absurd (cc)

bool_kernel : Kernel bool_env (one ∷ [])
unfolding succeeded counts_match match_from
bool_kernel = record {
  profile = counts_of;
  capture_keeps = λ w. refl;
  observe_keeps = λ b i w. refl;
  observe_shows = λ b i w x e. ap (λ y. y.counts) (sym (some_eq e));
  admit_keeps = λ w. refl;
  file_keeps = λ st w. refl;
  add_effect = λ w n s e h.
      one_effect
        (λ x.
          Holds (counts_of (run_one w x.add).0) (suc n)
          ⊎ (Holds (counts_of (run_one w x.add).0) n × (succeeded (run_one w x.add).1 ≡ false)))
        n s e (λ z. inl (subst (λ m. Holds (1 ∷ []) (suc m)) (sym z) refl));
  remove_effect = λ w n s e h.
      one_effect
        (λ x.
          Holds (counts_of (run_one w x.remove).0) n
          ⊎ (Holds (counts_of (run_one w x.remove).0) (suc n)
              × (succeeded (run_one w x.remove).1 ≡ false)))
        n s e (λ z. inl (subst (λ m. Holds (0 ∷ []) m) (sym z) refl));
}

fresh-IsSound : IsSound bool_env (one ∷ []) bool_kernel fresh
unfolding counts_match match_from bool_kernel
fresh-IsSound = record { memory = refl; file = refl; plan = refl }

-- The journal that the crash leaves: the resource is installed, its intent is not committed.
abbrev half_done : JournalRecord
half_done = record {
  version = 3;
  identity = identity;
  owned = 0;
  pending = adding;
  snapshot = digest;
  pending_proof = digest;
}

abbrev reloaded : Durable
reloaded = record { r = half_done; steps = one ∷ []; closed = false; scoped = true }

interrupted :
    crash bool_env setting_up 21 fresh
    ≡ record { disk = some (synced half_done); staging = none; world = true }
unfolding crash limited method setup start setup_scoped setup_strict first_snapshot add_all
    remove_all change declare apply_step commit finish undo restore recover reconcile reconcile_if
    settle roll_back resolve_pending snapshot scoped_snapshot witness check save file_step
    file_effect ask counts_match match_from succeeded continue
interrupted = refl

abbrev after_crash : State bool_env
after_crash = record {
  ctl = reloaded;
  disk = some (synced half_done);
  staging = none;
  world = true;
}

reopens :
    open_durable true identity (one ∷ []) (crash bool_env setting_up 21 fresh).disk ≡ some reloaded
unfolding crash limited method setup start setup_scoped setup_strict first_snapshot add_all
    remove_all change declare apply_step commit finish undo restore recover reconcile reconcile_if
    settle roll_back resolve_pending snapshot scoped_snapshot witness check save file_step
    file_effect ask counts_match match_from succeeded continue open_durable admissible plan_eq
reopens = refl

recovers :
    (recover bool_env (reopened bool_env (one ∷ []) bool_kernel setting_up 21 fresh reloaded)).1
    ≡ ok tt
unfolding crash limited method setup start setup_scoped setup_strict first_snapshot add_all
    remove_all change declare apply_step commit finish undo restore recover reconcile reconcile_if
    settle roll_back resolve_pending snapshot scoped_snapshot witness check save file_step
    file_effect ask counts_match match_from succeeded continue
recovers = refl

crash-recover_example :
    ((recover bool_env
        (reopened bool_env (one ∷ []) bool_kernel setting_up 21 fresh reloaded)).0.ctl.r.owned
      ≡ 0)
    × Holds
        (bool_kernel.profile
          (recover bool_env
            (reopened bool_env (one ∷ []) bool_kernel setting_up 21 fresh reloaded)).0.world)
        0
crash-recover_example =
    crash-recover bool_env (one ∷ []) bool_kernel setting_up 21 fresh true identity reloaded
      fresh-IsSound reopens recovers

crash-IsSound_example :
    IsSound bool_env
      (one ∷ [])
      bool_kernel
      (reopened bool_env (one ∷ []) bool_kernel setting_up 21 fresh reloaded)
crash-IsSound_example =
    crash-IsSound bool_env (one ∷ []) bool_kernel setting_up 21 fresh true identity reloaded
      fresh-IsSound reopens

crash-IsWhole_example :
    IsWhole
      (crash bool_env setting_up 21 fresh).disk
      (counts_of (crash bool_env setting_up 21 fresh).world)
unfolding bool_kernel
crash-IsWhole_example =
    crash-IsWhole bool_env (one ∷ []) bool_kernel setting_up 21 fresh fresh-IsSound

method-IsSound_example :
    IsSound bool_env (one ∷ []) bool_kernel (method bool_env setting_up fresh).0
method-IsSound_example =
    method-IsSound bool_env (one ∷ []) bool_kernel setting_up fresh fresh-IsSound

setup_example :
    Ensures
      (λ _ t. Settled bool_env (one ∷ []) bool_kernel 1 t)
      (λ _ t. IsSound bool_env (one ∷ []) bool_kernel t)
      (setup bool_env fresh)
setup_example = setup_lem bool_env (one ∷ []) bool_kernel fresh fresh-IsSound

after_crash-IsSound : IsSound bool_env (one ∷ []) bool_kernel after_crash
unfolding counts_match match_from bool_kernel
after_crash-IsSound = record { memory = inr refl; file = inr refl; plan = refl }

recover_example :
    Ensures
      (λ _ t. Settled bool_env (one ∷ []) bool_kernel 0 t)
      (λ _ t. IsSound bool_env (one ∷ []) bool_kernel t)
      (recover bool_env after_crash)
recover_example = recover_lem bool_env (one ∷ []) bool_kernel after_crash after_crash-IsSound

reconcile_example :
    Ensures
      (λ _ t. (n : ℕ) × Settled bool_env (one ∷ []) bool_kernel n t)
      (λ _ t. IsSound bool_env (one ∷ []) bool_kernel t)
      (reconcile bool_env after_crash)
reconcile_example = reconcile_lem bool_env (one ∷ []) bool_kernel after_crash after_crash-IsSound

change_example :
    Ensures
      (λ _ t. Committed bool_env (one ∷ []) bool_kernel 1 t)
      (λ _ t. IsSound bool_env (one ∷ []) bool_kernel t)
      (change bool_env adding fresh)
change_example = change_lem bool_env (one ∷ []) bool_kernel adding fresh tt fresh-IsSound

abbrev installed : State bool_env
installed = record {
  ctl = record {
    r = record {
      version = 3;
      identity = identity;
      owned = 1;
      pending = idle;
      snapshot = digest;
      pending_proof = "";
    };
    steps = one ∷ [];
    closed = false;
    scoped = true;
  };
  disk = some (
      synced (record {
        version = 3;
        identity = identity;
        owned = 1;
        pending = idle;
        snapshot = digest;
        pending_proof = "";
      }));
  staging = none;
  world = true;
}

installed-Settled : Settled bool_env (one ∷ []) bool_kernel 1 installed
unfolding counts_match match_from bool_kernel
installed-Settled = record {
  sound = record { memory = refl; file = refl; plan = refl };
  pending = refl;
  owned = refl;
  holds = refl;
}

fresh-Settled : Settled bool_env (one ∷ []) bool_kernel 0 fresh
unfolding bool_kernel counts_match match_from
fresh-Settled = record { sound = fresh-IsSound; pending = refl; owned = refl; holds = refl }

remove_all_fuel_example : remove_all bool_env 2 installed ≡ remove_all bool_env 1 installed
remove_all_fuel_example =
    remove_all_fuel bool_env (one ∷ []) bool_kernel 1 installed installed-Settled (omega arith)

add_all_fuel_example : add_all bool_env 2 fresh ≡ add_all bool_env 1 fresh
add_all_fuel_example =
    add_all_fuel bool_env (one ∷ []) bool_kernel 1 fresh fresh-Settled (omega arith) (omega arith)

save_example :
    Ensures
      (λ _ t. Saved bool_env (one ∷ []) bool_kernel fresh t)
      (λ _ t. Interrupted bool_env (one ∷ []) bool_kernel fresh t)
      (save bool_env fresh)
save_example = save_atomic bool_env (one ∷ []) bool_kernel fresh
