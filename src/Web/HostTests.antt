-- ===== src/Web/HostTests.antt =====
-- The store of certificates, the journal of routes and a start of the engine at concrete values.
use kernel_su_tun2proxy.Prelude.{
  ℕ, zero, suc, pos, String, str_eq, Bool, true, false, [], ◌∷◌, none, some, inl, inr, refl,
  Bool-cases, some_eq, subst,
}
use kernel_su_tun2proxy.Prelude.Exec.{Ensures}
use kernel_su_tun2proxy.Web.Certificates.{Certificate, Inventory, Dir, put, delete}
use kernel_su_tun2proxy.Web.Certificates.Dangling.{
  HasObjects, OnDisk, put-HasObjects, delete-OnDisk,
}
use kernel_su_tun2proxy.Web.Routes.{RouteState, Machine, RouteEnv, empty_state}
use kernel_su_tun2proxy.Web.Actions.{Host, ActionEnv}

abbrev digest : String
digest = "0123456789abcdef0123456789abcdef0123456789abcdef0123456789abcdef"

abbrev certificate : Certificate
certificate = record { id = digest; subject_hash = "9a5ba575"; pem = "PEM" }

abbrev inventory : Inventory
inventory = record {
  entries = (digest, record { certificate = certificate; source = "user"; managed = false }) ∷ [];
  yakit = [];
}

abbrev dir : Dir
dir = record { inventory = some inventory; objects = (digest, "PEM") ∷ []; changes = 0 }

-- The second change of the disk fails.
abbrev second_fails : ℕ → Bool
second_fails (suc zero) = true
second_fails n = false

inventory-HasObjects : HasObjects inventory dir.objects
inventory-HasObjects i e h = elim (Bool-cases (str_eq digest i)) [
  | inl y ↦ ("PEM", rw y refl)
  | inr n ↦ absurd (cc (rw n at h))
]

dir-OnDisk : OnDisk dir
dir-OnDisk v e =
    subst (λ (w : Inventory). HasObjects w dir.objects) (some_eq e) inventory-HasObjects

delete-OnDisk_example : OnDisk (delete second_fails inventory digest dir).0
delete-OnDisk_example =
    delete-OnDisk second_fails inventory digest dir dir-OnDisk inventory-HasObjects

put-HasObjects_example :
    Ensures
      (λ w t. OnDisk t × HasObjects w t.objects)
      (λ _ t. OnDisk t)
      (put second_fails inventory certificate "user" dir)
put-HasObjects_example =
    put-HasObjects second_fails inventory certificate "user" dir dir-OnDisk inventory-HasObjects

abbrev journal : RouteState
journal = record {
  boot = "b";
  mode = "all";
  uids = [];
  pid = pos 7;
  identity = "9";
  undo = ("x" ∷ []) ∷ ("y" ∷ []) ∷ [];
}

abbrev machine : Machine
machine = record { journal = some journal; state = empty_state; ran = []; changes = 0 }

abbrev route_env : RouteEnv
route_env = record {
  run = λ n argv. (false, "");
  change_fails = λ n. false;
  boot_id = "b";
  config = none;
  parse_url = λ s. none;
  ipv4_of = λ s. none;
  network4_of = λ s. none;
  link_up = λ s. false;
  process = record { running = false; pid = pos 0; identity = "" };
  apps = none;
  decimal = λ i. "";
  blank = λ s. true;
  log_opens = true;
  watcher_starts = true;
}

abbrev action_env : ActionEnv
action_env = record {
  lock = true;
  config = none;
  parse_url = λ s. none;
  tun_running = λ n. false;
  status = λ n. record { running = true; programs_loaded = true };
  daemon_alive = λ n. false;
  has_exited = λ n. false;
  fails = λ n c. false;
  routes_left = false;
  config_written = true;
  log_opens = true;
}

abbrev host : Host
host = record { ran = []; looks = 0 }
