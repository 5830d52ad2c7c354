-- ===== src/Redirect/Tests.antt =====
-- A kernel whose only map is a list of UIDs, two flows, and a cgroup below the root.
use kernel_su_tun2proxy.Prelude.{
  ℕ, ◌≤◌, pos, String, str_eq, Bool, true, false, not, ◌&&◌, List, [], ◌∷◌, none, some, drop,
  length, ◌==◌, ◌≡◌, refl, ap, ◌∙◌, sym, ==_iff, Bool-cases, inl, inr, if◌then◌else◌, arith,
}
use kernel_su_tun2proxy.Prelude.Exec.{Ensures}
use kernel_su_tun2proxy.Engine.Config.{EngineConfig}
use kernel_su_tun2proxy.Redirect.Abi.{FlowKey, FlowValue, Policy, seconds}
use kernel_su_tun2proxy.Redirect.Cgroup.{CgroupFs, check_cgroup, check_up, check_hooks}
use kernel_su_tun2proxy.Redirect.Cgroup.Owners.{AllShared, check_cgroup-AllShared}
use kernel_su_tun2proxy.Redirect.Manager.{
  Kernel, State, Write, target_uid, bypass_uid, bypass_prefix, bypass_prefix6, config, Deletion,
  deleted, no_key, Spec, load,
}
use kernel_su_tun2proxy.Redirect.Manager.Links.{IsClosed}
use kernel_su_tun2proxy.Redirect.Manager.Loading.{IsLoaded, load_lem}
use kernel_su_tun2proxy.Redirect.Uids.{uid}
use kernel_su_tun2proxy.Redirect.Uids.Sets.{elem, Deleted, UidMap, set_after, uid_lem}
use kernel_su_tun2proxy.Redirect.Flows.{
  FlowKernel, found, TcpAddr, flow_key, unavailable, resolve, sweep,
}
use kernel_su_tun2proxy.Redirect.Flows.Matching.{IsTaken, removals, misses, resolve_lem}
use kernel_su_tun2proxy.Redirect.Flows.Sweeping.{RemovesOld, sweep_lem}

abbrev cgroup_fs : CgroupFs
cgroup_fs = record {
  eval_symlinks = λ p. some ("app" ∷ []);
  statfs = λ p. some true;
  open_dir = λ p. true;
  query = λ p t. some (record { flags = 2; ids = 7 ∷ [] });
}

check_cgroup_example :
    (dir : List String) × (some ("app" ∷ []) ≡ some dir)
    × (some true ≡ some true)
    × ((n : ℕ)
        → n ≤ length dir
        → ((i : ℕ) → i ≤ n → some true ≡ some true)
        → AllShared cgroup_fs true (drop n dir))
unfolding check_cgroup check_up check_hooks
check_cgroup_example = check_cgroup-AllShared cgroup_fs true "/app" refl

abbrev spec : Spec
spec name =
    if str_eq name "config_map"
    then some (4, 40)
    else if str_eq name "socket_store"
    then some (4, 48)
    else if str_eq name "flow_map"
    then some (48, 48)
    else if str_eq name "bypass_prefix"
    then some (20, 4)
    else if str_eq name "bypass_prefix6"
    then some (20, 4)
    else if str_eq name "stats_map"
    then some (4, 8)
    else some (4, 4)

abbrev without : ℕ → List ℕ → List ℕ
without u [] = []
without u (n ∷ ns) = if n == u then without u ns else n ∷ without u ns

abbrev put : Write → List ℕ → List ℕ × Bool
put (target_uid u) w = (u ∷ w, true)
put (bypass_uid u) w = (w, true)
put (bypass_prefix p) w = (w, true)
put (bypass_prefix6 p) w = (w, true)
put (config p) w = (w, true)

abbrev answer : Bool → Deletion
answer true = deleted
answer false = no_key

abbrev kernel : Kernel (List ℕ)
kernel = record {
  cgroup_fs = λ w. cgroup_fs;
  load_spec = λ path w. (w, some spec);
  new_collection = λ s w. (w, some (λ n. true));
  put = put;
  delete_uid = λ u w. (without u w, answer (elem u w));
  uid_keys = λ w. (w, (w, true));
  attach = λ n w. (w, not (str_eq n "ep_connect6"));
  close_link = λ n w. w;
  close_collection = λ w. w;
  monotonic_ns = λ w. (w, 5);
  open_dir = λ p w. (w, true);
  euid = 0;
  to4 = λ s. 127 ∷ 0 ∷ 0 ∷ 1 ∷ [];
  parse_prefix = λ s. none;
}

abbrev settings : EngineConfig
settings = record {
  version = pos 1;
  listener_address = "127.0.0.1";
  listener_port = pos 18080;
  ipv6 = false;
  upstream_type = "socks5";
  upstream_host = "192.0.2.1";
  upstream_port = pos 1080;
  upstream_username = "";
  upstream_password = "";
  policy_mode = "uid_allowlist";
  uids = 10001 ∷ [];
  bypass_uids = [];
  bypass_cidrs = [];
  udp_mode = "pass";
  bpf_object = "redirect.o";
  bpf_cgroup = "/app";
  runtime_dir = "/run";
  logging_level = "info";
  connect_timeout_seconds = pos 10;
  idle_timeout_seconds = pos 60;
  max_connections = pos 16;
}

abbrev blank : Policy
blank = record {
  version = 0;
  enabled = 0;
  all_non_bypass = 0;
  ipv6 = 0;
  port = 0;
  ipv4 = [];
  heartbeat_ns = 0;
  lease_ns = 0;
}

abbrev unloaded : State (List ℕ)
unloaded = record {
  world = [];
  collection = false;
  policy = blank;
  links = [];
  live = [];
  written = none;
}

load_example :
    Ensures
      (λ _ t. IsLoaded kernel settings t)
      (λ _ t. IsClosed kernel t)
      (load kernel settings unloaded)
load_example =
    load_lem kernel settings unloaded (record { live = refl; links = refl; collection = refl })

elem-without : (u : ℕ) (w : List ℕ) (n : ℕ) → elem n (without u w) ≡ (not (n == u) && elem n w)
elem-without u [] n = ground arith
elem-without u (m ∷ w) n = ground (arith, elem-without u w n)

elem-answer :
    (u : ℕ) (w : List ℕ) → Deleted (answer (elem u w)) u (λ n. elem n w) (λ n. elem n (without u w))
elem-answer u w = answered (elem u w) refl
  where
    kept : (n : ℕ) → elem u w ≡ false → (not (n == u) && elem n w) ≡ elem n w
    kept n e = elim (Bool-cases (n == u)) [
      | inl q ↦ rw q (sym (ap (λ m. elem m w) ((==_iff n u).0 q) ∙ e))
      | inr q ↦ rw q refl
    ]

    answered :
        (b : Bool) → elem u w ≡ b → Deleted (answer b) u (λ n. elem n w) (λ n. elem n (without u w))
    answered true e = elem-without u w
    answered false e = (e, λ n. elem-without u w n ∙ kept n e)

uid_map : UidMap kernel (λ ns. ns)
uid_map = record {
  holds = λ w n. elem n w;
  put = λ u w n. refl;
  delete = elem-answer;
  sound = λ w n h. h;
  complete = λ w n c h. h;
  unchanged = λ w n. refl;
  sorted = λ ns n. refl;
}

uid_example :
    Ensures
      (λ _ t.
        ((n : ℕ)
          → elem n t.world
            ≡ set_after "del" 10001
                (λ n. elem n (10002 ∷ 10001 ∷ []))
                (λ n. elem n (10002 ∷ 10001 ∷ []))
                n)
        × (true ≡ true
            → (n : ℕ)
            → elem n t.world
              ≡ set_after "del" 10001 (λ n. true) (λ n. elem n (10002 ∷ 10001 ∷ [])) n))
      (λ _ t. (n : ℕ) → elem n t.world ≡ true → elem n (10002 ∷ 10001 ∷ []) ≡ true)
      (uid kernel (λ ns. ns) "del" 10001 (record unloaded { world = 10002 ∷ 10001 ∷ [] }))
unfolding uid_map
uid_example =
    uid_lem kernel (λ ns. ns) uid_map "del" 10001 (record unloaded { world = 10002 ∷ 10001 ∷ [] })

abbrev flow : FlowValue
flow = record {
  version = 1;
  family = 2;
  port = 443;
  destination = 192 ∷ 0 ∷ 2 ∷ 7 ∷ [];
  uid = 10001;
  tgid = 77;
  cookie = 9;
  created_ns = seconds 4;
}

abbrev old_key : FlowKey
old_key = record {
  version = 1;
  family = 2;
  protocol = 6;
  client = [];
  listener = [];
  client_port = 40000;
  listener_port = 18080;
}

-- The clock is the world: it moves on by 40 s with each reading.
abbrev flows : FlowKernel ℕ
flows = record {
  lookup = λ key w. (w, found flow);
  remove = λ key w. w;
  monotonic_ns = λ w. (seconds 40, w);
  sleep = λ w. w;
  entries = λ w. (w, (old_key, flow) ∷ []);
}

abbrev loopback : ℕ → TcpAddr
loopback port = record { to4 = some (127 ∷ 0 ∷ 0 ∷ 1 ∷ []); to16 = []; port = port }

resolve_example :
    Ensures
      (λ v t. IsTaken (flow_key (loopback 40000) (loopback 18080)) 10 v t.calls)
      (λ e t.
        (removals t.calls ≡ 0)
        × ((e ≡ unavailable) → t.calls ≡ misses (flow_key (loopback 40000) (loopback 18080)) 10))
      (resolve flows
        (some (loopback 40000))
        (some (loopback 18080))
        (record { world = seconds 5; calls = [] }))
resolve_example =
    resolve_lem flows (loopback 40000) (loopback 18080) (record { world = seconds 5; calls = [] })
      refl

sweep_example :
    Ensures
      (λ _ t. RemovesOld ((old_key, flow) ∷ []) t.calls)
      (λ _ t. RemovesOld ((old_key, flow) ∷ []) t.calls)
      (sweep flows (record { world = seconds 70; calls = [] }))
sweep_example = sweep_lem flows (record { world = seconds 70; calls = [] }) refl
