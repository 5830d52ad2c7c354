-- ===== src/Daemon/Tests.antt =====
-- A daemon that gets a command, a tick and a signal.
use kernel_su_tun2proxy.Prelude.{
  ℕ, pos, str_eq, true, false, List, [], ◌∷◌, none, some, refl, if◌then◌else◌,
}
use kernel_su_tun2proxy.Engine.Config.{EngineConfig}
use kernel_su_tun2proxy.Redirect.Abi.{Policy}
use kernel_su_tun2proxy.Redirect.Cgroup.{CgroupFs}
use kernel_su_tun2proxy.Redirect.Manager.{Kernel, deleted, Spec}
use kernel_su_tun2proxy.Redirect.Flows.{FlowKernel, missing}
use kernel_su_tun2proxy.Daemon.{Event, signal, tick, command, Daemon, run}
use kernel_su_tun2proxy.Daemon.Shutdown.{Stands, run_lem}

abbrev spec : Spec
spec name =
    if str_eq name "config_map"
    then some (4, 40)
    else if str_eq name "socket_store"
    then some (4, 48)
    else if str_eq name "flow_map"
    then some (48, 48)
    else if str_eq name "bypass_prefix"
    then some (20, 4)
    else if str_eq name "bypass_prefix6"
    then some (20, 4)
    else if str_eq name "stats_map"
    then some (4, 8)
    else some (4, 4)

abbrev cgroup_fs : CgroupFs
cgroup_fs = record {
  eval_symlinks = λ p. some ("app" ∷ []);
  statfs = λ p. some true;
  open_dir = λ p. true;
  query = λ p t. some (record { flags = 0; ids = [] });
}

-- The world is the clock.
abbrev kernel : Kernel ℕ
kernel = record {
  cgroup_fs = λ w. cgroup_fs;
  load_spec = λ path w. (w, some spec);
  new_collection = λ s w. (w, some (λ n. true));
  put = λ x w. (w, true);
  delete_uid = λ u w. (w, deleted);
  uid_keys = λ w. (w, ([], true));
  attach = λ n w. (w, true);
  close_link = λ n w. w;
  close_collection = λ w. w;
  monotonic_ns = λ w. (w, w);
  open_dir = λ p w. (w, true);
  euid = 0;
  to4 = λ s. 127 ∷ 0 ∷ 0 ∷ 1 ∷ [];
  parse_prefix = λ s. none;
}

abbrev flows : FlowKernel ℕ
flows = record {
  lookup = λ key w. (w, missing);
  remove = λ key w. w;
  monotonic_ns = λ w. (w, w);
  sleep = λ w. w;
  entries = λ w. (w, []);
}

abbrev settings : EngineConfig
settings = record {
  version = pos 1;
  listener_address = "127.0.0.1";
  listener_port = pos 18080;
  ipv6 = true;
  upstream_type = "socks5";
  upstream_host = "192.0.2.1";
  upstream_port = pos 1080;
  upstream_username = "";
  upstream_password = "";
  policy_mode = "uid_allowlist";
  uids = 10001 ∷ [];
  bypass_uids = [];
  bypass_cidrs = [];
  udp_mode = "pass";
  bpf_object = "redirect.o";
  bpf_cgroup = "/app";
  runtime_dir = "/run";
  logging_level = "info";
  connect_timeout_seconds = pos 10;
  idle_timeout_seconds = pos 60;
  max_connections = pos 16;
}

abbrev blank : Policy
blank = record {
  version = 0;
  enabled = 0;
  all_non_bypass = 0;
  ipv6 = 0;
  port = 0;
  ipv4 = [];
  heartbeat_ns = 0;
  lease_ns = 0;
}

abbrev waiting : Daemon ℕ
waiting = record {
  manager = record {
    world = 5;
    collection = false;
    policy = blank;
    links = [];
    live = [];
    written = none;
  };
  ready = false;
  listeners = 2;
  control_closed = false;
  stopping = false;
}

abbrev events : List Event
events = command (record { post = true; action = "uid-add"; uid = 10002 }) ∷ tick true ∷ signal ∷ []

run_example :
    Stands kernel flows
      (λ ns. ns)
      settings
      (run kernel flows (λ ns. ns) settings true events waiting)
run_example =
    run_lem kernel flows (λ ns. ns) settings true events waiting
      (record { live = refl; links = refl; collection = refl }) refl
