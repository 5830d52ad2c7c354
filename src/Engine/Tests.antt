-- ===== src/Engine/Tests.antt =====
-- A configuration whose limits and level are left out.
use kernel_su_tun2proxy.Prelude.{pos, String, str_eq, Bool, true, false, [], ◌∷◌, ◌≡◌, refl}
use kernel_su_tun2proxy.Prelude.Exec.{ok, continue}
use kernel_su_tun2proxy.Engine.Config.{
  EngineConfig, has_bad_char, below_one, set_level, fill_in, check_fields, validate,
}
use kernel_su_tun2proxy.Engine.Validation.{InRange, validate-InRange, validate-idempotent}

abbrev loopback : String → Bool
loopback s = str_eq s "127.0.0.1"

abbrev network : String → Bool
network s = str_eq s "10.0.0.0/8"

abbrev minimal : EngineConfig
minimal = record {
  version = pos 1;
  listener_address = "127.0.0.1";
  listener_port = pos 18080;
  ipv6 = true;
  upstream_type = "socks5";
  upstream_host = "192.0.2.1";
  upstream_port = pos 1080;
  upstream_username = "";
  upstream_password = "";
  policy_mode = "uid_allowlist";
  uids = 10001 ∷ [];
  bypass_uids = [];
  bypass_cidrs = "10.0.0.0/8" ∷ [];
  udp_mode = "pass";
  bpf_object = "";
  bpf_cgroup = "";
  runtime_dir = "";
  logging_level = "";
  connect_timeout_seconds = pos 0;
  idle_timeout_seconds = pos 0;
  max_connections = pos 0;
}

accepted : (validate loopback network minimal).1 ≡ ok tt
unfolding validate check_fields fill_in set_level has_bad_char continue
accepted = refl

validate-InRange_example :
    let t = (validate loopback network minimal).0 in
    InRange 1 65535 t.listener_port
    × InRange 1 65535 t.upstream_port
    × InRange 1 16384 t.max_connections
    × (below_one t.connect_timeout_seconds ≡ false)
    × (below_one t.idle_timeout_seconds ≡ false)
validate-InRange_example = validate-InRange loopback network minimal accepted

validate-idempotent_example :
    validate loopback network (validate loopback network minimal).0
    ≡ ((validate loopback network minimal).0, ok tt)
validate-idempotent_example = validate-idempotent loopback network minimal accepted
