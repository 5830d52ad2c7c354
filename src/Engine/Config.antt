-- ===== src/Engine/Config.antt =====
-- ebpf-proxy/internal/config/config.go: the configuration and `Validate`, which fills in defaults.
-- net.ParseIP and net.ParseCIDR come from outside: whether a text is an IPv4 loopback address, and
-- whether it is a network.
use kernel_su_tun2proxy.Prelude.{
  ℕ, ℤ, pos, negsuc, between, String, str_eq, Bool, true, false, not, ◌&&◌, ◌||◌, List, [], ◌∷◌,
  none, some, ltb, ◌==◌, if◌then◌else◌,
}
use text.Mathlib.Text.{find?}
use Prim.Native.String.{len}
use kernel_su_tun2proxy.Prelude.Exec.{ok, err, Exec, ◌>>=◌, ◌>>◌, get, modify, fail_if}

pub record EngineConfig : Type 0 where
  pub version : ℤ
  pub listener_address : String
  pub listener_port : ℤ
  pub ipv6 : Bool
  pub upstream_type : String
  pub upstream_host : String
  pub upstream_port : ℤ
  pub upstream_username : String
  pub upstream_password : String
  pub policy_mode : String
  pub uids : List ℕ
  pub bypass_uids : List ℕ
  pub bypass_cidrs : List String
  pub udp_mode : String
  pub bpf_object : String
  pub bpf_cgroup : String
  pub runtime_dir : String
  pub logging_level : String
  pub connect_timeout_seconds : ℤ
  pub idle_timeout_seconds : ℤ
  pub max_connections : ℤ

pub data ConfigError : Type 0 where
  bad_version bad_listener bad_listener_port bad_upstream_type bad_endpoint bad_host
        bad_authentication :
      ConfigError
  bad_policy bad_udp bad_cidr bad_limits bad_level : ConfigError

abbrev pub M : Type 0 → Type 0
M A = Exec EngineConfig ConfigError A

abbrev pub contains : String → String → Bool
contains s t = elim (find? s t) [ none ↦ false | some i ↦ true ]

-- `strings.ContainsAny(host, " /\\;\r\n\t@?#")`
unfoldable pub has_bad_char : String → Bool
has_bad_char s =
    contains s " "
    || contains s "/"
    || contains s "\\"
    || contains s ";"
    || contains s "\r"
    || contains s "\n"
    || contains s "\t"
    || contains s "@"
    || contains s "?"
    || contains s "#"

abbrev pub is_zero : ℤ → Bool
is_zero (pos n) = n == 0
is_zero (negsuc n) = false

abbrev pub is_one : ℤ → Bool
is_one (pos n) = n == 1
is_one (negsuc n) = false

-- `i < 1`
abbrev pub below_one : ℤ → Bool
below_one (pos n) = ltb n 1
below_one (negsuc n) = true

abbrev pub or_default : ℕ → ℤ → ℤ
or_default n i = if is_zero i then pos n else i

abbrev pub all_cidrs : (String → Bool) → List String → Bool
all_cidrs parse_cidr [] = true
all_cidrs parse_cidr (s ∷ ss) = parse_cidr s && all_cidrs parse_cidr ss

abbrev pub set_defaults : EngineConfig → EngineConfig
set_defaults c = record c {
  connect_timeout_seconds = or_default 10 c.connect_timeout_seconds;
  idle_timeout_seconds = or_default 300 c.idle_timeout_seconds;
  max_connections = or_default 4096 c.max_connections;
}

abbrev pub bad_authentication_of : EngineConfig → Bool
bad_authentication_of c =
    ltb 255 (len c.upstream_username)
    || ltb 255 (len c.upstream_password)
    || (not (str_eq c.upstream_password "") && str_eq c.upstream_username "")

abbrev pub bad_limits_of : EngineConfig → Bool
bad_limits_of c =
    below_one c.connect_timeout_seconds
    || below_one c.idle_timeout_seconds
    || not (between 1 16384 c.max_connections)

abbrev pub known_level : String → Bool
known_level s = str_eq s "error" || str_eq s "warn" || str_eq s "debug" || str_eq s "trace"

-- The switch on the logging level.
unfoldable pub set_level : M (Unit {0})
set_level c =
    if str_eq c.logging_level "" || str_eq c.logging_level "info"
    then (record c { logging_level = "info" }, ok tt)
    else if known_level c.logging_level
    then (c, ok tt)
    else (c, err bad_level)

-- `Validate` from the defaults on.
unfoldable pub fill_in : M (Unit {0})
fill_in = do modify set_defaults; d ← get; fail_if (bad_limits_of d) bad_limits; set_level

module _ (is_loopback4 parse_cidr : String → Bool) where
  -- `Validate` up to the defaults.
  unfoldable pub check_fields : EngineConfig → M (Unit {0})
  check_fields c = do
    fail_if (not (is_one c.version)) bad_version
    fail_if (not (is_loopback4 c.listener_address)) bad_listener
    fail_if (not (between 1 65535 c.listener_port)) bad_listener_port
    fail_if (not (str_eq c.upstream_type "socks5")) bad_upstream_type
    fail_if (str_eq c.upstream_host "" || not (between 1 65535 c.upstream_port)) bad_endpoint
    fail_if (has_bad_char c.upstream_host) bad_host
    fail_if (bad_authentication_of c) bad_authentication
    fail_if
        (not (str_eq c.policy_mode "uid_allowlist") && not (str_eq c.policy_mode "all_non_bypass"))
        bad_policy
    fail_if (not (str_eq c.udp_mode "pass")) bad_udp
    fail_if (not (all_cidrs parse_cidr c.bypass_cidrs)) bad_cidr

  -- `Validate`
  unfoldable pub validate : M (Unit {0})
  validate = do c ← get; check_fields c; fill_in
