-- ===== src/Web/Backend.antt =====
-- cmd/tun2proxy-web/backend.go: the engine's configuration made from the saved one, and the actions
-- on the two backends.
-- From outside: net/url's parser, strconv.Atoi on a port, and net.ParseIP and net.ParseCIDR, of
-- which the code asks whether a text is an IPv4 address, an IPv6 address, a network.
pub mod Contract
pub mod Uids
use kernel_su_tun2proxy.Prelude.{
  ℕ, zero, suc, ◌%◌, ◌^◌, ℤ, pos, negsuc, between, String, str_eq, Bool, true, false, not, ◌&&◌,
  ◌||◌, List, [], ◌∷◌, Option, none, some, length, ltb, leb, ◌==◌, if◌then◌else◌,
}
use Prim.Native.String.{◌++◌ as join}
use kernel_su_tun2proxy.Prelude.Exec.{
  Result, ok, err, Exec, ◌>>=◌, ◌>>◌, pure, raise, get, modify, fail_if, continue,
}
use kernel_su_tun2proxy.Web.Config.{Config, Url, is_socks5, validate_backend, backend_name}
use kernel_su_tun2proxy.Engine.Config.{EngineConfig}

pub record AppEntry : Type 0 where
  pub package_name : String
  pub uid : ℤ

pub data BackendError : Type 0 where
  bad_backend bad_upstream not_socks5 bad_port no_app bad_mode bad_bypass : BackendError
  app_unavailable : String → BackendError

-- What net/url, strconv and net make of a text.
pub record Net : Type 0 where
  pub parse_url : String → Option Url
  pub atoi : String → Option ℤ
  pub is_ipv4 : String → Bool
  pub is_ipv6 : String → Bool
  pub is_cidr : String → Bool

-- `ebpfConfig` changes nothing.
abbrev pub M : Type 0 → Type 0
M A = Exec (Unit {0}) BackendError A

-- `known`: the last entry of a package counts.
abbrev pub known_uid : String → List AppEntry → Option ℤ
known_uid pkg [] = none
known_uid pkg (a ∷ apps) = elim (known_uid pkg apps) [
  | some uid ↦ some uid
  | none ↦ if str_eq a.package_name pkg then some a.uid else none
]

abbrev pub elem_uid : ℕ → List ℕ → Bool
elem_uid n [] = false
elem_uid n (m ∷ ms) = (n == m) || elem_uid n ms

-- The UID of a package, if it is that of an application.
abbrev pub checked_uid : String → Option ℤ → M ℕ
checked_uid pkg none = raise (app_unavailable pkg)
checked_uid pkg (some (negsuc n)) = raise (app_unavailable pkg)
checked_uid pkg (some (pos n)) = if ltb n 10000 then raise (app_unavailable pkg) else pure n

abbrev pub app_uid : List AppEntry → String → M ℕ
app_uid apps pkg = checked_uid pkg (known_uid pkg apps)

-- The loop over the selected packages, with the UIDs seen. What is appended is a uint32.
unfoldable pub selected_uids : List AppEntry → List ℕ → List String → M (List ℕ)
selected_uids apps seen [] = pure []
selected_uids apps seen (pkg ∷ pkgs) = do
  uid ← app_uid apps pkg
  rest ← selected_uids apps (if elem_uid uid seen then seen else uid ∷ seen) pkgs
  pure (if elem_uid uid seen then rest else (uid % 2 ^ 32) ∷ rest)

-- The policy of a route mode, and its UIDs.
unfoldable pub policy : Config → List AppEntry → M (String × List ℕ)
policy c apps =
    if str_eq c.route_mode "" || str_eq c.route_mode "off"
    then pure ("uid_allowlist", [])
    else if str_eq c.route_mode "all"
    then pure ("all_non_bypass", [])
    else if str_eq c.route_mode "selected"
    then (do
      uids ← selected_uids apps [] c.app_packages
      fail_if (length uids == 0) no_app
      pure ("uid_allowlist", uids))
    else raise bad_mode

abbrev pub username_of : Option (String × String) → String
username_of none = ""
username_of (some user) = user.0

abbrev pub password_of : Option (String × String) → String
password_of none = ""
password_of (some user) = user.1

abbrev pub listener_port_of : ℤ → ℤ
listener_port_of (pos n) = if n == 0 then pos 18080 else pos n
listener_port_of (negsuc n) = negsuc n

-- The map that `ebpfConfig` returns, read as the engine reads it. `dir` holds the paths.
abbrev pub engine_config :
    String × String → Config → Url → ℤ → String × List ℕ → List String → EngineConfig
engine_config dir c url port mode bypass = record {
  version = pos 1;
  listener_address = "127.0.0.1";
  listener_port = listener_port_of c.ebpf_port;
  ipv6 = true;
  upstream_type = "socks5";
  upstream_host = url.hostname;
  upstream_port = port;
  upstream_username = username_of url.user;
  upstream_password = password_of url.user;
  policy_mode = mode.0;
  uids = mode.1;
  bypass_uids = 0 ∷ [];
  bypass_cidrs = bypass;
  udp_mode = "pass";
  bpf_object = dir.0;
  bpf_cgroup = "/sys/fs/cgroup";
  runtime_dir = dir.1;
  logging_level = "info";
  connect_timeout_seconds = pos 5;
  idle_timeout_seconds = pos 300;
  max_connections = pos 4096;
}

abbrev pub checked_url : Option Url → M Url
checked_url none = raise bad_upstream
checked_url (some url) = if str_eq url.hostname "" then raise bad_upstream else pure url

abbrev pub checked_port : Option ℤ → M ℤ
checked_port none = raise bad_port
checked_port (some port) = if between 1 65535 port then pure port else raise bad_port

module _ (net : Net) where
  abbrev pub with_prefix : String → String
  with_prefix v = if net.is_ipv4 v then join v "/32" else if net.is_ipv6 v then join v "/128" else v

  -- The loop over the addresses to bypass.
  unfoldable pub bypass_cidrs : List String → M (List String)
  bypass_cidrs [] = pure []
  bypass_cidrs (v ∷ vs) = do
    fail_if (not (net.is_cidr (with_prefix v))) bad_bypass
    rest ← bypass_cidrs vs
    pure (with_prefix v ∷ rest)

  -- `ebpfConfig`
  unfoldable pub ebpf_config : String × String → Config → List AppEntry → M EngineConfig
  ebpf_config dir c apps = do
    fail_if (not (validate_backend net.parse_url c)) bad_backend
    url ← checked_url (net.parse_url c.proxy_url)
    fail_if (not (is_socks5 url)) not_socks5
    port ← checked_port (net.atoi url.port)
    mode ← policy c apps
    bypass ← bypass_cidrs c.bypass_ips
    pure (engine_config dir c url port mode bypass)
