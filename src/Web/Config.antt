-- ===== src/Web/Config.antt =====
-- cmd/tun2proxy-web/main.go and backend.go: the configuration and its validation.
use kernel_su_tun2proxy.Prelude.{
  ℤ, pos, between, String, str_eq, Bool, true, false, not, ◌&&◌, ◌||◌, List, [], Option, none, some,
  if◌then◌else◌,
}

pub record Config : Type 0 where
  pub backend : String
  pub ebpf_port : ℤ
  pub route_mode : String
  pub app_packages : List String
  pub version : String
  pub enabled : Bool
  pub tun_name : String
  pub proxy_url : String
  pub dns_mode : String
  pub bypass_ips : List String
  pub tcp_timeout : ℤ
  pub udp_timeout : ℤ
  pub udpgw_server : String

-- What net/url makes of an address; `user` holds a name and a password.
pub record Url : Type 0 where
  pub scheme : String
  pub hostname : String
  pub port : String
  pub user : Option (String × String)

abbrev pub is_socks5 : Url → Bool
is_socks5 u = str_eq u.scheme "socks5" || str_eq u.scheme "socks5h"

abbrev pub backend_name : Config → String
backend_name c = if str_eq c.backend "ebpf" then "ebpf" else "tun"

module _ (parse_url : String → Option Url) where
  abbrev pub speaks_socks5 : String → Bool
  speaks_socks5 s = elim (parse_url s) [ none ↦ false | some u ↦ is_socks5 u ]

  -- `validateBackend`: whether it returns nil.
  unfoldable pub validate_backend : Config → Bool
  validate_backend c =
      (str_eq c.backend "" || str_eq c.backend "tun" || str_eq c.backend "ebpf")
      && between 0 65535 c.ebpf_port
      && (if str_eq (backend_name c) "ebpf" then speaks_socks5 c.proxy_url else true)

  -- `validateProfileConfig`
  unfoldable pub validate_profile : Config → Bool
  validate_profile c = validate_backend c && elim (parse_url c.proxy_url) [
    | none ↦ false
    | some u ↦
        not (str_eq u.hostname "")
        && not (str_eq u.port "")
        && (str_eq u.scheme "http" || is_socks5 u)
  ]

-- What `loadConfig` returns where there is no file.
abbrev pub default_config : Config
default_config = record {
  backend = "";
  ebpf_port = pos 0;
  route_mode = "";
  app_packages = [];
  version = "1.0";
  enabled = false;
  tun_name = "tun0";
  proxy_url = "";
  dns_mode = "virtual";
  bypass_ips = [];
  tcp_timeout = pos 30;
  udp_timeout = pos 30;
  udpgw_server = "";
}
