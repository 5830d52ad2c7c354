-- ===== src/Web/Tests.antt =====
-- Saved connections and the configuration of the engine at concrete values.
use kernel_su_tun2proxy.Prelude.{
  ℕ, ◌≤◌, pos, String, str_eq, true, false, arith, ◌↔◌, List, [], ◌∷◌, none, some, get_elem?, ◌≡◌,
  refl, str_ne, subst,
}
use kernel_su_tun2proxy.Prelude.Exec.{ok, continue}
use kernel_su_tun2proxy.Engine.Config.{EngineConfig, validate, has_bad_char}
use kernel_su_tun2proxy.Web.Config.{Config, Url, default_config, validate_backend}
use kernel_su_tun2proxy.Web.Backend.{
  AppEntry, Net, elem_uid, known_uid, selected_uids, policy, bypass_cidrs, engine_config,
  ebpf_config,
}
use kernel_su_tun2proxy.Web.Backend.Contract.{ebpf_config-validate}
use kernel_su_tun2proxy.Web.Backend.Uids.{Distinct, Fits, selected_uids_lem}
use kernel_su_tun2proxy.Web.Profiles.{
  ProfileSet, holding, missing, Disk, Env, post, profile_set_ok, read_profiles, save_config,
  api_profiles,
}
use kernel_su_tun2proxy.Web.Profiles.Valid.{IsValid, IsUnused, profile_set_ok_iff}
use kernel_su_tun2proxy.Web.Profiles.Handler.{Written, api_profiles-IsValid, save_config-IsValid}

abbrev socks_url : Url
socks_url = record { scheme = "socks5"; hostname = "192.0.2.1"; port = "1080"; user = none }

abbrev saved : Config
saved = record default_config {
  backend = "ebpf";
  route_mode = "selected";
  app_packages = "b" ∷ "a" ∷ "b" ∷ [];
  proxy_url = "socks5://192.0.2.1:1080";
}

abbrev network : Net
network = record {
  parse_url = λ s. some socks_url;
  atoi = λ s. some (pos 1080);
  is_ipv4 = λ s. false;
  is_ipv6 = λ s. false;
  is_cidr = λ s. true;
}

abbrev apps : List AppEntry
apps =
    record { package_name = "a"; uid = pos 10001 }
    ∷ record { package_name = "b"; uid = pos 10002 }
    ∷ []

selects : (selected_uids apps [] ("b" ∷ "a" ∷ "b" ∷ []) tt).1 ≡ ok (10002 ∷ 10001 ∷ [])
unfolding selected_uids continue
selects = refl

apps_fit : Fits apps
apps_fit pkg n h = ground arith

selected_uids_example :
    Distinct (10002 ∷ 10001 ∷ [])
    × ((n : ℕ) → elem_uid n (10002 ∷ 10001 ∷ []) ≡ true → 10000 ≤ n)
    × ((i : ℕ) (pkg : String)
        → get_elem? ("b" ∷ "a" ∷ "b" ∷ []) i ≡ some pkg
        → (n : ℕ) × (known_uid pkg apps ≡ some (pos n)) × (elem_uid n (10002 ∷ 10001 ∷ []) ≡ true))
selected_uids_example = selected_uids_lem apps ("b" ∷ "a" ∷ "b" ∷ []) apps_fit selects

abbrev core : EngineConfig
core = engine_config ("o", "r") saved socks_url (pos 1080) ("uid_allowlist", 10002 ∷ 10001 ∷ []) []

configures : (ebpf_config network ("o", "r") saved apps tt).1 ≡ ok core
unfolding ebpf_config validate_backend policy bypass_cidrs selected_uids continue
configures = refl

plain_host : has_bad_char core.upstream_host ≡ false
unfolding has_bad_char
plain_host = refl

ebpf_config-validate_example :
    validate (λ s. str_eq s "127.0.0.1") network.is_cidr core ≡ (core, ok tt)
ebpf_config-validate_example =
    ebpf_config-validate network (λ s. str_eq s "127.0.0.1") ("o", "r") saved apps refl configures
      plain_host refl

abbrev profile_set : ProfileSet
profile_set = record {
  version = 1;
  active_id = "p";
  profiles = record { id = "p"; name = "n"; config = default_config } ∷ [];
}

abbrev disk : Disk
disk = record { profiles = holding profile_set; config = missing; writes = 0; drawn = 0 }

abbrev env : Env
env = record {
  parse_url = λ s. some socks_url;
  trim = λ s. s;
  rune_count = λ s. 4;
  new_id = λ n. "q";
  fails = λ n. false;
  running = false;
}

profile_set_ok_example : (profile_set_ok profile_set ≡ true) ↔ IsValid profile_set
profile_set_ok_example = profile_set_ok_iff profile_set

unused : (p : ProfileSet) → (read_profiles disk).1 ≡ ok p → IsUnused "q" p.profiles
unfolding read_profiles profile_set_ok
unused p e =
    let same : profile_set ≡ p = cc in
    subst (λ (x : ProfileSet). IsUnused "q" x.profiles) same (str_ne "p" "q" refl, tt)

api_profiles-IsValid_example : Written disk (api_profiles env (post "create" "" "home") disk).0
api_profiles-IsValid_example =
    api_profiles-IsValid env (post "create" "" "home") disk unused (str_ne "q" "" refl)

save_config-IsValid_example : Written disk (save_config env saved disk).0
save_config-IsValid_example = save_config-IsValid env saved disk
