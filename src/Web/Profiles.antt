-- ===== src/Web/Profiles.antt =====
-- cmd/tun2proxy-web/profiles.go and main.go: the index of saved connections and the active one.
-- A write of a file that fails leaves it as it was (a new file is renamed over it). `fails` says
-- which write fails; `new_id` gives the n-th identifier drawn. An error is its HTTP status.
pub mod Valid
pub mod Edits
pub mod Handler
use kernel_su_tun2proxy.Prelude.{
  ℕ, zero, suc, pos, String, str_eq, Bool, true, false, not, ◌&&◌, ◌||◌, List, [], ◌∷◌, ◌++◌,
  Option, none, some, map, length, ltb, leb, ◌==◌, if◌then◌else◌,
}
use kernel_su_tun2proxy.Prelude.Exec.{
  Result, ok, err, Exec, ◌>>=◌, ◌>>◌, pure, raise, get, modify, fail_if, attempt, continue,
}
use kernel_su_tun2proxy.Web.Config.{Config, Url, validate_backend, validate_profile, default_config}

pub record ConnectionProfile : Type 0 where
  pub id : String
  pub name : String
  pub config : Config

pub record ProfileSet : Type 0 where
  pub version : ℕ
  pub active_id : String
  pub profiles : List ConnectionProfile

-- A file of JSON: absent, not to be read or not to be decoded, or holding a value.
pub data File (A : Type 0) : Type 0 where
  missing unreadable : File A
  holding : A → File A

pub record Disk : Type 0 where
  pub profiles : File ProfileSet
  pub config : File Config
  pub writes : ℕ
  pub drawn : ℕ

pub data Request : Type 0 where
  get_request other_method malformed : Request
  post : (action id name : String) → Request

-- What the handlers take from outside.
pub record Env : Type 0 where
  pub parse_url : String → Option Url
  pub trim : String → String
  pub rune_count : String → ℕ
  pub new_id : ℕ → String
  pub fails : ℕ → Bool
  pub running : Bool

abbrev pub M : Type 0 → Type 0
M A = Exec Disk ℕ A

abbrev pub elem : String → List String → Bool
elem s [] = false
elem s (t ∷ ts) = str_eq s t || elem s ts

-- The loop of `readProfiles`, with the identifiers met before.
abbrev pub profiles_ok : List String → List ConnectionProfile → Bool
profiles_ok ids [] = true
profiles_ok ids (v ∷ vs) =
    not (str_eq v.id "")
    && not (elem v.id ids)
    && not (str_eq v.name "")
    && profiles_ok (v.id ∷ ids) vs

abbrev pub found : String → List ConnectionProfile → Bool
found active [] = false
found active (v ∷ vs) = str_eq v.id active || found active vs

unfoldable pub profile_set_ok : ProfileSet → Bool
profile_set_ok p =
    p.version == 1
    && not (length p.profiles == 0)
    && profiles_ok [] p.profiles
    && found p.active_id p.profiles

abbrev pub decoded_config : File Config → M Config
decoded_config missing d = (d, ok default_config)
decoded_config unreadable d = (d, err 500)
decoded_config (holding c) d = (d, ok c)

abbrev pub load_config : M Config
load_config d = decoded_config d.config d

abbrev pub only_profile : Config → ProfileSet
only_profile c = record {
  version = 1;
  active_id = "default";
  profiles = record { id = "default"; name = "默认电脑"; config = c } ∷ [];
}

unfoldable pub read_profiles : M ProfileSet
read_profiles d = elim d.profiles [
  | missing ↦ continue (load_config d) (λ c. pure (only_profile c))
  | unreadable ↦ (d, err 500)
  | holding p ↦ (d, if profile_set_ok p then ok p else err 500)
]

-- `profileByID`
abbrev pub profile_by_id : List ConnectionProfile → String → Option ConnectionProfile
profile_by_id [] i = none
profile_by_id (v ∷ vs) i = if str_eq v.id i then some v else profile_by_id vs i

abbrev pub active_config : ProfileSet → Config
active_config p = elim (profile_by_id p.profiles p.active_id) [
  | some v ↦ v.config
  | none ↦ record {
    backend = "";
    ebpf_port = pos 0;
    route_mode = "";
    app_packages = [];
    version = "";
    enabled = false;
    tun_name = "";
    proxy_url = "";
    dns_mode = "";
    bypass_ips = [];
    tcp_timeout = pos 0;
    udp_timeout = pos 0;
    udpgw_server = "";
  }
]

abbrev pub rename : String → String → List ConnectionProfile → List ConnectionProfile
rename i name = map (λ v. if str_eq v.id i then record v { name = name } else v)

abbrev pub without : String → List ConnectionProfile → List ConnectionProfile
without i [] = []
without i (v ∷ vs) = if str_eq v.id i then without i vs else v ∷ without i vs

abbrev pub with_config : String → Config → List ConnectionProfile → List ConnectionProfile
with_config i c = map (λ v. if str_eq v.id i then record v { config = c } else v)

module _ (env : Env) where
  -- `writeProfiles`
  unfoldable pub write_profiles : ProfileSet → M (Unit {0})
  write_profiles p d =
      if env.fails d.writes
      then (record d { writes = suc d.writes }, err 500)
      else (record d { writes = suc d.writes; profiles = holding p }, ok tt)

  -- `saveRuntimeConfig`
  unfoldable pub save_runtime_config : Config → M (Unit {0})
  save_runtime_config c d =
      if not (validate_backend env.parse_url c)
      then (d, err 500)
      else if env.fails d.writes
      then (record d { writes = suc d.writes }, err 500)
      else (record d { writes = suc d.writes; config = holding c }, ok tt)

  unfoldable pub restore_on_error : Config → Result ℕ (Unit {0}) → M (Unit {0})
  restore_on_error old (ok u) = pure tt
  restore_on_error old (err e) = attempt (save_runtime_config old) >>= λ r. raise e

  -- Both files: `writeProfiles` after `saveRuntimeConfig`, which its failure takes back.
  unfoldable pub switch_config : Config → ProfileSet → M (Unit {0})
  switch_config c p = do
    old ← load_config
    save_runtime_config c
    r ← attempt (write_profiles p)
    restore_on_error old r

  -- `saveConfig`: the active profile keeps the configuration that runs.
  unfoldable pub save_config : Config → M (Unit {0})
  save_config c = do
    p ← read_profiles
    switch_config c (record p { profiles = with_config p.active_id c p.profiles })

  abbrev pub bad_name : String → Bool
  bad_name name = str_eq name "" || ltb 64 (env.rune_count name)

  -- A new profile at the end, its identifier drawn.
  unfoldable pub add_profile : String → Config → ProfileSet → M ProfileSet
  add_profile name c p d = (
    record d { drawn = suc d.drawn },
    ok (record p {
      profiles = p.profiles ++ record { id = env.new_id d.drawn; name = name; config = c } ∷ [];
    }),
  )

  -- The action "select".
  unfoldable pub select_target : String → ProfileSet → Option ConnectionProfile → M ProfileSet
  select_target i p none = raise 404
  select_target i p (some target) = do
    fail_if (not (validate_profile env.parse_url target.config)) 400
    if str_eq i p.active_id then pure p else (do
      fail_if env.running 409
      switch_config target.config (record p { active_id = i })
      pure (record p { active_id = i }))

  abbrev pub select : String → ProfileSet → M ProfileSet
  select i p = select_target i p (profile_by_id p.profiles i)

  -- The actions that only edit the index: the set that they write.
  unfoldable pub edit : (action id name : String) → ProfileSet → M ProfileSet
  edit action i name p =
      if str_eq action "create"
      then fail_if (bad_name name) 400
        >> add_profile name
            (record (active_config p) { proxy_url = "http://127.0.0.1:8083"; backend = "tun" }) p
      else if str_eq action "clone"
      then fail_if (bad_name name) 400 >> add_profile name (active_config p) p
      else if str_eq action "rename"
      then fail_if (bad_name name) 400
        >> (fail_if (not (found i p.profiles)) 404
            >> pure (record p { profiles = rename i name p.profiles }))
      else if str_eq action "delete"
      then fail_if (str_eq i p.active_id) 409
        >> (fail_if (length p.profiles == 1) 409
            >> (fail_if (length (without i p.profiles) == length p.profiles) 404
                >> pure (record p { profiles = without i p.profiles })))
      else raise 400

  unfoldable pub post_action : (action id name : String) → ProfileSet → M ProfileSet
  post_action action i name p =
      if str_eq action "select"
      then select i p
      else edit action i name p >>= λ q. write_profiles q >> pure q

  unfoldable pub dispatch : Request → ProfileSet → M ProfileSet
  dispatch get_request p = pure p
  dispatch other_method p = raise 405
  dispatch malformed p = raise 400
  dispatch (post action i name) p = post_action action i (env.trim name) p

  -- `apiProfiles`
  unfoldable pub api_profiles : Request → M ProfileSet
  api_profiles r = read_profiles >>= dispatch r
