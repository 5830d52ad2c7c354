-- ===== src/Web/Backend/Contract.antt =====
-- `ebpfConfig` of cmd/tun2proxy-web/backend.go against `Validate` of ebpf-proxy/internal/config/config.go.
use kernel_su_tun2proxy.Prelude.{
  ℕ, ℤ, pos, negsuc, between, String, str_eq, Bool, true, false, not, ◌&&◌, ◌||◌, List, [], ◌∷◌,
  Option, none, some, length, ◌==◌, ◌≡◌, ◌⊎◌, inl, inr, refl, arith, and_true, not-false,
}
use kernel_su_tun2proxy.Prelude.Exec.{
  Result, ok, err, After, returned, failed, Ensures, sequence, guard_rule, if_exec_rule, Ensures-ok,
}
use kernel_su_tun2proxy.Engine.Config.{
  EngineConfig, has_bad_char, all_cidrs, bad_authentication_of, validate,
}
use kernel_su_tun2proxy.Engine.Validation.{validate_ok}
use kernel_su_tun2proxy.Web.Config.{Config, Url, is_socks5, validate_backend}
use kernel_su_tun2proxy.Web.Backend.{
  AppEntry, BackendError, Net, selected_uids, policy, with_prefix, bypass_cidrs, checked_url,
  checked_port, listener_port_of, engine_config, ebpf_config, bad_bypass, bad_backend, not_socks5,
  no_app,
}

-- The policies that the engine knows.
abbrev KnownMode : String → Type 0
KnownMode s = (s ≡ "uid_allowlist") ⊎ (s ≡ "all_non_bypass")

-- No claim about errors.
abbrev Unknown : BackendError → Unit {0} → Type 0
Unknown e u = Unit

selected_uids_any :
    (apps : List AppEntry) (seen : List ℕ) (pkgs : List String) (u : Unit {0})
    → Ensures (λ _ _. Unit) Unknown (selected_uids apps seen pkgs u)
selected_uids_any apps seen pkgs u = any _
  where
    any : (p : Unit {0} × Result BackendError (List ℕ)) → Ensures (λ _ _. Unit) Unknown p
    any p = by_result p.1
      where
        by_result : (r : Result BackendError (List ℕ)) → After (λ _ _. Unit) Unknown p.0 r
        by_result (ok a) = returned tt
        by_result (err e) = failed tt

policy_lem :
    (c : Config) (apps : List AppEntry) (u : Unit {0})
    → Ensures (λ m _. KnownMode m.0) Unknown (policy c apps u)
unfolding policy
policy_lem c apps u =
    if_exec_rule (str_eq c.route_mode "" || str_eq c.route_mode "off") _ _ u
      (λ e. returned (inl refl))
      λ e.
        if_exec_rule (str_eq c.route_mode "all") _ _ u (λ e. returned (inr refl))
          λ e.
            if_exec_rule (str_eq c.route_mode "selected") _ _ u
              (λ e.
                sequence (selected_uids apps [] c.app_packages u) _
                  (selected_uids_any apps [] c.app_packages u)
                  λ uids v x.
                    guard_rule (length uids == 0) no_app _ v (λ b. tt) λ b. returned (inl refl))
              λ e. failed tt

mode_accepted :
    (s : String)
    → KnownMode s
    → (not (str_eq s "uid_allowlist") && not (str_eq s "all_non_bypass")) ≡ false
mode_accepted s (inl e) = rw e refl
mode_accepted s (inr e) = rw e refl

port_accepted :
    (i : ℤ) → between 0 65535 i ≡ true → not (between 1 65535 (listener_port_of i)) ≡ false
port_accepted (pos n) h = ground (arith)
port_accepted (negsuc n) h = absurd (cc)

checked_url_lem :
    (o : Option Url) (u : Unit {0})
    → Ensures (λ url _. str_eq url.hostname "" ≡ false) Unknown (checked_url o u)
checked_url_lem none u = failed tt
checked_url_lem (some url) u =
    if_exec_rule (str_eq url.hostname "") _ _ u (λ e. failed tt) (λ e. returned e)

checked_port_lem :
    (o : Option ℤ) (u : Unit {0})
    → Ensures (λ port _. between 1 65535 port ≡ true) Unknown (checked_port o u)
checked_port_lem none u = failed tt
checked_port_lem (some port) u =
    if_exec_rule (between 1 65535 port) _ _ u (λ e. returned e) (λ e. failed tt)

backend_port :
    (parse : String → Option Url) (c : Config)
    → validate_backend parse c ≡ true
    → between 0 65535 c.ebpf_port ≡ true
unfolding validate_backend
backend_port parse c h =
    (and_true (str_eq c.backend "" || str_eq c.backend "tun" || str_eq c.backend "ebpf") _
      (and_true (_ && between 0 65535 c.ebpf_port) _ h).0).1

module _ (net : Net) where
  bypass_cidrs_lem :
      (vs : List String) (u : Unit {0})
      → Ensures (λ out _. all_cidrs net.is_cidr out ≡ true) Unknown (bypass_cidrs net vs u)
  unfolding bypass_cidrs
  bypass_cidrs_lem [] u = returned refl
  bypass_cidrs_lem (v ∷ vs) u =
      guard_rule (not (net.is_cidr (with_prefix net v))) bad_bypass _ u (λ b. tt)
        λ good.
          sequence (bypass_cidrs net vs u) _ (bypass_cidrs_lem vs u)
            λ rest w h. returned (rw (not-false _ good, h) refl)

  -- A configuration made by `ebpfConfig` is accepted by `Validate` as it is, where 127.0.0.1 counts
  -- as a loopback address, the user name and password fit SOCKS5 and no character that the engine
  -- refuses is in the host.
  pub ebpf_config-validate :
      (is_loopback4 : String → Bool) (dir : String × String) (c : Config) (apps : List AppEntry)
      {core : EngineConfig}
      → is_loopback4 "127.0.0.1" ≡ true
      → (ebpf_config net dir c apps tt).1 ≡ ok core
      → has_bad_char core.upstream_host ≡ false
      → bad_authentication_of core ≡ false
      → validate is_loopback4 net.is_cidr core ≡ (core, ok tt)
  unfolding ebpf_config
  ebpf_config-validate is_loopback4 dir c apps local h =
      Ensures-ok {Q = λ core _. Accepted core} {R = Unknown} (ebpf_config net dir c apps tt)
        (guard_rule (not (validate_backend net.parse_url c)) bad_backend _ tt (λ b. tt)
          λ backend.
            sequence (checked_url (net.parse_url c.proxy_url) tt) _
              (checked_url_lem (net.parse_url c.proxy_url) tt)
              λ url u host.
                guard_rule (not (is_socks5 url)) not_socks5 _ u (λ b. tt)
                  λ socks.
                    sequence (checked_port (net.atoi url.port) u) _
                      (checked_port_lem (net.atoi url.port) u)
                      λ port u in_range.
                        sequence (policy c apps u) _ (policy_lem c apps u) λ mode u known.
                          sequence (bypass_cidrs net c.bypass_ips u) _
                            (bypass_cidrs_lem c.bypass_ips u)
                            λ bypass u cidrs. returned λ chars authentication.
                              validate_ok is_loopback4 net.is_cidr
                                (engine_config dir c url port mode bypass)
                                (
                                  refl,
                                  rw local refl,
                                  port_accepted c.ebpf_port
                                      (backend_port net.parse_url c (not-false _ backend)),
                                  refl,
                                  rw (host, in_range) refl,
                                  chars,
                                  authentication,
                                  mode_accepted mode.0 known,
                                  refl,
                                  rw cidrs refl,
                                )
                                refl refl)
        h
    where
      Accepted : EngineConfig → Type 0
      Accepted core =
          has_bad_char core.upstream_host ≡ false
          → bad_authentication_of core ≡ false
          → validate is_loopback4 net.is_cidr core ≡ (core, ok tt)
