-- ===== src/Engine/Validation.antt =====
-- What `Validate` of config.go accepts, and what it leaves.
use kernel_su_tun2proxy.Prelude.{
  ℕ, ℤ, pos, negsuc, between, String, str_eq, Bool, true, false, not, ◌&&◌, ◌||◌, ◌≤◌, ◌≡◌, refl,
  sym, subst, arith, ◌∙◌, not-false, if◌then◌else◌, Bool-cases, inl, inr, or_false, ap,
}
use kernel_su_tun2proxy.Prelude.Exec.{
  Result, ok, err, returned, failed, Ensures, sequence, guard_rule, last_guard, then_rule, if_rule,
  weaken, continue, Ensures-ok,
}
use kernel_su_tun2proxy.Engine.Config.{
  EngineConfig, ConfigError, has_bad_char, bad_level, bad_limits, is_one, is_zero, below_one,
  or_default, all_cidrs, set_defaults, bad_authentication_of, bad_limits_of, known_level, set_level,
  check_fields, validate, fill_in,
}

-- `i` is a number from `low` to `high`.
abbrev pub InRange : ℕ → ℕ → ℤ → Type 0
InRange low high i = (n : ℕ) × (i ≡ pos n) × (low ≤ n) × (n ≤ high)

between-InRange : (low high : ℕ) (i : ℤ) → between low high i ≡ true → InRange low high i
between-InRange low high (pos n) h = (n, refl, ground arith, ground arith)
between-InRange low high (negsuc n) h = absurd (cc)

-- A level that `Validate` leaves: one of the five.
abbrev pub LevelOk : String → Type 0
LevelOk s = (str_eq s "" || str_eq s "info" || known_level s) ≡ true

-- What `validate` leaves.
abbrev pub completed : EngineConfig → EngineConfig
completed c = record (set_defaults c) {
  logging_level =
      if str_eq c.logging_level "" || str_eq c.logging_level "info"
      then "info"
      else c.logging_level;
}

module _ (is_loopback4 parse_cidr : String → Bool) where
  -- The tests of `check_fields`, all passed.
  abbrev pub FieldsOk : EngineConfig → Type 0
  FieldsOk c =
      (not (is_one c.version) ≡ false)
      × (not (is_loopback4 c.listener_address) ≡ false)
      × (not (between 1 65535 c.listener_port) ≡ false)
      × (not (str_eq c.upstream_type "socks5") ≡ false)
      × ((str_eq c.upstream_host "" || not (between 1 65535 c.upstream_port)) ≡ false)
      × (has_bad_char c.upstream_host ≡ false)
      × (bad_authentication_of c ≡ false)
      × ((not (str_eq c.policy_mode "uid_allowlist") && not (str_eq c.policy_mode "all_non_bypass"))
          ≡ false)
      × (not (str_eq c.udp_mode "pass") ≡ false)
      × (not (all_cidrs parse_cidr c.bypass_cidrs) ≡ false)

  check_fields_lem :
      (c s : EngineConfig)
      → Ensures
          (λ _ t. (t ≡ s) × FieldsOk c)
          (λ _ t. Unit)
          (check_fields is_loopback4 parse_cidr c s)
  unfolding check_fields
  check_fields_lem c s =
      guard_rule _ _ _ s (λ b. tt)
        λ a.
          guard_rule _ _ _ s (λ b. tt)
            λ b.
              guard_rule _ _ _ s (λ b. tt)
                λ d.
                  guard_rule _ _ _ s (λ b. tt)
                    λ e.
                      guard_rule _ _ _ s (λ b. tt)
                        λ f.
                          guard_rule _ _ _ s (λ b. tt)
                            λ g.
                              guard_rule _ _ _ s (λ b. tt)
                                λ h.
                                  guard_rule _ _ _ s (λ b. tt)
                                    λ i.
                                      guard_rule _ _ _ s (λ b. tt)
                                        λ j.
                                          last_guard _ _ s (λ b. tt)
                                            λ k. (refl, (a, b, d, e, f, g, h, i, j, k))

  check_fields_ok :
      (c s : EngineConfig) → FieldsOk c → check_fields is_loopback4 parse_cidr c s ≡ (s, ok tt)
  unfolding check_fields continue
  check_fields_ok c s (a, b, d, e, f, g, h, i, j, k) = rw (a, b, d, e, f, g, h, i, j, k) refl

  set_level_lem :
      (c : EngineConfig)
      → Ensures
          (λ _ t.
            LevelOk c.logging_level
            × (t ≡ record c {
              logging_level =
                  if str_eq c.logging_level "" || str_eq c.logging_level "info"
                  then "info"
                  else c.logging_level;
            }))
          (λ _ t. Unit)
          (set_level c)
  unfolding set_level
  set_level_lem c =
      if_rule (str_eq c.logging_level "" || str_eq c.logging_level "info") _ _
        (λ e. returned (rw e refl, rw e refl))
        (λ e.
          if_rule (known_level c.logging_level) _ _ (λ k. returned (rw (e, k) refl, rw e refl))
            (λ k. failed tt))

  Valid : EngineConfig → EngineConfig → Type 0
  Valid c t =
      FieldsOk c
      × (bad_limits_of (set_defaults c) ≡ false)
      × LevelOk c.logging_level
      × (t ≡ completed c)

  fill_in_lem :
      (c : EngineConfig) → FieldsOk c → Ensures (λ _ t. Valid c t) (λ _ t. Unit) (fill_in c)
  unfolding fill_in Valid
  fill_in_lem c f = then_rule tt (set_defaults c) _ (
      then_rule (set_defaults c) (set_defaults c) _ (
        guard_rule (bad_limits_of (set_defaults c)) bad_limits _ (set_defaults c) (λ b. tt)
          λ l. weaken (set_level_lem (set_defaults c)) (λ u x h. (f, l, h.0, h.1)) (λ e x h. tt)))

  validate_lem :
      (c : EngineConfig)
      → Ensures (λ _ t. Valid c t) (λ _ t. Unit) (validate is_loopback4 parse_cidr c)
  unfolding validate
  validate_lem c = then_rule c c _ (
      sequence (check_fields is_loopback4 parse_cidr c c) _ (check_fields_lem c c) λ u t f.
        subst (λ x. Ensures (λ _ t. Valid c t) (λ _ t. Unit) (fill_in x)) (sym f.0)
          (fill_in_lem c f.1))

  -- The converse: a configuration that passes every test is completed.
  pub validate_ok :
      (c : EngineConfig)
      → FieldsOk c
      → bad_limits_of (set_defaults c) ≡ false
      → LevelOk c.logging_level
      → validate is_loopback4 parse_cidr c ≡ (completed c, ok tt)
  unfolding validate fill_in set_level continue
  validate_ok c f l v = rw (check_fields_ok c c f) (
      rw l (
        level (str_eq c.logging_level "" || str_eq c.logging_level "info")
          (known_level c.logging_level) v))
    where
      level :
          (a b : Bool)
          → (a || b) ≡ true
          → ◌≡◌ {A = EngineConfig × Result ConfigError (Unit {0})}
              (if a
                then (record (set_defaults c) { logging_level = "info" }, ok tt)
                else if b
                then (set_defaults c, ok tt)
                else (set_defaults c, err bad_level))
              (
                record (set_defaults c) { logging_level = if a then "info" else c.logging_level },
                ok tt,
              )
      level true b h = refl
      level false true h = refl
      level false false h = absurd (cc)

same_branches : {A : Type 0} (b : Bool) (a : A) → (if b then a else a) ≡ a
same_branches true a = refl
same_branches false a = refl

or_default-idempotent : (n : ℕ) (i : ℤ) → or_default n (or_default n i) ≡ or_default n i
or_default-idempotent n i = elim (Bool-cases (is_zero i)) [
  | inl e ↦ rw e (same_branches (is_zero (pos n)) (pos n))
  | inr e ↦ rw (e, e) refl
]

level_idempotent :
    (s : String)
    → LevelOk s
    → (t : String) → t ≡ (if str_eq s "" || str_eq s "info" then "info" else s)
    → LevelOk t × ((if str_eq t "" || str_eq t "info" then "info" else t) ≡ t)
level_idempotent s v t e = elim (Bool-cases (str_eq s "" || str_eq s "info")) [
  | inl y ↦
      let k : t ≡ "info" = rw y at e in
      subst (λ x. LevelOk x × ((if str_eq x "" || str_eq x "info" then "info" else x) ≡ x)) (sym k)
        (refl, refl)
  | inr n ↦
      let k : t ≡ s = rw n at e in
      subst (λ x. LevelOk x × ((if str_eq x "" || str_eq x "info" then "info" else x) ≡ x)) (sym k)
        (v, rw n refl)
]

module _ (is_loopback4 parse_cidr : String → Bool) where
  -- Where `Validate` returns no error, the ports are TCP ports, the timeouts are positive and the
  -- limit on connections is within bounds in the configuration it leaves.
  pub validate-InRange :
      (c : EngineConfig)
      → (validate is_loopback4 parse_cidr c).1 ≡ ok tt
      → let t = (validate is_loopback4 parse_cidr c).0 in
        InRange 1 65535 t.listener_port
        × InRange 1 65535 t.upstream_port
        × InRange 1 16384 t.max_connections
        × (below_one t.connect_timeout_seconds ≡ false)
        × (below_one t.idle_timeout_seconds ≡ false)
  unfolding Valid
  validate-InRange c h =
      let (f, l, v, e) =
        Ensures-ok (validate is_loopback4 parse_cidr c) (validate_lem is_loopback4 parse_cidr c)
          h in
      let (a, b, d, g, k, m, n, o, p, q) = f in
      let (low, high) =
        or_false
          (below_one (or_default 10 c.connect_timeout_seconds)
            || below_one (or_default 300 c.idle_timeout_seconds))
          (not (between 1 16384 (or_default 4096 c.max_connections))) l in
      let (connect, idle) = or_false (below_one (or_default 10 c.connect_timeout_seconds)) _ low in
      rw e (
        between-InRange 1 65535 c.listener_port (not-false _ d),
        between-InRange 1 65535 c.upstream_port
            (not-false _ (or_false (str_eq c.upstream_host "") _ k).1),
        between-InRange 1 16384 (or_default 4096 c.max_connections) (not-false _ high),
        connect,
        idle,
      )

  -- Validating what `Validate` accepted accepts it again and changes nothing.
  pub validate-idempotent :
      (c : EngineConfig)
      → (validate is_loopback4 parse_cidr c).1 ≡ ok tt
      → validate is_loopback4 parse_cidr (validate is_loopback4 parse_cidr c).0
        ≡ ((validate is_loopback4 parse_cidr c).0, ok tt)
  unfolding Valid
  validate-idempotent c h =
      let (f, l, v, e) =
        Ensures-ok (validate is_loopback4 parse_cidr c) (validate_lem is_loopback4 parse_cidr c)
          h in
      let (v', w) = level_idempotent c.logging_level v _ refl in
      rw e (
        validate_ok is_loopback4 parse_cidr (completed c) f
          (rw
            (
              or_default-idempotent 10 c.connect_timeout_seconds,
              or_default-idempotent 300 c.idle_timeout_seconds,
              or_default-idempotent 4096 c.max_connections,
            )
            l)
          v'
        ∙ ap (λ x. (x, ok tt))
            (rw
              (
                or_default-idempotent 10 c.connect_timeout_seconds,
                or_default-idempotent 300 c.idle_timeout_seconds,
                or_default-idempotent 4096 c.max_connections,
                w,
              )
              refl))
