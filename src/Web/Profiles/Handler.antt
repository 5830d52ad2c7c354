-- ===== src/Web/Profiles/Handler.antt =====
-- The handlers of profiles.go and main.go, over every request and every failure to write.
use kernel_su_tun2proxy.Prelude.{
  ℕ, String, str_eq, Bool, true, false, not, Option, none, some, length, ◌==◌, ◌≡◌, ◌≢◌, ◌⊎◌, inl,
  inr, refl, sym, ap, subst, or_false, str_ne, if◌then◌else◌, ◌∙◌,
}
use kernel_su_tun2proxy.Prelude.Exec.{
  Result, ok, err, After, returned, failed, Ensures, sequence, weaken, on_every_path, guard_rule,
  attempt_rule, if_exec_rule, if_rule, remember, continue, raise,
}
use kernel_su_tun2proxy.Web.Config.{Config, default_config, validate_backend, validate_profile}
use kernel_su_tun2proxy.Web.Profiles.{
  ConnectionProfile, ProfileSet, File, missing, unreadable, holding, Disk, Request, get_request,
  other_method, malformed, post, Env, profile_set_ok, found, load_config, only_profile,
  read_profiles, profile_by_id, without, with_config, write_profiles, save_runtime_config,
  switch_config, save_config, restore_on_error, select_target, dispatch, decoded_config, bad_name,
  add_profile, select, edit, post_action, api_profiles,
}
use kernel_su_tun2proxy.Web.Profiles.Valid.{IsUnused, IsValid, profile_set_ok_iff}
use kernel_su_tun2proxy.Web.Profiles.Edits.{
  rename-IsValid, with_config-IsValid, append-IsValid, without-IsValid, active-IsValid,
}

-- Nothing was written, or a valid index.
abbrev pub Kept : Disk → Disk → Type 0
Kept d t = t.profiles ≡ d.profiles

abbrev pub Written : Disk → Disk → Type 0
Written d t = Kept d t ⊎ ((p : ProfileSet) × (t.profiles ≡ holding p) × IsValid p)

only_profile-IsValid : (c : Config) → IsValid (only_profile c)
only_profile-IsValid c = (refl, (str_ne "default" "" refl, str_ne "默认电脑" "" refl, tt, tt), refl)

read_by_file :
    (f : File ProfileSet) (g : File Config) (n k : ℕ)
    → Ensures
        (λ p t. (t ≡ record { profiles = f; config = g; writes = n; drawn = k }) × IsValid p)
        (λ _ t. t ≡ record { profiles = f; config = g; writes = n; drawn = k })
        (read_profiles (record { profiles = f; config = g; writes = n; drawn = k }))
unfolding read_profiles continue
read_by_file missing missing n k = returned (refl, only_profile-IsValid default_config)
read_by_file missing unreadable n k = failed refl
read_by_file missing (holding c) n k = returned (refl, only_profile-IsValid c)
read_by_file unreadable g n k = failed refl
read_by_file (holding p) g n k = by_test (profile_set_ok p) (λ e. (profile_set_ok_iff p).0 e)
  where
    by_test :
        (b : Bool)
        → (b ≡ true → IsValid p)
        → Ensures {S = Disk}
            (λ q t.
              (t ≡ record { profiles = holding p; config = g; writes = n; drawn = k }) × IsValid q)
            (λ (_ : ℕ) t. t ≡ record { profiles = holding p; config = g; writes = n; drawn = k })
            (
              record { profiles = holding p; config = g; writes = n; drawn = k },
              if b then ok p else err 500,
            )
    by_test true v = returned (refl, v refl)
    by_test false v = failed refl

read_profiles_lem :
    (d : Disk) → Ensures (λ p t. (t ≡ d) × IsValid p) (λ _ t. t ≡ d) (read_profiles d)
read_profiles_lem d = read_by_file d.profiles d.config d.writes d.drawn

load_config_lem : (d : Disk) → Ensures (λ c t. t ≡ d) (λ _ t. t ≡ d) (load_config d)
load_config_lem d = by_file d.config
  where
    by_file : (f : File Config) → Ensures (λ c t. t ≡ d) (λ _ t. t ≡ d) (decoded_config f d)
    by_file missing = returned refl
    by_file unreadable = failed refl
    by_file (holding c) = returned refl

module _ (env : Env) where
  write_profiles_lem :
      (p : ProfileSet) (d : Disk)
      → Ensures (λ _ t. t.profiles ≡ holding p) (λ _ t. Kept d t) (write_profiles env p d)
  unfolding write_profiles
  write_profiles_lem p d = if_rule (env.fails d.writes) _ _ (λ e. failed refl) (λ e. returned refl)

  save_runtime_config_lem :
      (c : Config) (d : Disk)
      → Ensures (λ _ t. Kept d t) (λ _ t. Kept d t) (save_runtime_config env c d)
  unfolding save_runtime_config
  save_runtime_config_lem c d =
      if_rule (not (validate_backend env.parse_url c)) _ _ (λ e. failed refl)
        (λ e. if_rule (env.fails d.writes) _ _ (λ e. failed refl) (λ e. returned refl))

  -- Where the state is still `d`.
  at_start :
      {A : Type 0} {Q : A → Disk → Type 0} {R : ℕ → Disk → Type 0} {d t : Disk}
      (m : Disk → Disk × Result ℕ A)
      → t ≡ d
      → Ensures Q R (m d)
      → Ensures Q R (m t)
  at_start {Q = Q} {R = R} m e h = subst (λ x. Ensures Q R (m x)) (sym e) h

  switch_config_lem :
      (c : Config) (p : ProfileSet) (d : Disk)
      → IsValid p
      → Ensures (λ _ t. Written d t) (λ _ t. Written d t) (switch_config env c p d)
  unfolding switch_config restore_on_error
  switch_config_lem c p d v =
      sequence (load_config d) _
        (weaken (load_config_lem d) (λ a t e. e) (λ a t e. inl (ap (λ x. x.profiles) e)))
        λ old t e.
          sequence (save_runtime_config env c t) _
            (weaken (save_runtime_config_lem c t) (λ a x k. k ∙ ap (λ x. x.profiles) e)
              (λ a x k. inl (k ∙ ap (λ x. x.profiles) e)))
            λ u x k. attempt_rule (write_profiles env p) x _ (
              after old x k (write_profiles env p x).0 (write_profiles env p x).1
                (write_profiles_lem p x))
    where
      after :
          (old : Config) (x : Disk)
          → Kept d x
          → (y : Disk) (r : Result ℕ (Unit {0}))
          → After (λ _ t. t.profiles ≡ holding p) (λ _ t. Kept x t) y r
          → Ensures (λ _ t. Written d t) (λ _ t. Written d t) (restore_on_error env old r y)
      after old x k y _ (returned q) = returned (inr (p, q, v))
      after old x k y (err e) (failed q) =
          attempt_rule (save_runtime_config env old) y (λ r. raise e)
            (failed (inl (on_every_path (save_runtime_config_lem old y) ∙ (q ∙ k))))

  module _ (p : ProfileSet) (d : Disk) (v : IsValid p)
      (unused : IsUnused (env.new_id d.drawn) p.profiles) (drawn : env.new_id d.drawn ≢ "") where
    abbrev Edited : Disk × Result ℕ ProfileSet → Type 0
    Edited = Ensures (λ q t. Kept d t × IsValid q) (λ _ t. Kept d t)

    add_profile_lem :
        (name : String) (c : Config)
        → bad_name env name ≡ false
        → Edited (add_profile env name c p d)
    unfolding add_profile
    add_profile_lem name c b =
        returned (
          refl,
          append-IsValid p _ v unused drawn (str_ne name "" (or_false (str_eq name "") _ b).0),
        )

    edit_lem : (action i name : String) → Edited (edit env action i name p d)
    unfolding edit
    edit_lem action i name =
        if_exec_rule (str_eq action "create") _ _ d
          (λ e. guard_rule (bad_name env name) 400 _ d (λ bad. refl) (add_profile_lem name _))
          λ e.
            if_exec_rule (str_eq action "clone") _ _ d
              (λ e. guard_rule (bad_name env name) 400 _ d (λ bad. refl) (add_profile_lem name _))
              λ e.
                if_exec_rule (str_eq action "rename") _ _ d
                  (λ e.
                    guard_rule (bad_name env name) 400 _ d (λ bad. refl)
                      λ b.
                        guard_rule (not (found i p.profiles)) 404 _ d (λ bad. refl)
                          λ b'. returned (
                            refl,
                            rename-IsValid p i name v
                                (str_ne name "" (or_false (str_eq name "") _ b).0),
                          ))
                  λ e.
                    if_exec_rule (str_eq action "delete") _ _ d
                      (λ e.
                        guard_rule (str_eq i p.active_id) 409 _ d (λ bad. refl)
                          λ b.
                            guard_rule (length p.profiles == 1) 409 _ d (λ bad. refl)
                              λ b'.
                                guard_rule (length (without i p.profiles) == length p.profiles) 404
                                  _ d (λ bad. refl)
                                  λ b''.
                                    returned (refl, without-IsValid p i v (str_ne i p.active_id b)))
                      λ e. failed refl

    select_lem : (i : String) → Ensures (λ _ t. Written d t) (λ _ t. Written d t) (select env i p d)
    unfolding select_target
    select_lem i = by_target (profile_by_id p.profiles i) refl
      where
        by_target :
            (o : Option ConnectionProfile)
            → profile_by_id p.profiles i ≡ o
            → Ensures (λ _ t. Written d t) (λ _ t. Written d t) (select_target env i p o d)
        by_target none h = failed (inl refl)
        by_target (some target) h =
            guard_rule (not (validate_profile env.parse_url target.config)) 400 _ d (λ b. inl refl)
              λ b.
                if_exec_rule (str_eq i p.active_id) _ _ d (λ e. returned (inl refl))
                  λ e.
                    guard_rule env.running 409 _ d (λ b. inl refl)
                      λ b.
                        sequence (switch_config env target.config (record p { active_id = i }) d) _
                          (switch_config_lem target.config (record p { active_id = i }) d
                            (active-IsValid p i v h))
                          λ u t w. returned w

    post_action_lem :
        (action i name : String)
        → Ensures (λ _ t. Written d t) (λ _ t. Written d t) (post_action env action i name p d)
    unfolding post_action
    post_action_lem action i name =
        if_exec_rule (str_eq action "select") _ _ d (λ e. select_lem i)
          λ e.
            sequence (edit env action i name p d) _
              (weaken (edit_lem action i name) (λ q t k. k) (λ q t k. inl k))
              λ q t k.
                sequence (write_profiles env q t) _
                  (weaken (write_profiles_lem q t) (λ u x w. inr (q, w, k.1))
                    (λ u x w. inl (w ∙ k.0)))
                  λ u x w. returned w

  -- Whatever the request is and whichever writes fail, the index on disk stays what it was or
  -- becomes one that `readProfiles` accepts, where the identifier drawn is new.
  pub api_profiles-IsValid :
      (r : Request) (d : Disk)
      → ((p : ProfileSet) → (read_profiles d).1 ≡ ok p → IsUnused (env.new_id d.drawn) p.profiles)
      → env.new_id d.drawn ≢ ""
      → Written d (api_profiles env r d).0
  unfolding api_profiles dispatch
  api_profiles-IsValid r d unused drawn = on_every_path (
      sequence (read_profiles d) _
        (weaken (remember (read_profiles_lem d)) (λ p t h. h)
          (λ e t h. inl (ap (λ x. x.profiles) h)))
        λ p t h. at_start (dispatch env r p) h.0.0 (by_request r p h.0.1 (unused p h.1)))
    where
      by_request :
          (r : Request) (p : ProfileSet)
          → IsValid p
          → IsUnused (env.new_id d.drawn) p.profiles
          → Ensures (λ _ t. Written d t) (λ _ t. Written d t) (dispatch env r p d)
      by_request get_request p v u = returned (inl refl)
      by_request other_method p v u = failed (inl refl)
      by_request malformed p v u = failed (inl refl)
      by_request (post action i name) p v u = post_action_lem p d v u drawn action i (env.trim name)

  -- Saving a configuration, too, leaves the index as it was or one that `readProfiles` accepts.
  pub save_config-IsValid : (c : Config) (d : Disk) → Written d (save_config env c d).0
  unfolding save_config
  save_config-IsValid c d = on_every_path (
      sequence (read_profiles d) _
        (weaken (read_profiles_lem d) (λ p t h. h) (λ e t h. inl (ap (λ x. x.profiles) h)))
        λ p t h.
          at_start
            (switch_config env c (record p { profiles = with_config p.active_id c p.profiles })) h.0
            (switch_config_lem c (record p { profiles = with_config p.active_id c p.profiles }) d
              (with_config-IsValid p p.active_id c h.1)))
