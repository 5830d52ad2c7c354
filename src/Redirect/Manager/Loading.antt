-- ===== src/Redirect/Manager/Loading.antt =====
-- loader_linux.go: `Load` as a whole.
use kernel_su_tun2proxy.Prelude.{
  ℕ, ◌%◌, ◌^◌, String, Bool, true, false, [], ◌∷◌, ◌++◌, Option, none, some, reverse, ◌≡◌, refl,
  sym, ap, ◌∙◌,
}
use kernel_su_tun2proxy.Prelude.Exec.{
  Result, ok, err, continue, returned, failed, Ensures, sequence, weaken, guard_rule,
}
use kernel_su_tun2proxy.Engine.Config.{EngineConfig}
use kernel_su_tun2proxy.Redirect.Abi.{Policy}
use kernel_su_tun2proxy.Redirect.Cgroup.{check_cgroup, CgroupError}
use kernel_su_tun2proxy.Redirect.Manager.{
  Kernel, State, target_uid, bypass_uid, LoadError, checked, attach_all, open_cgroup,
  load_collection, closing_if_failed, cgroup_ok, load_spec, new_collection, load, load_created,
  load_specified, policy_of, map_write, program_names, required, abi_mismatch, bad_spec, verifier,
  cgroup, Spec, no_cgroup,
}
use kernel_su_tun2proxy.Redirect.Manager.Links.{
  Kept, Kept-trans, put_all_lem, put_cidrs_lem, set_enabled_lem, pushed, Attaching, attach_all_lem,
  IsClosed, close_lem,
}

module _ {W : Type 0} (k : Kernel W) where
  -- A manager that `Load` returns: its programs are attached and no other, under a policy that is
  -- disabled, which config_map holds.
  pub record IsLoaded (cfg : EngineConfig) (t : State W) : Type 0 where
    pub live : t.live ≡ reverse (program_names k cfg.ipv6)
    pub links : t.links ≡ t.live
    pub collection : t.collection ≡ true
    pub written : t.written ≡ some t.policy
    pub policy : (n : ℕ) × (t.policy ≡ record (policy_of k cfg) { heartbeat_ns = n })

  newest_first : (ipv6 : Bool) → pushed k (program_names k ipv6) [] ≡ reverse (program_names k ipv6)
  newest_first true = refl
  newest_first false = refl

  open_cgroup_lem :
      (path : String) (t : State W)
      → Ensures
          (λ _ u. Kept k t u × (u.policy ≡ t.policy) × (u.written ≡ t.written))
          (λ _ u. Kept k t u)
          (open_cgroup k path t)
  open_cgroup_lem path t = opened (k.open_dir path t.world).1 (k.open_dir path t.world).0
    where
      opened :
          (b : Bool) (v : W)
          → Ensures
              (λ _ u. Kept k t u × (u.policy ≡ t.policy) × (u.written ≡ t.written))
              (λ _ u. Kept k t u)
              (checked k b no_cgroup (record t { world = v }))
      opened true v = returned (record { links = refl; live = refl; collection = refl }, refl, refl)
      opened false v = failed (record { links = refl; live = refl; collection = refl })

  load_collection_lem :
      (cfg : EngineConfig) (programs : String → Bool) (s : State W)
      → s.live ≡ s.links
      → s.links ≡ []
      → s.collection ≡ true
      → Ensures (λ _ t. IsLoaded cfg t) (λ _ t. Attaching k s t) (load_collection k cfg programs s)
  unfolding load_collection continue
  load_collection_lem cfg programs s l e c =
      let before : State W → Type 0 = λ t. Kept k s t × (t.policy ≡ policy_of k cfg) in
      let enabled : State W → Type 0 = λ t.
        Kept k s t
        × (t.written ≡ some t.policy)
        × ((n : ℕ) × (t.policy ≡ record (policy_of k cfg) { heartbeat_ns = n })) in
      let moved : (t : State W) → Kept k (record s { policy = policy_of k cfg }) t → Kept k s t =
        λ t h. record { links = h.links; live = h.live; collection = h.collection } in
      let stays : (t : State W) → Kept k s t → Attaching k s t =
        λ t h. record { live = h.live ∙ l ∙ sym h.links; collection = h.collection } in
      sequence {Q = λ _ t. enabled t} _ _
        (sequence {Q = λ _ t. enabled t} _ _
          (sequence {Q = λ _ t. before t} _ _
            (sequence {Q = λ _ t. before t} _ _
              (sequence {Q = λ _ t. before t} _ _
                (weaken
                  (put_all_lem k (map_write k target_uid cfg.uids)
                    (record s { policy = policy_of k cfg }))
                  (λ _ t (h, p). (moved t h, p)) (λ _ t h. stays t (moved t h)))
                (λ _ t (h, p).
                  weaken
                    (put_all_lem k
                      (map_write k bypass_uid (cfg.bypass_uids ++ (k.euid % 2 ^ 32) ∷ [])) t)
                    (λ _ u (g, q). (Kept-trans k h g, q ∙ p))
                    (λ _ u g. stays u (Kept-trans k h g))))
              (λ _ t (h, p).
                weaken (put_cidrs_lem k cfg.bypass_cidrs t)
                  (λ _ u (g, q). (Kept-trans k h g, q ∙ p)) (λ _ u g. stays u (Kept-trans k h g))))
            (λ _ t (h, p).
              weaken (set_enabled_lem k false t)
                (λ _ u (g, w, (n, q)). (
                  Kept-trans k h g,
                  w,
                  (n, q ∙ ap (λ (x : Policy). record x { enabled = 0; heartbeat_ns = n }) p),
                ))
                (λ _ u g. stays u (Kept-trans k h g))))
          (λ _ t (h, w, (n, p)).
            weaken (open_cgroup_lem cfg.bpf_cgroup t)
              (λ _ u (g, q, r). (Kept-trans k h g, r ∙ w ∙ ap some (sym q), (n, q ∙ p)))
              (λ _ u g. stays u (Kept-trans k h g))))
        (λ _ t (h, w, (n, p)). attached t h w n p)
    where
      attached :
          (t : State W)
          → Kept k s t
          → t.written ≡ some t.policy
          → (n : ℕ) → t.policy ≡ record (policy_of k cfg) { heartbeat_ns = n }
          → Ensures
              (λ _ t. IsLoaded cfg t)
              (λ _ t. Attaching k s t)
              (attach_all k programs (program_names k cfg.ipv6) t)
      attached t h w n p =
          weaken (attach_all_lem k programs (program_names k cfg.ipv6) t (h.live ∙ l ∙ sym h.links))
            (λ _ u g. record {
              live =
                  g.live
                  ∙ g.links
                  ∙ ap (pushed k (program_names k cfg.ipv6)) (h.links ∙ e)
                  ∙ newest_first cfg.ipv6;
              links = sym g.live;
              collection = g.collection ∙ h.collection ∙ c;
              written = g.written ∙ w ∙ ap some (sym g.policy);
              policy = (n, g.policy ∙ p);
            })
            (λ _ u g. record { live = g.live; collection = g.collection ∙ h.collection })

  record IsFresh (t : State W) : Type 0 where
    pub live : t.live ≡ t.links
    pub links : t.links ≡ []
    pub collection : t.collection ≡ true

  cgroup_ok_lem :
      (cfg : EngineConfig) (s : State W)
      → IsClosed k s
      → Ensures (λ _ t. IsClosed k t) (λ _ t. IsClosed k t) (cgroup_ok k cfg s)
  cgroup_ok_lem cfg s h = answered (check_cgroup (k.cgroup_fs s.world) cfg.ipv6 cfg.bpf_cgroup)
    where
      answered :
          (o : Option CgroupError)
          → Ensures
              (λ _ t. IsClosed k t)
              (λ _ t. IsClosed k t)
              (elim o as (λ _. State W × Result LoadError (Unit {0})) [
                | none ↦ (s, ok tt)
                | some e ↦ (s, err (cgroup e))
              ])
      answered none = returned h
      answered (some e) = failed h

  load_spec_lem :
      (path : String) (s : State W)
      → IsClosed k s
      → Ensures (λ _ t. IsClosed k t) (λ _ t. IsClosed k t) (load_spec k path s)
  load_spec_lem path s h = answered (k.load_spec path s.world).1
    where
      t : State W
      t = record s { world = (k.load_spec path s.world).0 }

      answered :
          (o : Option Spec)
          → Ensures
              (λ _ t. IsClosed k t)
              (λ _ t. IsClosed k t)
              (elim o as (λ _. State W × Result LoadError Spec) [
                | none ↦ (t, err bad_spec)
                | some spec ↦ (t, ok spec)
              ])
      answered none = failed (record { live = h.live; links = h.links; collection = h.collection })
      answered (some spec) =
          returned (record { live = h.live; links = h.links; collection = h.collection })

  new_collection_lem :
      (spec : Spec) (s : State W)
      → IsClosed k s
      → Ensures (λ _ t. IsFresh t) (λ _ t. IsClosed k t) (new_collection k spec s)
  new_collection_lem spec s h = answered (k.new_collection spec s.world).1
    where
      v : W
      v = (k.new_collection spec s.world).0

      answered :
          (o : Option (String → Bool))
          → Ensures
              (λ _ t. IsFresh t)
              (λ _ t. IsClosed k t)
              (elim o as (λ _. State W × Result LoadError (String → Bool)) [
                | none ↦ (record s { world = v }, err verifier)
                | some programs ↦ (record s { world = v; collection = true }, ok programs)
              ])
      answered none = failed (record { live = h.live; links = h.links; collection = h.collection })
      answered (some programs) =
          returned (record { live = h.live ∙ sym h.links; links = h.links; collection = refl })

  closing_lem :
      (cfg : EngineConfig) (p : State W × Result LoadError (Unit {0}))
      → Ensures (λ _ t. IsLoaded cfg t) (λ _ t. (t.live ≡ t.links) × (t.collection ≡ true)) p
      → Ensures (λ _ t. IsLoaded cfg t) (λ _ t. IsClosed k t) (closing_if_failed k p)
  closing_lem cfg (t, ok u) (returned q) = returned q
  closing_lem cfg (t, err e) (failed (l, c)) = failed (close_lem k t l c)

  load_specified_lem :
      (cfg : EngineConfig) (spec : Spec) (t : State W)
      → IsClosed k t
      → Ensures (λ _ t. IsLoaded cfg t) (λ _ t. IsClosed k t) (load_specified k cfg spec t)
  load_specified_lem cfg spec t h =
      guard_rule _ abi_mismatch (λ _. load_created k cfg spec) t (λ _. h)
        (λ _. sequence {Q = λ _ t. IsFresh t} _ _ (new_collection_lem spec t h) (λ programs t f.
          closing_lem cfg _ (
            weaken (load_collection_lem cfg programs t f.live f.links f.collection) (λ _ _ q. q)
              (λ _ u g. (g.live, g.collection ∙ f.collection)))))

  -- From a state with nothing attached and no collection, `Load` either returns a manager whose
  -- policy is disabled and in config_map and whose programs are the ones attached, or fails with
  -- nothing attached and no collection open.
  pub load_lem :
      (cfg : EngineConfig) (s : State W)
      → IsClosed k s
      → Ensures (λ _ t. IsLoaded cfg t) (λ _ t. IsClosed k t) (load k cfg s)
  unfolding load
  load_lem cfg s h =
      sequence {Q = λ _ t. IsClosed k t} _ _
        (guard_rule {Q = λ _ t. IsClosed k t} {R = λ _ t. IsClosed k t} _ required
          (λ _. cgroup_ok k cfg) s (λ _. h) (λ _. cgroup_ok_lem cfg s h))
        (λ _ t h.
          sequence {Q = λ _ t. IsClosed k t} _ _ (load_spec_lem cfg.bpf_object t h)
            (load_specified_lem cfg))
