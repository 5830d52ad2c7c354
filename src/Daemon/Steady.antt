-- ===== src/Daemon/Steady.antt =====
-- The commands on UIDs, which change only a map of the kernel.
use kernel_su_tun2proxy.Prelude.{
  ℕ, String, str_eq, Bool, true, false, List, [], ◌∷◌, ◌≡◌, refl, ◌∙◌,
}
use kernel_su_tun2proxy.Prelude.Exec.{
  Exec, returned, failed, Ensures, sequence, weaken, if_exec_rule, continue,
}
use kernel_su_tun2proxy.Redirect.Manager.{
  Kernel, LoadError, Deletion, deleted, no_key, delete_failed, target_uid, put_map, put_failed,
  checked, set_written,
}
use kernel_su_tun2proxy.Redirect.Manager.{State as Manager}
use kernel_su_tun2proxy.Redirect.Flows.{FlowKernel}
use kernel_su_tun2proxy.Redirect.Uids.{uid, uids, clear, delete, unless_missing, must_be_deleted}

module _ {W : Type 0} (k : Kernel W) (flows : FlowKernel W) (sort : List ℕ → List ℕ) where
  -- Only the world changes.
  pub record Steady (s t : Manager W) : Type 0 where
    pub collection : t.collection ≡ s.collection
    pub policy : t.policy ≡ s.policy
    pub links : t.links ≡ s.links
    pub live : t.live ≡ s.live
    pub written : t.written ≡ s.written

  Steady-trans : {s t u : Manager W} → Steady s t → Steady t u → Steady s u
  Steady-trans f g = record {
    collection = g.collection ∙ f.collection;
    policy = g.policy ∙ f.policy;
    links = g.links ∙ f.links;
    live = g.live ∙ f.live;
    written = g.written ∙ f.written;
  }

  pub in_world : (s : Manager W) (w : W) → Steady s (record s { world = w })
  in_world s w = record {
    collection = refl;
    policy = refl;
    links = refl;
    live = refl;
    written = refl;
  }

  abbrev IsSteady : {A : Type 0} → Exec (Manager W) LoadError A → Type 0
  IsSteady m = (s : Manager W) → Ensures (λ _ t. Steady s t) (λ _ t. Steady s t) (m s)

  then-IsSteady :
      {A B : Type 0} (m : Exec (Manager W) LoadError A) (f : A → Exec (Manager W) LoadError B)
      (s : Manager W)
      → IsSteady m
      → ((a : A) → IsSteady (f a))
      → Ensures (λ _ t. Steady s t) (λ _ t. Steady s t) (continue (m s) f)
  then-IsSteady m f s c d =
      sequence _ _ (c s)
        (λ a t e. weaken (d a t) (λ _ u g. Steady-trans e g) (λ _ u g. Steady-trans e g))

  put-IsSteady : (u : ℕ) → IsSteady (put_map k (target_uid u))
  unfolding put_map
  put-IsSteady u s = put (k.put (target_uid u) s.world).1
    where
      v : W
      v = (k.put (target_uid u) s.world).0

      put :
          (b : Bool)
          → Ensures
              (λ _ t. Steady s t)
              (λ _ t. Steady s t)
              (checked k b put_failed (set_written k (target_uid u) b (record s { world = v })))
      put true = returned (in_world s v)
      put false = failed (in_world s v)

  delete-IsSteady : (u : ℕ) → IsSteady (delete k sort u)
  unfolding delete
  delete-IsSteady u s = returned (in_world s (k.delete_uid u s.world).0)

  unless_missing-IsSteady : (d : Deletion) → IsSteady (unless_missing k sort d)
  unless_missing-IsSteady deleted s = returned (in_world s s.world)
  unless_missing-IsSteady no_key s = returned (in_world s s.world)
  unless_missing-IsSteady delete_failed s = failed (in_world s s.world)

  must_be_deleted-IsSteady : (d : Deletion) → IsSteady (must_be_deleted k sort d)
  must_be_deleted-IsSteady deleted s = returned (in_world s s.world)
  must_be_deleted-IsSteady no_key s = failed (in_world s s.world)
  must_be_deleted-IsSteady delete_failed s = failed (in_world s s.world)

  clear-IsSteady : (us : List ℕ) → IsSteady (clear k sort us)
  unfolding clear
  clear-IsSteady [] s = returned (in_world s s.world)
  clear-IsSteady (u ∷ us) s =
      then-IsSteady _ _ s (λ t. then-IsSteady _ _ t (delete-IsSteady u) must_be_deleted-IsSteady)
        (λ _. clear-IsSteady us)

  uids-IsSteady : IsSteady (uids k sort)
  unfolding uids
  uids-IsSteady s = returned (in_world s (k.uid_keys s.world).0)

  pub uid-IsSteady : (action : String) (u : ℕ) → IsSteady (uid k sort action u)
  unfolding uid
  uid-IsSteady action u s =
      if_exec_rule (str_eq action "add") _ _ s (λ _. put-IsSteady u s)
        (λ _.
          if_exec_rule (str_eq action "del") _ _ s
            (λ _. then-IsSteady _ _ s (delete-IsSteady u) unless_missing-IsSteady)
            (λ _.
              if_exec_rule (str_eq action "clear") _ _ s
                (λ _. then-IsSteady _ _ s uids-IsSteady clear-IsSteady)
                (λ _. failed (in_world s s.world))))
