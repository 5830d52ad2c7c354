-- ===== src/Web/Mounts/Sources.antt =====
-- cert_mount.go: the directories that `planTrust` plans to mount.
use kernel_su_tun2proxy.Prelude.{
  ℕ, String, str_eq, Bool, true, false, List, [], ◌∷◌, ◌++◌, Option, none, some, length, leb, ◌≡◌,
  refl, ap, sym, ◌∙◌, subst, some_eq, str_refl, eq_iff, ◌⊎◌, inl, inr,
}
use kernel_su_tun2proxy.Prelude.Exec.{
  Result, continue, returned, Ensures, sequence, weaken, guard_rule, if_exec_rule,
}
use kernel_su_tun2proxy.Web.Certificates.{Inventory, lookup}
use kernel_su_tun2proxy.Web.Mounts.{
  CertMount, TrustEnvironment, MountError, too_many_layers, foreign, Host, State, mount_root,
}
use kernel_su_tun2proxy.Web.Mounts.Planning.{
  text_of, plan_from, plan_at, plan_place, plan_targets, plan_namespaces, plan_trust, has_managed,
  is_foreign,
}
use kernel_su_tun2proxy.Web.Mounts.Generations.{
  Files, Calm, Calm-refl, Calm-trans, Unmounted, Unmounted-Calm, generate_lem,
}

-- The namespace and the target of each plan, and of each pair of a namespace and a target.
abbrev pub places : List CertMount → List (ℕ × String)
places [] = []
places (m ∷ ms) = (m.pid, m.target) ∷ places ms

abbrev pub target_places : ℕ → List String → List (ℕ × String)
target_places pid [] = []
target_places pid (a ∷ targets) = (pid, a) ∷ target_places pid targets

abbrev pub all_places : List ℕ → List String → List (ℕ × String)
all_places [] targets = []
all_places (p ∷ pids) targets = target_places p targets ++ all_places pids targets

places-append : (ms ns : List CertMount) → places (ms ++ ns) ≡ places ms ++ places ns
places-append [] ns = refl
places-append (m ∷ ms) ns = ap (◌∷◌ (m.pid, m.target)) (places-append ms ns)

module _ {W : Type 0} (h : Host W) (laws : Files h) where
  -- What is prepared is not mounted, and is the source of the plans made so far.
  abbrev Ready : List (String × CertMount) → State W → Type 0
  Ready prepared s =
      (a : String) (m : CertMount)
      → lookup a prepared ≡ some m
      → (m.target ≡ a) × Unmounted h laws m.source s

  abbrev Extends : List (String × CertMount) → List (String × CertMount) → Type 0
  Extends before after =
      (a : String) (m : CertMount) → lookup a before ≡ some m → lookup a after ≡ some m

  abbrev Sourced : List (String × CertMount) → CertMount → Type 0
  Sourced prepared m = (n : CertMount) × (lookup m.target prepared ≡ some n) × (m.source ≡ n.source)

  abbrev AllSourced : List (String × CertMount) → List CertMount → Type 0
  AllSourced prepared [] = Unit
  AllSourced prepared (m ∷ ms) = Sourced prepared m × AllSourced prepared ms

  Ready-Calm :
      (prepared : List (String × CertMount)) (s t : State W)
      → Calm h s t
      → Ready prepared s
      → Ready prepared t
  Ready-Calm prepared s t c r a m e =
      let (q, f) = r a m e in (q, Unmounted-Calm h laws m.source s t c f)

  AllSourced-Extends :
      (before after : List (String × CertMount)) (ms : List CertMount)
      → Extends before after
      → AllSourced before ms
      → AllSourced after ms
  AllSourced-Extends before after [] x h = tt
  AllSourced-Extends before after (m ∷ ms) x ((n, e, f), h) =
      ((n, x m.target n e, f), AllSourced-Extends before after ms x h)

  AllSourced-append :
      (prepared : List (String × CertMount)) (ms ns : List CertMount)
      → AllSourced prepared ms
      → AllSourced prepared ns
      → AllSourced prepared (ms ++ ns)
  AllSourced-append prepared [] ns h g = g
  AllSourced-append prepared (m ∷ ms) ns (x, h) g = (x, AllSourced-append prepared ms ns h g)

  record Planned (before : List (String × CertMount)) (s : State W) (ms : List CertMount)
      (ps : List (ℕ × String)) (after : List (String × CertMount)) (t : State W) : Type 0 where
    pub placed : places ms ≡ ps
    pub calm : Calm h s t
    pub extends : Extends before after
    pub sourced : AllSourced after ms
    pub ready : Ready after t

  plan_from_lem :
      (v : Inventory) (pid : ℕ) (target root : String) (prepared : List (String × CertMount))
      (s : State W)
      → Ready prepared s
      → (o : Option CertMount) → lookup target prepared ≡ o
      → Ensures
          (λ a t. Planned prepared s (a.0 ∷ []) ((pid, target) ∷ []) a.1 t)
          (λ _ t. Calm h s t)
          (plan_from h v pid target prepared root o s)
  unfolding continue
  plan_from_lem v pid target root prepared s r (some ready) e =
      returned {a = (record ready { pid = pid; ns = text_of (h.namespace pid s.world) }, prepared)}
        (record {
          placed = ap (λ x. (pid, x) ∷ []) (r target ready e).0;
          calm = Calm-refl h s;
          extends = λ a m f. f;
          sourced = ((ready, ap (λ x. lookup x prepared) (r target ready e).0 ∙ e, refl), tt);
          ready = r;
        })
  plan_from_lem v pid target root prepared s r none e =
      sequence _ _ (generate_lem h laws v pid target root s) (λ m t (c, (i, q), f).
        returned {a = (m, (target, m) ∷ prepared)} (record {
          placed = rw (i, q) refl;
          calm = c;
          extends = λ a n g. grown m a n g (str_eq target a) refl;
          sourced = ((m, first m q, refl), tt);
          ready = λ a n g. either m t c q f a n g (str_eq target a) refl;
        }))
    where
      first :
          (m : CertMount) → m.target ≡ target → lookup m.target ((target, m) ∷ prepared) ≡ some m
      first m q = rw q (rw (str_refl target) refl)

      grown :
          (m : CertMount) (a : String) (n : CertMount)
          → lookup a prepared ≡ some n
          → (b : Bool) → str_eq target a ≡ b
          → lookup a ((target, m) ∷ prepared) ≡ some n
      grown m a n g true x = absurd (cc (g, e, (eq_iff target a).0 x))
      grown m a n g false x = rw x g

      either :
          (m : CertMount) (t : State W)
          → Calm h s t
          → m.target ≡ target
          → Unmounted h laws m.source t
          → (a : String) (n : CertMount) → lookup a ((target, m) ∷ prepared) ≡ some n
          → (b : Bool) → str_eq target a ≡ b
          → (n.target ≡ a) × Unmounted h laws n.source t
      either m t c q f a n g true x =
          subst (λ (y : CertMount). (y.target ≡ a) × Unmounted h laws y.source t)
            (some_eq (rw x at g)) (q ∙ (eq_iff target a).0 x, f)
      either m t c q f a n g false x = Ready-Calm prepared s t c r a n (rw x at g)

  abbrev Plans :
      List (String × CertMount)
      → State W
      → List (ℕ × String)
      → State W × Result MountError (List CertMount × List (String × CertMount))
      → Type 0
  Plans prepared s ps = Ensures (λ a t. Planned prepared s a.0 ps a.1 t) (λ _ t. Calm h s t)

  plan_place_lem :
      (v : Inventory) (pid : ℕ) (target : String) (prepared : List (String × CertMount))
      (s : State W)
      → Ready prepared s
      → Ensures
          (λ a t. Planned prepared s (a.0 ∷ []) ((pid, target) ∷ []) a.1 t)
          (λ _ t. Calm h s t)
          (plan_place h v pid target prepared s)
  unfolding plan_place
  plan_place_lem v pid target prepared s r =
      let root = mount_root h pid target s.world in
      guard_rule (leb 32 (length (h.roots pid target s.world))) too_many_layers
        (λ _. plan_at h v pid target prepared root) s (λ _. Calm-refl h s)
        (λ _.
          guard_rule (is_foreign h root) foreign
            (λ _. plan_from h v pid target prepared root (lookup target prepared)) s
            (λ _. Calm-refl h s)
            (λ _. plan_from_lem v pid target root prepared s r (lookup target prepared) refl))

  Planned-append :
      (p q r : List (String × CertMount)) (s t u : State W) (ms ns : List CertMount)
      (ps qs : List (ℕ × String))
      → Planned p s ms ps q t
      → Planned q t ns qs r u
      → Planned p s (ms ++ ns) (ps ++ qs) r u
  Planned-append p q r s t u ms ns ps qs f g = record {
    placed = places-append ms ns ∙ ap (λ x. x ++ places ns) f.placed ∙ ap (λ x. ps ++ x) g.placed;
    calm = Calm-trans h f.calm g.calm;
    extends = λ a m e. g.extends a m (f.extends a m e);
    sourced = AllSourced-append r ms ns (AllSourced-Extends q r ms g.extends f.sourced) g.sourced;
    ready = g.ready;
  }

  plan_targets_lem :
      (v : Inventory) (pid : ℕ) (targets : List String) (prepared : List (String × CertMount))
      (s : State W)
      → Ready prepared s
      → Plans prepared s (target_places pid targets) (plan_targets h v pid targets prepared s)
  unfolding plan_targets continue
  plan_targets_lem v pid [] prepared s r = returned (record {
    placed = refl;
    calm = Calm-refl h s;
    extends = λ a m e. e;
    sourced = tt;
    ready = r;
  })
  plan_targets_lem v pid (x ∷ xs) prepared s r =
      sequence _ _ (plan_place_lem v pid x prepared s r) (λ a t f.
        sequence _ _
          (weaken (plan_targets_lem v pid xs a.1 t f.ready)
            (λ b u g.
              Planned-append prepared a.1 b.1 s t u (a.0 ∷ []) b.0 ((pid, x) ∷ [])
                (target_places pid xs) f g)
            (λ _ u g. Calm-trans h f.calm g))
          (λ b u g. returned {a = (a.0 ∷ b.0, b.1)} g))

  plan_namespaces_lem :
      (v : Inventory) (pids : List ℕ) (targets : List String) (prepared : List (String × CertMount))
      (s : State W)
      → Ready prepared s
      → Plans prepared s (all_places pids targets) (plan_namespaces h v pids targets prepared s)
  unfolding plan_namespaces continue
  plan_namespaces_lem v [] targets prepared s r = returned (record {
    placed = refl;
    calm = Calm-refl h s;
    extends = λ a m e. e;
    sourced = tt;
    ready = r;
  })
  plan_namespaces_lem v (p ∷ ps) targets prepared s r =
      sequence _ _ (plan_targets_lem v p targets prepared s r) (λ a t f.
        sequence _ _
          (weaken (plan_namespaces_lem v ps targets a.1 t f.ready)
            (λ b u g.
              Planned-append prepared a.1 b.1 s t u a.0 b.0 (target_places p targets)
                (all_places ps targets) f g)
            (λ _ u g. Calm-trans h f.calm g))
          (λ b u g. returned {a = (a.0 ++ b.0, b.1)} g))

  -- One directory for each target, which is not mounted.
  abbrev pub FreshPlans : (String → String) → List CertMount → State W → Type 0
  FreshPlans source [] t = Unit
  FreshPlans source (m ∷ ms) t =
      (m.source ≡ source m.target) × Unmounted h laws m.source t × FreshPlans source ms t

  source_in : List (String × CertMount) → String → String
  source_in prepared a = elim (lookup a prepared) [ none ↦ "" | some m ↦ m.source ]

  source_in_lem :
      (prepared : List (String × CertMount)) (a : String) (n : CertMount)
      → lookup a prepared ≡ some n
      → n.source ≡ source_in prepared a
  unfolding source_in
  source_in_lem prepared a n e = rw (e, source_in) refl

  AllSourced-FreshPlans :
      (prepared : List (String × CertMount)) (ms : List CertMount) (t : State W)
      → Ready prepared t
      → AllSourced prepared ms
      → FreshPlans (source_in prepared) ms t
  AllSourced-FreshPlans prepared [] t r h = tt
  AllSourced-FreshPlans prepared (m ∷ ms) t r ((n, e, f), g) = (
    f ∙ source_in_lem prepared m.target n e,
    subst (λ x. Unmounted h laws x t) (sym f) (r m.target n e).1,
    AllSourced-FreshPlans prepared ms t r g,
  )

  -- Nothing is to be added and there is no plan, or there is one for each place.
  abbrev pub Covered : Inventory → TrustEnvironment → List CertMount → Type 0
  Covered v d plans =
      ((has_managed v.entries ≡ false) × (plans ≡ []))
      ⊎ ((has_managed v.entries ≡ true) × (places plans ≡ all_places d.namespaces d.targets))

  -- On every path `planTrust` leaves the mounts and the journal as they are, and it returns no plans
  -- where no certificate is to be added, and otherwise one for each target in each namespace, in that order; those of a target share one directory,
  -- which no namespace shows yet.
  pub plan_trust_lem :
      (v : Inventory) (d : TrustEnvironment) (s : State W)
      → Ensures
          (λ plans t.
            Calm h s t
            × ((source : String → String) × FreshPlans source plans t)
            × Covered v d plans)
          (λ _ t. Calm h s t)
          (plan_trust h v d s)
  unfolding plan_trust continue
  plan_trust_lem v d s =
      if_exec_rule (has_managed v.entries) _ _ s
        (λ e.
          sequence _ _ (plan_namespaces_lem v d.namespaces d.targets [] s (λ a m e. absurd (cc)))
            (λ a t f. returned (
              f.calm,
              (source_in a.1, AllSourced-FreshPlans a.1 a.0 t f.ready f.sourced),
              inr (e, f.placed),
            )))
        (λ e. returned (Calm-refl h s, ((λ a. a), tt), inl (e, refl)))
