-- ===== src/Web/Mounts/Generations.antt =====
-- cert_mount.go: the directories that `planTrust` fills, and what it leaves alone meanwhile.
use kernel_su_tun2proxy.Prelude.{
  ℕ, String, str_eq, Bool, false, not, List, [], ◌∷◌, Option, none, some, ◌≡◌, refl, ap, sym, ◌∙◌,
  subst,
}
use Prim.Native.String.{◌++◌ as join}
use kernel_su_tun2proxy.Prelude.Exec.{
  Result, ok, err, Exec, continue, returned, failed, Ensures, sequence, weaken, if_exec_rule,
  last_guard, pure, raise, fail_if, ◌>>=◌,
}
use kernel_su_tun2proxy.Web.Certificates.{Certificate, Entry, Inventory}
use kernel_su_tun2proxy.Web.Certificates.Names.{allocate_name}
use kernel_su_tun2proxy.Web.Mounts.{
  FileCall, make_temp, MountError, no_file, no_certificate, gm_signature, no_label, Host, State,
  newest,
}
use kernel_su_tun2proxy.Web.Mounts.Planning.{
  Names, file, answer, read_certificate, bad_gm, put_certificate, allocated, add_managed, relabel,
  fill, generate, generation, generated, set_name,
}

-- Calls on files leave the mounts and what `detectTrust` finds alone, and a new directory is not mounted yet.
pub record Files {W : Type 0} (h : Host W) : Type 0 where
  pub roots :
      (c : FileCall) (w : W) (p : ℕ) (a : String) → h.roots p a (h.file c w).0 ≡ h.roots p a w
  pub detect : (c : FileCall) (w : W) → h.detect (h.file c w).0 ≡ h.detect w
  pub fresh :
      (w : W) (dir : String)
      → (h.file make_temp w).1 ≡ some dir
      → (p : ℕ) (a : String) → str_eq (newest (h.roots p a w)) (join dir "/live") ≡ false

module _ {W : Type 0} (h : Host W) where
  -- The mounts, the journal and what `detectTrust` finds stay.
  pub record Calm (s t : State W) : Type 0 where
    pub roots : (p : ℕ) (a : String) → h.roots p a t.world ≡ h.roots p a s.world
    pub journal : t.journal ≡ s.journal
    pub detect : h.detect t.world ≡ h.detect s.world

  pub Calm-refl : (s : State W) → Calm s s
  Calm-refl s = record { roots = λ p a. refl; journal = refl; detect = refl }

  pub Calm-trans : {s t u : State W} → Calm s t → Calm t u → Calm s u
  Calm-trans c d = record {
    roots = λ p a. d.roots p a ∙ c.roots p a;
    journal = d.journal ∙ c.journal;
    detect = d.detect ∙ c.detect;
  }

  abbrev IsCalm : {A : Type 0} → Exec (State W) MountError A → Type 0
  IsCalm m = (s : State W) → Ensures (λ _ t. Calm s t) (λ _ t. Calm s t) (m s)

  pub bind-IsCalm :
      {A B : Type 0} (m : Exec (State W) MountError A) (f : A → Exec (State W) MountError B)
      → IsCalm m
      → ((a : A) → IsCalm (f a))
      → IsCalm (m >>= f)
  bind-IsCalm m f c d s =
      sequence _ _ (c s)
        (λ a t e. weaken (d a t) (λ _ u g. Calm-trans e g) (λ _ u g. Calm-trans e g))

  pure-IsCalm : {A : Type 0} (a : A) → IsCalm (pure a)
  pure-IsCalm a s = returned (Calm-refl s)

  raise-IsCalm : {A : Type 0} (e : MountError) → IsCalm {A = A} (raise e)
  raise-IsCalm e s = failed (Calm-refl s)

  fail_if-IsCalm : (b : State W → Bool) (e : MountError) → IsCalm (λ s. fail_if (b s) e s)
  fail_if-IsCalm b e s = last_guard (b s) e s (λ _. Calm-refl s) (λ _. Calm-refl s)

  module _ (laws : Files h) where
    -- What a file call answers.
    file_lem :
        (c : FileCall) (s : State W)
        → Ensures (λ x t. Calm s t × ((h.file c s.world).1 ≡ some x)) (λ _ t. Calm s t) (file h c s)
    unfolding file
    file_lem c s = answered (h.file c s.world).1 refl
      where
        v : State W
        v = record s { world = (h.file c s.world).0 }

        answered :
            (o : Option String)
            → (h.file c s.world).1 ≡ o
            → Ensures
                (λ x t. Calm s t × ((h.file c s.world).1 ≡ some x))
                (λ _ t. Calm s t)
                (answer h o v)
        answered none e = failed (record {
          roots = laws.roots c s.world;
          journal = refl;
          detect = laws.detect c s.world;
        })
        answered (some x) e = returned (
          record { roots = laws.roots c s.world; journal = refl; detect = laws.detect c s.world },
          e,
        )

    pub file-IsCalm : (c : FileCall) → IsCalm (file h c)
    file-IsCalm c s = weaken (file_lem c s) (λ _ t q. q.0) (λ _ t q. q)

    read_certificate-IsCalm : (id : String) → IsCalm (read_certificate h id)
    read_certificate-IsCalm id s = read (h.read_certificate id s.world)
      where
        read :
            (o : Option (Certificate × Bool))
            → Ensures
                (λ _ t. Calm s t)
                (λ _ t. Calm s t)
                (elim o as (λ _. State W × Result MountError (Certificate × Bool)) [
                  | none ↦ (s, err no_certificate)
                  | some c ↦ (s, ok c)
                ])
        read none = failed (Calm-refl s)
        read (some c) = returned (Calm-refl s)

    allocated-IsCalm : (o : Option (String × Bool)) → IsCalm (allocated h o)
    allocated-IsCalm none = raise-IsCalm no_file
    allocated-IsCalm (some r) = pure-IsCalm r.0

    put_certificate-IsCalm :
        (live : String) (c : Certificate) (names : Names) → IsCalm (put_certificate h live c names)
    put_certificate-IsCalm live c names =
        bind-IsCalm _ _ (allocated-IsCalm (allocate_name h.numbered c names))
          (λ name. bind-IsCalm _ _ (file-IsCalm _) (λ _. pure-IsCalm name))

    add_managed-IsCalm :
        (live : String) (es : List (String × Entry)) (names files : Names)
        → IsCalm (add_managed h live es names files)
    unfolding add_managed
    add_managed-IsCalm live [] names files s = pure-IsCalm files s
    add_managed-IsCalm live (e ∷ es) names files s =
        if_exec_rule (not e.1.managed) _ _ s (λ _. add_managed-IsCalm live es names files s)
          (λ _.
            bind-IsCalm _ _ (read_certificate-IsCalm e.1.certificate.id)
              (λ c. bind-IsCalm _ _ (fail_if-IsCalm (bad_gm h c) gm_signature) (λ _.
                bind-IsCalm _ _ (put_certificate-IsCalm live c.0 names) (λ name.
                  add_managed-IsCalm live es (set_name name c.0.id names)
                    (set_name c.0.id name files))))
              s)

    relabel-IsCalm : (live label : String) → IsCalm (relabel h live label)
    relabel-IsCalm live label = bind-IsCalm _ _ (fail_if-IsCalm (λ _. _) no_label) (λ _.
        bind-IsCalm _ _ (file-IsCalm _)
          (λ _. bind-IsCalm _ _ (file-IsCalm _) (λ _. pure-IsCalm tt)))

    fill-IsCalm :
        (v : Inventory) (pid : ℕ) (target root dir : String) → IsCalm (fill h v pid target root dir)
    fill-IsCalm v pid target root dir = bind-IsCalm _ _ (file-IsCalm _) (λ _.
        bind-IsCalm _ _ (file-IsCalm _) (λ _.
          bind-IsCalm _ _ (λ s. returned (Calm-refl s))
            (λ names.
              bind-IsCalm _ _ (add_managed-IsCalm (join dir "/live") (h.sorted v) names [])
                (λ files. bind-IsCalm _ _ (file-IsCalm _) (λ label.
                  bind-IsCalm _ _ (relabel-IsCalm (join dir "/live") label)
                    (λ _. pure-IsCalm files))))))

    -- No place shows a directory as its newest layer.
    abbrev pub Unmounted : String → State W → Type 0
    Unmounted source s = (p : ℕ) (a : String) → str_eq (newest (h.roots p a s.world)) source ≡ false

    pub Unmounted-Calm :
        (source : String) (s t : State W) → Calm s t → Unmounted source s → Unmounted source t
    Unmounted-Calm source s t c f p a = ap (λ rs. str_eq (newest rs) source) (c.roots p a) ∙ f p a

    generated_lem :
        (pid : ℕ) (target dir : String) (files : Names) (s : State W)
        → Ensures
            (λ m t.
              Calm s t × ((m.pid ≡ pid) × (m.target ≡ target)) × (m.source ≡ join dir "/live"))
            (λ _ t. Calm s t)
            (generated h pid target dir files s)
    unfolding continue
    generated_lem pid target dir files s = returned (Calm-refl s, (refl, refl), refl)

    pub generate_lem :
        (v : Inventory) (pid : ℕ) (target root : String) (s : State W)
        → Ensures
            (λ m t. Calm s t × ((m.pid ≡ pid) × (m.target ≡ target)) × Unmounted m.source t)
            (λ _ t. Calm s t)
            (generate h v pid target root s)
    unfolding generate
    generate_lem v pid target root s =
        sequence _ (generation h v pid target root) (file_lem make_temp s) (λ dir t (c, e).
          sequence _ (generated h pid target dir)
            (weaken (fill-IsCalm v pid target root dir t) (λ _ u d. Calm-trans c d)
              (λ _ u d. Calm-trans c d))
            (λ files u d.
              weaken (generated_lem pid target dir files u)
                (λ m w (q, x, y). (
                  Calm-trans d q,
                  x,
                  subst (λ n. Unmounted n w) (sym y)
                      (Unmounted-Calm (join dir "/live") s w (Calm-trans d q)
                        (laws.fresh s.world dir e)),
                ))
                (λ _ w q. Calm-trans d q)))
