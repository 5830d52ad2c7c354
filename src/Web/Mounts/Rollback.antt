-- ===== src/Web/Mounts/Rollback.antt =====
-- cert_mount.go: the mounts after `applyTrust`, whether it works or fails.
use kernel_su_tun2proxy.Prelude.{
  ℕ, String, str_eq, Bool, true, false, not, ◌&&◌, List, [], ◌∷◌, Option, some, ◌≡◌, ◌⊎◌, inl, inr,
  refl, sym, ◌∙◌, subst, not-false,
}
use kernel_su_tun2proxy.Prelude.Exec.{
  Result, ok, err, returned, failed, Ensures, on_every_path, sequence, weaken, guard_rule, if_rule,
  last_guard,
}
use kernel_su_tun2proxy.Web.Certificates.{Entry, Inventory}
use kernel_su_tun2proxy.Web.Mounts.{
  CertMount, MountState, MountError, incomplete, namespace_changed, not_visible, bad_name,
  bad_fingerprint, not_trusted, Host, State, save_mounts,
}
use kernel_su_tun2proxy.Web.Mounts.Applying.{
  is_mounted, verify_file, verify_files, check_visible, verify_mount, mount_plan, mount_plans,
  verify_plans, probe_all, undo_all, rolled, or_rollback, install, apply_plans, same_text,
}
use kernel_su_tun2proxy.Web.Mounts.Removal.{save_mounts_lem}
use kernel_su_tun2proxy.Web.Mounts.Layers.{
  Mounts, At, Layer, Layered, Layered-map, SameRoots, IsFresh, AllFresh, bind_mount_lem,
  undo_all_lem,
}

module _ {W : Type 0} (h : Host W) (laws : Mounts h) (source : String → String) where
  -- The checks change nothing.
  abbrev Reads : (State W → Type 0) → State W → State W × Result MountError (Unit {0}) → Type 0
  Reads Q s = Ensures (λ _ t. (t ≡ s) × Q s) (λ _ t. t ≡ s)

  verify_files_lem :
      (m : CertMount) (fs : List (String × String)) (s : State W)
      → Reads (λ _. Unit) s (verify_files h m fs s)
  unfolding verify_files
  verify_files_lem m [] s = returned (refl, tt)
  verify_files_lem m ((id, name) ∷ fs) s =
      sequence {Q = λ _ t. t ≡ s} _ _ (file_lem (not (str_eq (h.base_name name) name))) (λ _ t e.
        subst (λ x. Ensures (λ _ t. (t ≡ s) × Unit) (λ _ t. t ≡ s) (verify_files h m fs x)) (sym e)
          (verify_files_lem m fs s))
    where
      file_lem : (b : Bool) → Ensures (λ _ t. t ≡ s) (λ _ t. t ≡ s) (verify_file h m id name s)
      file_lem b =
          guard_rule (not (str_eq (h.base_name name) name)) bad_name _ s (λ _. refl)
            (λ _. last_guard _ bad_fingerprint s (λ _. refl) (λ _. refl))

  verify_mount_lem :
      (m : CertMount) (s : State W) → Reads (λ t. is_mounted h m t ≡ true) s (verify_mount h m s)
  unfolding verify_mount
  verify_mount_lem m s =
      sequence {Q = λ _ t. (t ≡ s) × (is_mounted h m s ≡ true)} _ _
        (guard_rule (not (same_text (h.namespace m.pid s.world) m.ns)) namespace_changed
          (λ _. check_visible h m) s (λ _. refl)
          (λ _.
            last_guard (not (is_mounted h m s)) not_visible s (λ _. refl)
              (λ e. (refl, not-false _ e))))
        (λ _ t (e, q).
          subst (λ x. Reads (λ t. is_mounted h m t ≡ true) s (verify_files h m m.files x)) (sym e)
            (weaken (verify_files_lem m m.files s) (λ _ u (x, _). (x, q)) (λ _ u x. x)))

  -- Each plan's directory is the newest layer of its place.
  abbrev pub AllMounted : List CertMount → State W → Type 0
  AllMounted [] t = Unit
  AllMounted (m ∷ ms) t = (is_mounted h m t ≡ true) × AllMounted ms t

  verify_plans_lem :
      (ms : List CertMount) (s : State W) → Reads (AllMounted ms) s (verify_plans h ms s)
  unfolding verify_plans
  verify_plans_lem [] s = returned (refl, tt)
  verify_plans_lem (m ∷ ms) s = sequence _ _ (verify_mount_lem m s) (λ _ t (e, q).
      subst (λ x. Reads (AllMounted (m ∷ ms)) s (verify_plans h ms x)) (sym e)
        (weaken (verify_plans_lem ms s) (λ _ u (x, y). (x, (q, y))) (λ _ u x. x)))

  probe_all_lem :
      (es : List (String × Entry)) (s : State W) → Reads (λ _. Unit) s (probe_all h es s)
  unfolding probe_all
  probe_all_lem [] s = returned (refl, tt)
  probe_all_lem (e ∷ es) s =
      guard_rule (e.1.managed && not (h.trusted e.1.certificate.id s.world)) not_trusted
        (λ _. probe_all h es) s (λ _. refl) (λ _. probe_all_lem es s)

  -- The loop that mounts.
  abbrev AllAt : (ℕ → String → Type 0) → List CertMount → Type 0
  AllAt P [] = Unit
  AllAt P (m ∷ ms) = P m.pid m.target × AllAt P ms

  AllAt-map :
      (P Q : ℕ → String → Type 0) (ms : List CertMount)
      → ((p : ℕ) (a : String) → P p a → Q p a)
      → AllAt P ms
      → AllAt Q ms
  AllAt-map P Q [] f q = tt
  AllAt-map P Q (m ∷ ms) f (x, q) = (f m.pid m.target x, AllAt-map P Q ms f q)

  AllAt-At : (ms : List CertMount) → AllAt (At ms) ms
  AllAt-At [] = tt
  AllAt-At (m ∷ ms) =
      (inl (refl, refl), AllAt-map (At ms) (At (m ∷ ms)) ms (λ p a x. inr x) (AllAt-At ms))

  abbrev Mounting :
      (ℕ → String → Type 0)
      → State W
      → Option MountState
      → State W × Result MountError (Unit {0})
      → Type 0
  Mounting P s j =
      Ensures (λ _ u. Layered h laws source P s u × (u.journal ≡ j))
        (λ _ u. Layered h laws source P s u × (u.journal ≡ j))

  mount_plan_lem :
      (P : ℕ → String → Type 0) (m : CertMount) (s t : State W)
      → P m.pid m.target
      → IsFresh h laws source m s
      → Layered h laws source P s t
      → Mounting P s t.journal (mount_plan h m t)
  mount_plan_lem P m s t i f l =
      if_rule (is_mounted h m t) _ _ (λ _. returned (l, refl))
        (λ n. sequence _ _ (bind_mount_lem h laws source P m s t i f.shared n l) (λ _ u (k, j).
          weaken (verify_mount_lem m u)
            (λ _ w (e, _).
              subst (λ x. Layered h laws source P s x × (x.journal ≡ t.journal)) (sym e) (k, j))
            (λ _ w e.
              subst (λ x. Layered h laws source P s x × (x.journal ≡ t.journal)) (sym e) (k, j))))

  mount_plans_lem :
      (P : ℕ → String → Type 0) (ms : List CertMount) (s t : State W)
      → AllAt P ms
      → AllFresh h laws source ms s
      → Layered h laws source P s t
      → Mounting P s t.journal (mount_plans h ms t)
  unfolding mount_plans
  mount_plans_lem P [] s t i f l = returned (l, refl)
  mount_plans_lem P (m ∷ ms) s t (i, is) (f, fs) l =
      sequence _ _ (mount_plan_lem P m s t i f l) (λ _ u (k, j).
        subst (λ x. Mounting P s x (mount_plans h ms u)) j (mount_plans_lem P ms s u is fs k))

  -- What a failed call leaves: the mounts as they were, or, where a layer could not be taken off
  -- again, at most one more at each place of the plans, which the journal then lists.
  pub data Restored (plans : List CertMount) (s : State W) (e : MountError) (t : State W)
      : Type 0 where
    all_off : SameRoots h laws source s t → Restored plans s e t
    some_left :
        {boot : String} {cause : MountError}
        → e ≡ incomplete cause
        → Layered h laws source (At plans) s t
        → t.journal ≡ some (record { boot = boot; mounts = plans })
        → Restored plans s e t

  -- A call that works: each directory planned is shown, and nothing else has changed.
  pub record Installed (plans : List CertMount) (s t : State W) : Type 0 where
    pub layered : Layered h laws source (At plans) s t
    pub mounted : AllMounted plans t
    pub journal : (boot : String) × (t.journal ≡ some (record { boot = boot; mounts = plans }))

  install_lem :
      (v : Inventory) (plans : List CertMount) (s t : State W)
      → AllFresh h laws source plans s
      → Layered h laws source (At plans) s t
      → Ensures
          (λ _ u.
            Layered h laws source (At plans) s u × AllMounted plans u × (u.journal ≡ t.journal))
          (λ _ u. Layered h laws source (At plans) s u × (u.journal ≡ t.journal))
          (install h v plans t)
  install_lem v plans s t f l =
      sequence
        {Q = λ _ u.
          Layered h laws source (At plans) s u × AllMounted plans u × (u.journal ≡ t.journal)}
        _ _
        (sequence _ _ (mount_plans_lem (At plans) plans s t (AllAt-At plans) f l) (λ _ u (k, j).
          weaken (verify_plans_lem plans u)
            (λ _ w (e, q).
              subst
                (λ x.
                  Layered h laws source (At plans) s x
                  × AllMounted plans x
                  × (x.journal ≡ t.journal))
                (sym e) (k, q, j))
            (λ _ w e.
              subst (λ x. Layered h laws source (At plans) s x × (x.journal ≡ t.journal)) (sym e)
                (k, j))))
        (λ _ u (k, q, j).
          weaken (probe_all_lem v.entries u)
            (λ _ w (e, _).
              subst
                (λ x.
                  Layered h laws source (At plans) s x
                  × AllMounted plans x
                  × (x.journal ≡ t.journal))
                (sym e) (k, q, j))
            (λ _ w e.
              subst (λ x. Layered h laws source (At plans) s x × (x.journal ≡ t.journal)) (sym e)
                (k, j)))

  rolled_lem :
      (plans : List CertMount) (s u : State W) (old : MountState) (cause : MountError)
      (boot : String)
      → u.journal ≡ some (record { boot = boot; mounts = plans })
      → (b : Bool) → Layered h laws source (λ p a. ⊥ ⊎ At plans p a) s u
      → (b ≡ true → Layered h laws source (λ p a. ⊥) s u)
      → Ensures
          (λ _ t. Installed plans s t)
          (λ e t. Restored plans s e t)
          (rolled h old cause (u, b))
  rolled_lem plans s u old cause boot j true l c =
      failed (all_off (λ p a. after p a ∙ clean p a (c refl p a)))
    where
      t : State W
      t = (save_mounts h old u).0

      after : SameRoots h laws source u t
      after =
          on_every_path
            (weaken (save_mounts_lem h laws.umounts old u) (λ _ _ q. q.0) (λ _ _ q. q.0))

      clean :
          (p : ℕ) (a : String)
          → Layer h laws source (λ p a. ⊥) s u.world p a
          → h.roots p a u.world ≡ h.roots p a s.world
      clean p a (inl x) = x
      clean p a (inr (_, x, _, _)) = elim x [ ]
  rolled_lem plans s u old cause boot j false l c =
      failed (
        some_left refl (Layered-map h laws source (λ p a. ⊥ ⊎ At plans p a) (At plans) s u only l)
          j)
    where
      only : (p : ℕ) (a : String) → ⊥ ⊎ At plans p a → At plans p a
      only p a (inl x) = elim x [ ]
      only p a (inr x) = x

  or_rollback_lem :
      (plans : List CertMount) (s : State W) (old : MountState) (boot : String)
      (r : State W × Result MountError (Unit {0}))
      → AllFresh h laws source plans s
      → Ensures
          (λ _ u.
            Layered h laws source (At plans) s u
            × AllMounted plans u
            × (u.journal ≡ some (record { boot = boot; mounts = plans })))
          (λ _ u.
            Layered h laws source (At plans) s u
            × (u.journal ≡ some (record { boot = boot; mounts = plans })))
          r
      → Ensures
          (λ _ t. Installed plans s t)
          (λ e t. Restored plans s e t)
          (or_rollback h plans old r)
  or_rollback_lem plans s old boot (t, ok x) f (returned (l, q, j)) =
      returned (record { layered = l; mounted = q; journal = (boot, j) })
  or_rollback_lem plans s old boot (t, err e) f (failed (l, j)) =
      let d =
        undo_all_lem h laws source (λ p a. ⊥) plans s t f
          (Layered-map h laws source (At plans) (λ p a. ⊥ ⊎ At plans p a) s t (λ p a x. inr x) l) in
      rolled_lem plans s _ old e boot (d.journal ∙ j) (undo_all h plans t).1 d.layered d.clean

  pub apply_plans_lem :
      (v : Inventory) (old : MountState) (m : CertMount) (ms : List CertMount) (s : State W)
      → AllFresh h laws source (m ∷ ms) s
      → Ensures
          (λ _ t. Installed (m ∷ ms) s t)
          (λ e t. Restored (m ∷ ms) s e t)
          (apply_plans h v old (m ∷ ms) s)
  unfolding apply_plans
  apply_plans_lem v old m ms s f =
      sequence
        {Q = λ _ t.
          SameRoots h laws source s t
          × (t.journal ≡ some (record { boot = h.boot_id s.world; mounts = m ∷ ms }))}
        _ _
        (weaken
          (save_mounts_lem h laws.umounts (record { boot = h.boot_id s.world; mounts = m ∷ ms }) s)
          (λ _ t q. q) (λ _ t (r, _). all_off r))
        (λ _ t (r, j).
          or_rollback_lem (m ∷ ms) s old (h.boot_id s.world) (install h v (m ∷ ms) t) f (
            weaken (install_lem v (m ∷ ms) s t f (λ p a. inl (r p a)))
              (λ _ u (l, q, k). (l, q, k ∙ j)) (λ _ u (l, k). (l, k ∙ j))))
