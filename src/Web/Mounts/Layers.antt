-- ===== src/Web/Mounts/Layers.antt =====
-- cert_mount.go: the layers that `applyTrust` puts on mount points and that `rollback` takes off.
use kernel_su_tun2proxy.Prelude.{
  ℕ, String, str_eq, Bool, true, false, List, [], ◌∷◌, ◌≡◌, ◌⊎◌, inl, inr, refl, ap, sym, ◌∙◌,
  subst, Bool-cases, str_refl, eq_iff, and_true, true_ne, ==_iff, ◌==◌, ◌&&◌,
}
use kernel_su_tun2proxy.Prelude.Exec.{returned, failed, Ensures}
use kernel_su_tun2proxy.Web.Mounts.{
  CertMount, mount_failed, umount_failed, Host, State, newest, done, umount, bind_mount,
}
use kernel_su_tun2proxy.Web.Mounts.Applying.{is_mounted, undone, undo_if, undo, undo_all}
use kernel_su_tun2proxy.Web.Mounts.Removal.{Umounts, Unmounted}
use kernel_su_tun2proxy.Web.Mounts.Generations.{Files}

-- A bind mount puts its source on the top of a mount point, or fails.
abbrev pub Bound : Bool → String → List String → List String → Type 0
Bound true source before after = after ≡ source ∷ before
Bound false source before after = after ≡ before

-- Whether a place is of the group of another.
abbrev pub shown : (ℕ → String → ℕ) → ℕ → String → ℕ → String → Bool
shown group p a q b = (group p a == group q b) && str_eq a b

pub shown_lem :
    (group : ℕ → String → ℕ) (p : ℕ) (a : String) (q : ℕ) (b : String)
    → shown group p a q b ≡ true
    → (group p b ≡ group q b) × (a ≡ b)
shown_lem group p a q b e =
    let (x, y) = and_true _ _ e in
    let same_path = (eq_iff a b).0 y in
    (ap (group p) (sym same_path) ∙ (==_iff (group p a) (group q b)).0 x, same_path)

pub record Mounts {W : Type 0} (h : Host W) : Type 0 where
  pub umounts : Umounts h
  pub files : Files h
  -- Places of one group show the same layers: processes of one namespace, or peers of a shared
  -- subtree. An operation at a place reaches its group, and no other place.
  pub group : ℕ → String → ℕ
  pub agree : (p q : ℕ) (a : String) (w : W) → group p a ≡ group q a → h.roots p a w ≡ h.roots q a w
  pub umounts_apart :
      (pid : ℕ) (target : String) (w : W) (p : ℕ) (a : String)
      → shown group p a pid target ≡ false
      → h.roots p a (h.umount pid target w).0 ≡ h.roots p a w
  pub there :
      (m : CertMount) (w : W)
      → Bound
          (h.mount m.pid m.source m.target w).1
          m.source
          (h.roots m.pid m.target w)
          (h.roots m.pid m.target (h.mount m.pid m.source m.target w).0)
  pub elsewhere :
      (m : CertMount) (w : W) (p : ℕ) (a : String)
      → shown group p a m.pid m.target ≡ false
      → h.roots p a (h.mount m.pid m.source m.target w).0 ≡ h.roots p a w

-- A place of one of the plans.
abbrev pub At : List CertMount → ℕ → String → Type 0
At [] p a = ⊥
At (m ∷ ms) p a = ((m.pid ≡ p) × (m.target ≡ a)) ⊎ At ms p a

module _ {W : Type 0} (h : Host W) (laws : Mounts h) (source : String → String) where
  -- At a place the layers of `s`, or, if a place of `P` is of its group, one more.
  abbrev pub Layer : (ℕ → String → Type 0) → State W → W → ℕ → String → Type 0
  Layer P s w p a =
      (h.roots p a w ≡ h.roots p a s.world)
      ⊎ ((q : ℕ) × P q a
          × (laws.group q a ≡ laws.group p a)
          × (h.roots p a w ≡ source a ∷ h.roots p a s.world))

  abbrev pub Layered : (ℕ → String → Type 0) → State W → State W → Type 0
  Layered P s t = (p : ℕ) (a : String) → Layer P s t.world p a

  -- A group has the same layers.
  Layer-group :
      (P : ℕ → String → Type 0) (s : State W) (w : W) (p q : ℕ) (a : String)
      → laws.group p a ≡ laws.group q a
      → Layer P s w q a
      → Layer P s w p a
  Layer-group P s w p q a e (inl x) =
      inl (laws.agree p q a w e ∙ x ∙ sym (laws.agree p q a s.world e))
  Layer-group P s w p q a e (inr (r, i, g, x)) = inr (
    r,
    i,
    g ∙ sym e,
    laws.agree p q a w e ∙ x ∙ ap (◌∷◌ (source a)) (sym (laws.agree p q a s.world e)),
  )

  -- The same at another path that is equal.
  Layer-at :
      (P : ℕ → String → Type 0) (s : State W) (w : W) (p q : ℕ) (a b : String)
      → shown laws.group p a q b ≡ true
      → Layer P s w q b
      → Layer P s w p a
  Layer-at P s w p q a b e l =
      let (g, y) = shown_lem laws.group p a q b e in
      subst (λ c. Layer P s w p c) (sym y) (Layer-group P s w p q b g l)

  abbrev pub SameRoots : State W → State W → Type 0
  SameRoots s t = (p : ℕ) (a : String) → h.roots p a t.world ≡ h.roots p a s.world

  -- A plan of a target's directory, which the state does not show.
  pub record IsFresh (m : CertMount) (s : State W) : Type 0 where
    pub shared : m.source ≡ source m.target
    pub fresh : str_eq (newest (h.roots m.pid m.target s.world)) m.source ≡ false

  pub bind_mount_lem :
      (P : ℕ → String → Type 0) (m : CertMount) (s t : State W)
      → P m.pid m.target
      → m.source ≡ source m.target
      → is_mounted h m t ≡ false
      → Layered P s t
      → Ensures
          (λ _ u. Layered P s u × (u.journal ≡ t.journal))
          (λ _ u. Layered P s u × (u.journal ≡ t.journal))
          (bind_mount h m t)
  unfolding bind_mount
  bind_mount_lem P m s t i e n l =
      mounted (h.mount m.pid m.source m.target t.world).1 (laws.there m t.world)
    where
      v : W
      v = (h.mount m.pid m.source m.target t.world).0

      there :
          (b : Bool)
          → Bound b m.source (h.roots m.pid m.target t.world) (h.roots m.pid m.target v)
          → Layer P s t.world m.pid m.target
          → Layer P s v m.pid m.target
      there true r (inl x) =
          inr (
            m.pid,
            i,
            refl,
            r ∙ ap (◌∷◌ m.source) x ∙ ap (λ y. y ∷ h.roots m.pid m.target s.world) e,
          )
      there true r (inr (_, _, _, x)) = absurd (
          true_ne _
            (ap (λ rs. str_eq (newest rs) m.source) x
              ∙ (eq_iff (source m.target) m.source).1 (sym e))
            n)
      there false r (inl x) = inl (r ∙ x)
      there false r (inr (q, j, g, x)) = inr (q, j, g, r ∙ x)

      layered :
          (b : Bool)
          → Bound b m.source (h.roots m.pid m.target t.world) (h.roots m.pid m.target v)
          → Layered P s (record t { world = v })
      layered b r p a = elim (Bool-cases (shown laws.group p a m.pid m.target)) [
        | inl q ↦ Layer-at P s v p m.pid a m.target q (there b r (l m.pid m.target))
        | inr q ↦ rw (laws.elsewhere m t.world p a q) (l p a)
      ]

      mounted :
          (b : Bool)
          → Bound b m.source (h.roots m.pid m.target t.world) (h.roots m.pid m.target v)
          → Ensures
              (λ _ u. Layered P s u × (u.journal ≡ t.journal))
              (λ _ u. Layered P s u × (u.journal ≡ t.journal))
              (done h b mount_failed (record t { world = v }))
      mounted true r = returned (layered true r, refl)
      mounted false r = failed (layered false r, refl)

  -- Taking the layer of a plan off again.
  abbrev pub Or : (ℕ → String → Type 0) → CertMount → ℕ → String → Type 0
  Or P m p a = P p a ⊎ ((m.pid ≡ p) × (m.target ≡ a))

  -- What undoing a plan leaves, from what `Undone` says of its end.
  pub record Undoes (P : ℕ → String → Type 0) (m : CertMount) (s t : State W) (r : State W × Bool)
      : Type 0 where
    pub layered : Layered (Or P m) s r.0
    pub clean : r.1 ≡ true → Layered P s r.0
    pub journal : r.0.journal ≡ t.journal

  not_there :
      (m : CertMount) (s t : State W)
      → IsFresh m s
      → is_mounted h m t ≡ true
      → h.roots m.pid m.target t.world ≡ h.roots m.pid m.target s.world
      → ⊥
  not_there m s t f e q = true_ne _ (sym (ap (λ rs. str_eq (newest rs) m.source) q) ∙ e) f.fresh

  keep_off :
      (P : ℕ → String → Type 0) (m : CertMount) (s t : State W)
      → IsFresh m s
      → is_mounted h m t ≡ false
      → Layered (Or P m) s t
      → Layered P s t
  keep_off P m s t f n l p a = off (l p a)
    where
      off : Layer (Or P m) s t.world p a → Layer P s t.world p a
      off (inl x) = inl x
      off (inr (q, inl i, g, x)) = inr (q, i, g, x)
      off (inr (q, inr (y, z), g, x)) =
          let top : str_eq (newest (h.roots m.pid m.target t.world)) m.source ≡ true =
            rw (y, z)
              (ap (λ rs. str_eq (newest rs) m.source) (laws.agree q p a t.world g ∙ x)
                ∙ (eq_iff (source a) m.source).1 (ap source (sym z) ∙ sym f.shared)) in
          absurd (true_ne _ top n)

  undone_lem :
      (P : ℕ → String → Type 0) (m : CertMount) (s t : State W)
      → IsFresh m s
      → is_mounted h m t ≡ true
      → Layered (Or P m) s t
      → Undoes P m s t (undone h (umount h m.pid m.target t))
  unfolding umount
  undone_lem P m s t f e l =
      by_answer (h.umount m.pid m.target t.world).1 (laws.umounts.there m.pid m.target t.world)
    where
      v : W
      v = (h.umount m.pid m.target t.world).0

      tail_eq : {x y : String} {xs ys : List String} → x ∷ xs ≡ y ∷ ys → xs ≡ ys
      tail_eq q = cc

      off_at :
          (r : String)
          → h.roots m.pid m.target t.world ≡ r ∷ h.roots m.pid m.target v
          → Layer (Or P m) s t.world m.pid m.target
          → h.roots m.pid m.target v ≡ h.roots m.pid m.target s.world
      off_at r q (inl x) = absurd (not_there m s t f e x)
      off_at r q (inr (_, _, _, x)) = tail_eq (sym q ∙ x)

      elsewhere :
          (p : ℕ) (a : String)
          → shown laws.group p a m.pid m.target ≡ false
          → Layer (Or P m) s t.world p a
          → Layer P s v p a
      elsewhere p a q (inl x) = inl (laws.umounts_apart m.pid m.target t.world p a q ∙ x)
      elsewhere p a q (inr (r, inl y, g, x)) =
          inr (r, y, g, laws.umounts_apart m.pid m.target t.world p a q ∙ x)
      elsewhere p a q (inr (r, inr (y, z), g, x)) = absurd (
          true_ne _
            (rw (y, z) (rw (g, str_refl a, (==_iff (laws.group p a) (laws.group p a)).1 refl) refl))
            q)

      clean :
          (r : String)
          → h.roots m.pid m.target t.world ≡ r ∷ h.roots m.pid m.target v
          → Layered P s (record t { world = v })
      clean r q p a = elim (Bool-cases (shown laws.group p a m.pid m.target)) [
        | inl y ↦ Layer-at P s v p m.pid a m.target y (inl (off_at r q (l m.pid m.target)))
        | inr n ↦ elsewhere p a n (l p a)
      ]

      wider : (p : ℕ) (a : String) → Layer P s v p a → Layer (Or P m) s v p a
      wider p a (inl x) = inl x
      wider p a (inr (q, i, g, x)) = inr (q, inl i, g, x)

      Shows : ℕ → String → List String → Type 0
      Shows p a rs =
          (rs ≡ h.roots p a s.world)
          ⊎ ((q : ℕ) × Or P m q a
              × (laws.group q a ≡ laws.group p a)
              × (rs ≡ source a ∷ h.roots p a s.world))

      kept :
          h.roots m.pid m.target v ≡ h.roots m.pid m.target t.world
          → Layered (Or P m) s (record t { world = v })
      kept q p a = elim (Bool-cases (shown laws.group p a m.pid m.target)) [
        | inl y ↦
            Layer-at (Or P m) s v p m.pid a m.target y
              (subst (λ rs. Shows m.pid m.target rs) (sym q) (l m.pid m.target))
        | inr n ↦
            subst (λ rs. Shows p a rs) (sym (laws.umounts_apart m.pid m.target t.world p a n))
              (l p a)
      ]

      by_answer :
          (b : Bool)
          → Unmounted b (h.roots m.pid m.target t.world) (h.roots m.pid m.target v)
          → Undoes P m s t (undone h (done h b umount_failed (record t { world = v })))
      by_answer true (r, q) = record {
        layered = λ p a. wider p a (clean r q p a);
        clean = λ _. clean r q;
        journal = refl;
      }
      by_answer false q = record { layered = kept q; clean = λ x. absurd (cc); journal = refl }

  undo_lem :
      (P : ℕ → String → Type 0) (m : CertMount) (s t : State W)
      → IsFresh m s
      → Layered (Or P m) s t
      → (b : Bool) → is_mounted h m t ≡ b
      → Undoes P m s t (undo_if h b m t)
  undo_lem P m s t f l true e = undone_lem P m s t f e l
  undo_lem P m s t f l false e = record {
    layered = l;
    clean = λ _. keep_off P m s t f e l;
    journal = refl;
  }

  pub Layered-map :
      (P Q : ℕ → String → Type 0) (s t : State W)
      → ((p : ℕ) (a : String) → P p a → Q p a)
      → Layered P s t
      → Layered Q s t
  Layered-map P Q s t f l p a = mapped (l p a)
    where
      mapped : Layer P s t.world p a → Layer Q s t.world p a
      mapped (inl x) = inl x
      mapped (inr (q, i, g, x)) = inr (q, f q a i, g, x)

  -- The loop of `rollback` over some plans.
  pub record UndoesAll (P : ℕ → String → Type 0) (ms : List CertMount) (s t : State W)
      (r : State W × Bool) : Type 0 where
    pub layered : Layered (λ p a. P p a ⊎ At ms p a) s r.0
    pub clean : r.1 ≡ true → Layered P s r.0
    pub journal : r.0.journal ≡ t.journal

  abbrev pub AllFresh : List CertMount → State W → Type 0
  AllFresh [] s = Unit
  AllFresh (m ∷ ms) s = IsFresh m s × AllFresh ms s

  pub undo_all_lem :
      (P : ℕ → String → Type 0) (ms : List CertMount) (s t : State W)
      → AllFresh ms s
      → Layered (λ p a. P p a ⊎ At ms p a) s t
      → UndoesAll P ms s t (undo_all h ms t)
  unfolding undo_all
  undo_all_lem P [] s t f l = record {
    layered = l;
    clean = λ _.
        Layered-map (λ p a. P p a ⊎ ⊥) P s t (λ p a q. elim q [ inl x ↦ x | inr x ↦ elim x [ ] ]) l;
    journal = refl;
  }
  undo_all_lem P (m ∷ ms) s t (f, fs) l =
      let wide : ℕ → String → Type 0 = λ p a. P p a ⊎ At (m ∷ ms) p a in
      let rest =
        undo_all_lem (Or P m) ms s t fs
          (Layered-map wide (λ p a. Or P m p a ⊎ At ms p a) s t regroup l) in
      let t' = (undo_all h ms t).0 in
      let last =
        undo_lem wide m s t' f
          (Layered-map (λ p a. Or P m p a ⊎ At ms p a) (Or wide m) s t' widen rest.layered)
          (is_mounted h m t') refl in
      record {
        layered = Layered-map (Or wide m) wide s (undo h m t').0 narrow last.layered;
        clean = λ b.
            let (x, y) = and_true (undo_all h ms t).1 (undo h m t').1 b in
            (undo_lem P m s t' f (rest.clean x) (is_mounted h m t') refl).clean y;
        journal = last.journal ∙ rest.journal;
      }
    where
      regroup : (p : ℕ) (a : String) → P p a ⊎ At (m ∷ ms) p a → Or P m p a ⊎ At ms p a
      regroup p a (inl x) = inl (inl x)
      regroup p a (inr (inl x)) = inl (inr x)
      regroup p a (inr (inr x)) = inr x

      widen :
          (p : ℕ) (a : String) → Or P m p a ⊎ At ms p a → Or (λ p a. P p a ⊎ At (m ∷ ms) p a) m p a
      widen p a (inl (inl x)) = inl (inl x)
      widen p a (inl (inr x)) = inr x
      widen p a (inr x) = inl (inr (inr x))

      narrow :
          (p : ℕ) (a : String) → Or (λ p a. P p a ⊎ At (m ∷ ms) p a) m p a → P p a ⊎ At (m ∷ ms) p a
      narrow p a (inl x) = x
      narrow p a (inr x) = inr (inl x)
