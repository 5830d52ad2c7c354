-- ===== src/Web/Mounts/Removal.antt =====
-- cert_mount.go: the layers that `removeTrust` takes off.
use kernel_su_tun2proxy.Prelude.{
  ℕ, zero, suc, String, str_eq, Bool, true, false, List, [], ◌∷◌, some, get_elem?, ◌≡◌, ◌⊎◌, inl,
  inr, refl, ap, sym, ◌∙◌, subst, Bool-cases, some_eq, ◌==◌, ==_iff, eq_iff, ◌&&◌, and_true,
}
use kernel_su_tun2proxy.Prelude.Exec.{
  continue, returned, failed, Ensures, sequence, weaken, if_rule, last_guard,
}
use kernel_su_tun2proxy.Web.Mounts.{
  MountState, TrustEnvironment, Host, State, newest, owned_root, done, saved, save_mounts, umount,
  is_owned, remove_layers, remove_targets, remove_namespaces, remove_trust, umount_failed,
  not_saved, too_many_layers,
}

-- What umount does to the layers of a mount point: it takes off the newest, or fails.
abbrev pub Unmounted : Bool → List String → List String → Type 0
Unmounted true before after = (r : String) × (before ≡ r ∷ after)
Unmounted false before after = after ≡ before

abbrev pub same_place : ℕ → String → ℕ → String → Bool
same_place p a q b = (p == q) && str_eq a b

pub same_place_lem :
    (p : ℕ) (a : String) (q : ℕ) (b : String) → same_place p a q b ≡ true → (p ≡ q) × (a ≡ b)
same_place_lem p a q b e = let (x, y) = and_true _ _ e in ((==_iff p q).0 x, (eq_iff a b).0 y)

-- What umount at one place, which takes off the layer `r` or fails, does at another: nothing, or, if
-- that layer is the newest there, it comes off there too.
abbrev pub Follows : Bool → String → List String → List String → Type 0
Follows b r before after = (after ≡ before) ⊎ ((b ≡ true) × (before ≡ r ∷ after))

-- Processes may share a namespace, and mounts may propagate from one namespace to another.
pub record Umounts {W : Type 0} (h : Host W) : Type 0 where
  pub there :
      (pid : ℕ) (target : String) (w : W)
      → Unmounted
          (h.umount pid target w).1
          (h.roots pid target w)
          (h.roots pid target (h.umount pid target w).0)
  pub elsewhere :
      (pid : ℕ) (target : String) (w : W) (p : ℕ) (t : String)
      → same_place p t pid target ≡ false
      → Follows
          (h.umount pid target w).1
          (newest (h.roots pid target w))
          (h.roots p t w)
          (h.roots p t (h.umount pid target w).0)
  pub save :
      (j : MountState) (w : W) (p : ℕ) (t : String) → h.roots p t (h.save j w).0 ≡ h.roots p t w

module _ {W : Type 0} (h : Host W) where
  -- Layers of our own taken off the newest ones.
  pub data Popped : List String → List String → Type 0 where
    same : {rs : List String} → Popped rs rs
    pop :
        {r : String} {rs qs : List String}
        → owned_root h r ≡ true
        → Popped rs qs
        → Popped (r ∷ rs) qs

  Popped-trans : {a b c : List String} → Popped a b → Popped b c → Popped a c
  Popped-trans same q = q
  Popped-trans (pop o p) q = pop o (Popped-trans p q)

  -- Nothing comes off where the newest layer is not ours.
  Popped-stays : {a b : List String} → Popped a b → owned_root h (newest a) ≡ false → b ≡ a
  Popped-stays same e = refl
  Popped-stays (pop o p) e = absurd (cc)

  abbrev pub Cleaner : State W → State W → Type 0
  Cleaner s t = (p : ℕ) (a : String) → Popped (h.roots p a s.world) (h.roots p a t.world)

  pub Cleaner-refl : (s : State W) → Cleaner s s
  Cleaner-refl s p a = same

  pub Cleaner-trans : (s t u : State W) → Cleaner s t → Cleaner t u → Cleaner s u
  Cleaner-trans s t u f g p a = Popped-trans (f p a) (g p a)

  -- The newest layer at some mount points is not ours.
  abbrev pub Free : ℕ → List String → State W → Type 0
  Free pid targets t =
      (i : ℕ) (a : String) → get_elem? targets i ≡ some a → is_owned h pid a t ≡ false

  abbrev pub AllFree : List ℕ → List String → State W → Type 0
  AllFree pids targets t = (i p : ℕ) → get_elem? pids i ≡ some p → Free p targets t

  Free-stays :
      (pid : ℕ) (targets : List String) (t u : State W)
      → Cleaner t u
      → Free pid targets t
      → Free pid targets u
  Free-stays pid targets t u c f i a e =
      ap (λ rs. owned_root h (newest rs)) (Popped-stays (c pid a) (f i a e)) ∙ f i a e

  module _ (laws : Umounts h) where
    umount_lem :
        (pid : ℕ) (target : String) (s : State W)
        → is_owned h pid target s ≡ true
        → Ensures (λ _ t. Cleaner s t) (λ _ t. Cleaner s t) (umount h pid target s)
    unfolding umount
    umount_lem pid target s o =
        unmounted (h.umount pid target s.world).1 (laws.there pid target s.world)
      where
        v : W
        v = (h.umount pid target s.world).0

        popped :
            (b : Bool) (before after : List String)
            → owned_root h (newest before) ≡ true
            → Unmounted b before after
            → Popped before after
        popped true before after o (r, e) = rw e (pop (rw e at o) same)
        popped false before after o e = rw e same

        cleaner :
            (b : Bool)
            → Unmounted b (h.roots pid target s.world) (h.roots pid target v)
            → Cleaner s (record s { world = v })
        cleaner b u p a = elim (Bool-cases (same_place p a pid target)) [
          | inl e ↦ let (x, y) = same_place_lem p a pid target e in rw (x, y) (popped b _ _ o u)
          | inr e ↦ elim (laws.elsewhere pid target s.world p a e) [
            | inl stays ↦ rw stays same
            | inr (_, off) ↦ rw off (pop o same)
          ]
        ]

        unmounted :
            (b : Bool)
            → Unmounted b (h.roots pid target s.world) (h.roots pid target v)
            → Ensures
                (λ _ t. Cleaner s t)
                (λ _ t. Cleaner s t)
                (done h b umount_failed (record s { world = v }))
        unmounted true u = returned (cleaner true u)
        unmounted false u = failed (cleaner false u)

    remove_layers_lem :
        (pid : ℕ) (target : String) (n : ℕ) (s : State W)
        → Ensures
            (λ _ t. Cleaner s t × (is_owned h pid target t ≡ false))
            (λ _ t. Cleaner s t)
            (remove_layers h pid target n s)
    unfolding remove_layers
    remove_layers_lem pid target zero s =
        last_guard (is_owned h pid target s) too_many_layers s (λ _. Cleaner-refl s)
          (λ e. (Cleaner-refl s, e))
    remove_layers_lem pid target (suc n) s =
        if_rule (is_owned h pid target s) _ _
          (λ o. sequence {Q = λ _ t. Cleaner s t} _ _ (umount_lem pid target s o) (λ _ t c.
            weaken (remove_layers_lem pid target n t) (λ _ u (d, e). (Cleaner-trans s t u c d, e))
              (λ _ u d. Cleaner-trans s t u c d)))
          (λ e. returned (Cleaner-refl s, e))

    remove_targets_lem :
        (pid : ℕ) (targets : List String) (s : State W)
        → Ensures
            (λ _ t. Cleaner s t × Free pid targets t)
            (λ _ t. Cleaner s t)
            (remove_targets h pid targets s)
    unfolding remove_targets
    remove_targets_lem pid [] s = returned (Cleaner-refl s, λ i a e. absurd (cc))
    remove_targets_lem pid (x ∷ xs) s =
        sequence {Q = λ _ t. Cleaner s t × (is_owned h pid x t ≡ false)} _ _
          (remove_layers_lem pid x 64 s)
          (λ _ t (c, e).
            weaken (remove_targets_lem pid xs t)
              (λ _ u (d, f). (Cleaner-trans s t u c d, both t u e d f))
              (λ _ u d. Cleaner-trans s t u c d))
      where
        both :
            (t u : State W)
            → is_owned h pid x t ≡ false
            → Cleaner t u
            → Free pid xs u
            → Free pid (x ∷ xs) u
        both t u e d f zero a g =
            subst (λ b. is_owned h pid b u ≡ false) (some_eq g)
              (ap (λ rs. owned_root h (newest rs)) (Popped-stays (d pid x) e) ∙ e)
        both t u e d f (suc i) a g = f i a g

    remove_namespaces_lem :
        (pids : List ℕ) (targets : List String) (s : State W)
        → Ensures
            (λ _ t. Cleaner s t × AllFree pids targets t)
            (λ _ t. Cleaner s t)
            (remove_namespaces h pids targets s)
    unfolding remove_namespaces
    remove_namespaces_lem [] targets s = returned (Cleaner-refl s, λ i p e. absurd (cc))
    remove_namespaces_lem (x ∷ xs) targets s =
        sequence {Q = λ _ t. Cleaner s t × Free x targets t} _ _ (remove_targets_lem x targets s)
          (λ _ t (c, e).
            weaken (remove_namespaces_lem xs targets t)
              (λ _ u (d, f). (Cleaner-trans s t u c d, both t u e d f))
              (λ _ u d. Cleaner-trans s t u c d))
      where
        both :
            (t u : State W)
            → Free x targets t
            → Cleaner t u
            → AllFree xs targets u
            → AllFree (x ∷ xs) targets u
        both t u e d f zero p g =
            subst (λ q. Free q targets u) (some_eq g) (Free-stays x targets t u d e)
        both t u e d f (suc i) p g = f i p g

    pub save_mounts_lem :
        (j : MountState) (s : State W)
        → Ensures
            (λ _ t.
              ((p : ℕ) (a : String) → h.roots p a t.world ≡ h.roots p a s.world)
              × (t.journal ≡ some j))
            (λ _ t.
              ((p : ℕ) (a : String) → h.roots p a t.world ≡ h.roots p a s.world)
              × (t.journal ≡ s.journal))
            (save_mounts h j s)
    unfolding save_mounts
    save_mounts_lem j s = answered (h.save j s.world).1
      where
        v : W
        v = (h.save j s.world).0

        answered :
            (b : Bool)
            → Ensures
                (λ _ t.
                  ((p : ℕ) (a : String) → h.roots p a t.world ≡ h.roots p a s.world)
                  × (t.journal ≡ some j))
                (λ _ t.
                  ((p : ℕ) (a : String) → h.roots p a t.world ≡ h.roots p a s.world)
                  × (t.journal ≡ s.journal))
                (done h b not_saved (saved h b j (record s { world = v })))
        answered true = returned (laws.save j s.world, refl)
        answered false = failed (laws.save j s.world, refl)

    -- On every path `removeTrust` takes only our own layers off, each from the top of its mount point,
    -- and this holds of every process and every path, also where a namespace is shared or an umount
    -- propagates. Where it returns nil, the newest layer of each target in each namespace is not ours
    -- and the journal has no mounts.
    pub remove_trust_lem :
        (d : TrustEnvironment) (s : State W)
        → h.detect s.world ≡ some d
        → Ensures
            (λ _ t.
              Cleaner s t
              × AllFree d.namespaces d.targets t
              × ((boot : String) × (t.journal ≡ some (record { boot = boot; mounts = [] }))))
            (λ _ t. Cleaner s t)
            (remove_trust h s)
    unfolding remove_trust continue
    remove_trust_lem d s e = rw e (
        sequence {Q = λ _ t. Cleaner s t × AllFree d.namespaces d.targets t} _ _
          (remove_namespaces_lem d.namespaces d.targets s)
          (λ _ t (c, f).
            weaken (save_mounts_lem (record { boot = h.boot_id t.world; mounts = [] }) t)
              (λ _ u (r, j). (
                kept t u c r,
                (λ i p g k a q. ap (λ rs. owned_root h (newest rs)) (r p a) ∙ f i p g k a q),
                (h.boot_id t.world, j),
              ))
              (λ _ u (r, j). kept t u c r)))
      where
        kept :
            (t u : State W)
            → Cleaner s t
            → ((p : ℕ) (a : String) → h.roots p a u.world ≡ h.roots p a t.world)
            → Cleaner s u
        kept t u c r p a = subst (λ rs. Popped (h.roots p a s.world) rs) (sym (r p a)) (c p a)
