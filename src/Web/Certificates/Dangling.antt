-- ===== src/Web/Certificates/Dangling.antt =====
-- The inventory on disk and the objects beside it.
use kernel_su_tun2proxy.Prelude.{
  ℕ, String, str_eq, Bool, not, List, [], ◌∷◌, Option, none, some, if◌then◌else◌, ◌≡◌, ◌≢◌, refl,
  sym, subst, ap, ◌∙◌, Bool-cases, inl, inr, eq_iff, str_refl, str_ne, ne_str, some_eq,
}
use kernel_su_tun2proxy.Prelude.Exec.{
  returned, failed, Ensures, sequence, guard_rule, if_rule, on_every_path,
}
use kernel_su_tun2proxy.Web.Certificates.{
  Certificate, Entry, Inventory, Dir, valid_id, lookup, delete_key, save, write_object,
  remove_object, put, without, delete, delete_entry, put_entry, with_entry, remove_found,
  invalid_id, still_managed,
}

-- Every entry has its object.
abbrev pub HasObjects : Inventory → List (String × String) → Type 0
HasObjects v objects =
    (i : String) (e : Entry)
    → lookup i v.entries ≡ some e
    → (pem : String) × (lookup i objects ≡ some pem)

abbrev pub OnDisk : Dir → Type 0
OnDisk d = (v : Inventory) → d.inventory ≡ some v → HasObjects v d.objects

module _ {A : Type 0} where
  lookup-delete_key-same : (k : String) (es : List (String × A)) → lookup k (delete_key k es) ≡ none
  lookup-delete_key-same k [] = refl
  lookup-delete_key-same k (e ∷ es) = elim (Bool-cases (str_eq e.0 k)) [
    | inl y ↦ rw y (lookup-delete_key-same k es)
    | inr n ↦ rw n (rw n (lookup-delete_key-same k es))
  ]

  pub lookup-delete_key :
      (k j : String) (es : List (String × A)) → j ≢ k → lookup j (delete_key k es) ≡ lookup j es
  lookup-delete_key k j [] h = refl
  lookup-delete_key k j (e ∷ es) h = elim (Bool-cases (str_eq e.0 k)) [
    | inl y ↦
        rw (y, ne_str e.0 j (λ s. h (cc (s, (eq_iff e.0 k).0 y)))) (lookup-delete_key k j es h)
    | inr n ↦ rw n (ap (λ r. if str_eq e.0 j then some e.1 else r) (lookup-delete_key k j es h))
  ]

-- An object beside the others.
lookup-write :
    (i j pem : String) (objects : List (String × String)) {old : String}
    → lookup j objects ≡ some old
    → (p : String) × (lookup j ((i, pem) ∷ delete_key i objects) ≡ some p)
lookup-write i j pem objects {old} h = elim (Bool-cases (str_eq i j)) [
  | inl y ↦ (pem, rw y refl)
  | inr n ↦ (old, rw n (lookup-delete_key i j objects (λ e. str_ne i j n (sym e)) ∙ h))
]

module _ (fails : ℕ → Bool) where
  write_object_lem :
      (i pem : String) (v : Inventory) (d : Dir)
      → OnDisk d
      → HasObjects v d.objects
      → Ensures
          (λ _ t.
            OnDisk t × HasObjects v t.objects × ((p : String) × (lookup i t.objects ≡ some p)))
          (λ _ t. OnDisk t)
          (write_object fails i pem d)
  unfolding write_object
  write_object_lem i pem v d o h =
      if_rule (fails d.changes) _ _ (λ e. failed o)
        (λ e. returned (
          (λ w s j x l. lookup-write i j pem d.objects (o w s j x l).1),
          (λ j x l. lookup-write i j pem d.objects (h j x l).1),
          (pem, rw (str_refl i) refl),
        ))

  with_entry-HasObjects :
      (v : Inventory) (c : Certificate) (source : String) (objects : List (String × String))
      → HasObjects v objects
      → (p : String) × (lookup c.id objects ≡ some p)
      → HasObjects (with_entry v c source) objects
  with_entry-HasObjects v c source objects h o j e l = elim (Bool-cases (str_eq c.id j)) [
    | inl y ↦ subst (λ x. (p : String) × (lookup x objects ≡ some p)) ((eq_iff c.id j).0 y) o
    | inr n ↦ h j e (rw n at l)
  ]

  -- `Put` keeps an object for every entry, of the inventory on disk and of the one it returns, which
  -- the caller saves; a failure keeps one for every entry on disk.
  pub put-HasObjects :
      (v : Inventory) (c : Certificate) (source : String) (d : Dir)
      → OnDisk d
      → HasObjects v d.objects
      → Ensures
          (λ w t. OnDisk t × HasObjects w t.objects)
          (λ _ t. OnDisk t)
          (put fails v c source d)
  unfolding put
  put-HasObjects v c source d o h =
      guard_rule (not (valid_id c.id)) invalid_id _ d (λ b. o) λ b. by_entry (lookup c.id v.entries)
    where
      by_entry :
          (x : Option Entry)
          → Ensures
              (λ w t. OnDisk t × HasObjects w t.objects)
              (λ _ t. OnDisk t)
              (put_entry fails v c source x d)
      by_entry (some e) = returned (o, h)
      by_entry none =
          sequence (write_object fails c.id c.pem d) _ (write_object_lem c.id c.pem v d o h)
            λ u t (k, l, p). returned (k, with_entry-HasObjects v c source t.objects l p)

  without-lookup :
      (i j : String) (v : Inventory) (e : Entry)
      → lookup j (delete_key i v.entries) ≡ some e
      → (j ≢ i) × (lookup j v.entries ≡ some e)
  without-lookup i j v e l =
      let other : j ≢ i = λ s. absurd (cc (lookup-delete_key-same i v.entries)) in
      (other, sym (lookup-delete_key i j v.entries other) ∙ l)

  -- `Delete` never leaves an entry on disk without its object, at whichever change it fails.
  pub delete-OnDisk :
      (v : Inventory) (i : String) (d : Dir)
      → OnDisk d
      → HasObjects v d.objects
      → OnDisk (delete fails v i d).0
  unfolding delete delete_entry save remove_object
  delete-OnDisk v i d o h =
      on_every_path
        (guard_rule (not (valid_id i)) invalid_id _ d (λ b. o) λ b. by_entry (lookup i v.entries))
    where
      object :
          (t : Dir)
          → t.inventory ≡ some (without v i)
          → (w : Inventory) → t.inventory ≡ some w
          → (j : String) (e : Entry) → lookup j w.entries ≡ some e
          → (j ≢ i) × ((p : String) × (lookup j d.objects ≡ some p))
      object t s w f j e l =
          let q : without v i ≡ w = some_eq (sym s ∙ f) in
          let (n, m) = without-lookup i j v e (ap (λ x. lookup j x.entries) q ∙ l) in (n, h j e m)

      kept : (t : Dir) → t.inventory ≡ some (without v i) → t.objects ≡ d.objects → OnDisk t
      kept t s k w f j e l = let (n, (p, r)) = object t s w f j e l in (p, ap (lookup j) k ∙ r)

      removed :
          (t : Dir)
          → t.inventory ≡ some (without v i)
          → t.objects ≡ d.objects
          → (x : Option String)
          → Ensures (λ _ t. OnDisk t) (λ _ t. OnDisk t) (remove_found fails i x t)
      removed t s k none = failed (kept t s k)
      removed t s k (some pem) = returned λ w f j e l.
          let (n, (p, r)) = object t s w f j e l in
          (p, lookup-delete_key i j t.objects n ∙ ap (lookup j) k ∙ r)

      by_entry :
          (x : Option Entry)
          → Ensures (λ _ t. OnDisk t) (λ _ t. OnDisk t) (delete_entry fails v i x d)
      by_entry none = failed o
      by_entry (some e) =
          guard_rule e.managed still_managed _ d (λ b. o)
            λ b.
              sequence {Q = λ _ t. (t.inventory ≡ some (without v i)) × (t.objects ≡ d.objects)}
                (save fails (without v i) d) _
                (if_rule (fails d.changes) _ _ (λ e. failed o) (λ e. returned (refl, refl)))
                λ u t (s, k).
                  if_rule (fails t.changes) _ _ (λ e. failed (kept t s k))
                    (λ e. removed t s k (lookup i t.objects))
