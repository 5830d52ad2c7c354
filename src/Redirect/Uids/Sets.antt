-- ===== src/Redirect/Uids/Sets.antt =====
-- loader_linux.go: `UID` as operations on a set of UIDs. A map of the kernel is described by what
-- each call leaves in it.
use kernel_su_tun2proxy.Prelude.{
  ℕ, String, str_eq, Bool, true, false, not, ◌&&◌, ◌||◌, List, [], ◌∷◌, ◌==◌, ◌≡◌, refl, sym, ap,
  ◌∙◌, Bool-cases, inl, inr, and_true, ==_iff, if◌then◌else◌,
}
use kernel_su_tun2proxy.Prelude.Exec.{returned, failed, Ensures, sequence, weaken, raise}
use kernel_su_tun2proxy.Redirect.Manager.{
  Kernel, State, target_uid, Deletion, deleted, no_key, delete_failed, put_map, checked,
  set_written, put_failed, bad_action,
}
use kernel_su_tun2proxy.Redirect.Uids.{
  uids, delete, unless_missing, must_be_deleted, clear, uid_del, uid_clear, uid,
}

abbrev pub elem : ℕ → List ℕ → Bool
elem n [] = false
elem n (m ∷ ms) = (n == m) || elem n ms

-- What a deletion leaves in a set.
abbrev pub Deleted : Deletion → ℕ → (ℕ → Bool) → (ℕ → Bool) → Type 0
Deleted deleted u before after = (n : ℕ) → after n ≡ (not (n == u) && before n)
Deleted no_key u before after = (before u ≡ false) × ((n : ℕ) → after n ≡ before n)
Deleted delete_failed u before after = (n : ℕ) → after n ≡ before n

abbrev pub Added : Bool → ℕ → (ℕ → Bool) → (ℕ → Bool) → Type 0
Added true u before after = (n : ℕ) → after n ≡ ((n == u) || before n)
Added false u before after = (n : ℕ) → after n ≡ before n

-- What target_uid_map holds, and what the calls on it do.
pub record UidMap {W : Type 0} (k : Kernel W) (sort : List ℕ → List ℕ) : Type 0 where
  pub holds : W → ℕ → Bool
  pub put :
      (u : ℕ) (w : W)
      → Added (k.put (target_uid u) w).1 u (holds w) (holds (k.put (target_uid u) w).0)
  pub delete :
      (u : ℕ) (w : W) → Deleted (k.delete_uid u w).1 u (holds w) (holds (k.delete_uid u w).0)
  -- The iterator gives keys of the map, and all of them unless it ends with an error.
  pub sound : (w : W) (n : ℕ) → elem n (k.uid_keys w).1.0 ≡ true → holds w n ≡ true
  pub complete :
      (w : W) (n : ℕ)
      → (k.uid_keys w).1.1 ≡ true
      → holds w n ≡ true
      → elem n (k.uid_keys w).1.0 ≡ true
  pub unchanged : (w : W) (n : ℕ) → holds (k.uid_keys w).0 n ≡ holds w n
  pub sorted : (ns : List ℕ) (n : ℕ) → elem n (sort ns) ≡ elem n ns

-- The set that an action leaves, where the iterator lists `listed`.
abbrev pub set_after : String → ℕ → (ℕ → Bool) → (ℕ → Bool) → ℕ → Bool
set_after action u listed before n =
    if str_eq action "add"
    then (n == u) || before n
    else if str_eq action "del"
    then not (n == u) && before n
    else not (listed n) && before n

module _ {W : Type 0} (k : Kernel W) (sort : List ℕ → List ℕ) (m : UidMap k sort) where
  abbrev held : State W → ℕ → Bool
  held s = m.holds s.world

  -- What the iterator would list.
  abbrev pub listed : State W → ℕ → Bool
  listed s n = elem n (k.uid_keys s.world).1.0

  abbrev Within : State W → State W → Type 0
  Within s t = (n : ℕ) → held t n ≡ true → held s n ≡ true

  add_lem :
      (u : ℕ) (s : State W)
      → Ensures
          (λ _ t. (n : ℕ) → held t n ≡ ((n == u) || held s n))
          (λ _ t. Within s t)
          (put_map k (target_uid u) s)
  unfolding put_map
  add_lem u s = added (k.put (target_uid u) s.world).1 (m.put u s.world)
    where
      v : State W
      v = record s { world = (k.put (target_uid u) s.world).0 }

      added :
          (b : Bool)
          → Added b u (held s) (held v)
          → Ensures
              (λ _ t. (n : ℕ) → held t n ≡ ((n == u) || held s n))
              (λ _ t. Within s t)
              (checked k b put_failed (set_written k (target_uid u) b v))
      added true h = returned h
      added false h = failed (λ n e. sym (h n) ∙ e)

  delete_lem :
      (u : ℕ) (s : State W)
      → Ensures (λ d t. Deleted d u (held s) (held t)) (λ _ t. Within s t) (delete k sort u s)
  unfolding delete
  delete_lem u s = returned (m.delete u s.world)

  missing : (u n : ℕ) (before : ℕ → Bool) → before u ≡ false → before n ≡ (not (n == u) && before n)
  missing u n before e = elim (Bool-cases (n == u)) [
    | inl q ↦ rw q (ap before ((==_iff n u).0 q) ∙ e)
    | inr q ↦ rw q refl
  ]

  del_lem :
      (u : ℕ) (s : State W)
      → Ensures
          (λ _ t. (n : ℕ) → held t n ≡ (not (n == u) && held s n))
          (λ _ t. Within s t)
          (uid_del k sort u s)
  del_lem u s = sequence _ _ (delete_lem u s) del
    where
      del :
          (d : Deletion) (t : State W)
          → Deleted d u (held s) (held t)
          → Ensures
              (λ _ t. (n : ℕ) → held t n ≡ (not (n == u) && held s n))
              (λ _ t. Within s t)
              (unless_missing k sort d t)
      del deleted t h = returned h
      del no_key t (e, h) = returned (λ n. h n ∙ missing u n (held s) e)
      del delete_failed t h = failed (λ n e. sym (h n) ∙ e)

  clear_lem :
      (us : List ℕ) (s : State W)
      → Ensures
          (λ _ t. (n : ℕ) → held t n ≡ (not (elem n us) && held s n))
          (λ _ t. Within s t)
          (clear k sort us s)
  unfolding clear
  clear_lem [] s = returned (λ n. refl)
  clear_lem (u ∷ us) s =
      sequence {Q = λ _ t. (n : ℕ) → held t n ≡ (not (n == u) && held s n)} _ _
        (sequence _ _ (delete_lem u s) (removed u s))
        (λ _ t h.
          weaken (clear_lem us t)
            (λ _ v g n.
              g n ∙ ap (λ b. not (elem n us) && b) (h n) ∙ both (n == u) (elem n us) (held s n))
            (λ _ v g n e. (and_true (not (n == u)) (held s n) (sym (h n) ∙ g n e)).1))
    where
      both : (a b c : Bool) → (not b && (not a && c)) ≡ (not (a || b) && c)
      both true true c = refl
      both true false c = refl
      both false true c = refl
      both false false c = refl

      removed :
          (u : ℕ) (s : State W) (d : Deletion) (t : State W)
          → Deleted d u (held s) (held t)
          → Ensures
              (λ _ t. (n : ℕ) → held t n ≡ (not (n == u) && held s n))
              (λ _ t. Within s t)
              (must_be_deleted k sort d t)
      removed u s deleted t h = returned h
      removed u s no_key t (e, h) = failed (λ n g. sym (h n) ∙ g)
      removed u s delete_failed t h = failed (λ n g. sym (h n) ∙ g)

  uids_lem :
      (s : State W)
      → Ensures
          (λ ns t. ((n : ℕ) → elem n ns ≡ listed s n) × ((n : ℕ) → held t n ≡ held s n))
          (λ _ t. Within s t)
          (uids k sort s)
  unfolding uids
  uids_lem s = returned (m.sorted (k.uid_keys s.world).1.0, m.unchanged s.world)

  uid_clear_lem :
      (s : State W)
      → Ensures
          (λ _ t. (n : ℕ) → held t n ≡ (not (listed s n) && held s n))
          (λ _ t. Within s t)
          (uid_clear k sort s)
  uid_clear_lem s = sequence _ _ (uids_lem s) (λ ns t (l, h).
      weaken (clear_lem ns t)
        (λ _ v g n. g n ∙ ap (λ b. not b && held t n) (l n) ∙ ap (λ b. not (listed s n) && b) (h n))
        (λ _ v g n e. sym (h n) ∙ g n e))

  neither : (b : Bool) → (b && false) ≡ false
  neither true = refl
  neither false = refl

  -- What is not listed by an iterator that ends well is not held.
  all_listed :
      (s : State W) (n : ℕ)
      → (k.uid_keys s.world).1.1 ≡ true
      → (not (listed s n) && held s n) ≡ false
  all_listed s n c = elim (Bool-cases (held s n)) [
    | inl h ↦ rw (m.complete s.world n c h) refl
    | inr h ↦ rw h (neither (not (listed s n)))
  ]

  -- "add" and "del", when they succeed, leave in target_uid_map the set that was there with the UID
  -- added, or taken out, whether it was there or not. "clear", when it succeeds, leaves what the
  -- iterator does not list; the error of an iterator that ends early is ignored, and only where it
  -- ends without one is nothing left. An action that fails adds no UID.
  pub uid_lem :
      (action : String) (u : ℕ) (s : State W)
      → Ensures
          (λ _ t.
            ((n : ℕ) → m.holds t.world n ≡ set_after action u (listed s) (m.holds s.world) n)
            × ((k.uid_keys s.world).1.1 ≡ true
                → (n : ℕ) → m.holds t.world n ≡ set_after action u (λ n. true) (m.holds s.world) n))
          (λ _ t. (n : ℕ) → m.holds t.world n ≡ true → m.holds s.world n ≡ true)
          (uid k sort action u s)
  unfolding uid
  uid_lem action u s = chosen (str_eq action "add") (str_eq action "del") (str_eq action "clear")
    where
      after : Bool → Bool → (ℕ → Bool) → ℕ → Bool
      after a d l n =
          if a
          then (n == u) || held s n
          else if d
          then not (n == u) && held s n
          else not (l n) && held s n

      chosen :
          (a d c : Bool)
          → Ensures
              (λ _ t.
                ((n : ℕ) → held t n ≡ after a d (listed s) n)
                × ((k.uid_keys s.world).1.1 ≡ true → (n : ℕ) → held t n ≡ after a d (λ n. true) n))
              (λ _ t. Within s t)
              ((if a
                  then put_map k (target_uid u)
                  else if d
                  then uid_del k sort u
                  else if c
                  then uid_clear k sort
                  else raise bad_action)
                s)
      chosen true d c = weaken (add_lem u s) (λ _ t h. (h, λ e. h)) (λ _ t h. h)
      chosen false true c = weaken (del_lem u s) (λ _ t h. (h, λ e. h)) (λ _ t h. h)
      chosen false false true =
          weaken (uid_clear_lem s) (λ _ t h. (h, λ e n. h n ∙ all_listed s n e)) (λ _ t h. h)
      chosen false false false = failed (λ n e. e)
