-- ===== src/Web/Backend/Uids.antt =====
-- The UIDs that `ebpfConfig` makes of the selected packages.
use kernel_su_tun2proxy.Prelude.{
  ℕ, zero, suc, ◌<◌, ◌≤◌, ◌^◌, ℤ, pos, negsuc, String, true, false, List, [], ◌∷◌, Option, none,
  some, get_elem?, ltb, ◌==◌, ◌≡◌, ◌⊎◌, inl, inr, refl, sym, arith, or_true, or_false, Bool-cases,
  true_ne, some_eq, ==_iff, subst,
}
use native.Mathlib.Nat.{mod-eq_of_lt}
use kernel_su_tun2proxy.Prelude.Exec.{
  ok, returned, failed, Ensures, sequence, if_exec_rule, Ensures-ok,
}
use kernel_su_tun2proxy.Web.Backend.{
  AppEntry, known_uid, elem_uid, checked_uid, app_uid, selected_uids,
}

abbrev pub Distinct : List ℕ → Type 0
Distinct [] = Unit
Distinct (n ∷ ns) = (elem_uid n ns ≡ false) × Distinct ns

-- What the loop makes of `pkgs`: distinct UIDs of applications, none seen before, and the UID of
-- each package among those or among the seen.
abbrev pub Selected : List AppEntry → List ℕ → List String → List ℕ → Type 0
Selected apps seen pkgs uids =
    Distinct uids
    × ((n : ℕ) → elem_uid n uids ≡ true → (elem_uid n seen ≡ false) × (10000 ≤ n))
    × ((i : ℕ) (pkg : String)
        → get_elem? pkgs i ≡ some pkg
        → (n : ℕ) × (known_uid pkg apps ≡ some (pos n))
          × ((elem_uid n seen ≡ true) ⊎ (elem_uid n uids ≡ true)))

checked_uid_lem :
    (pkg : String) (o : Option ℤ) (u : Unit {0})
    → Ensures (λ n _. (o ≡ some (pos n)) × (10000 ≤ n)) (λ _ _. Unit) (checked_uid pkg o u)
checked_uid_lem pkg none u = failed tt
checked_uid_lem pkg (some (negsuc n)) u = failed tt
checked_uid_lem pkg (some (pos n)) u =
    if_exec_rule (ltb n 10000) _ _ u (λ e. failed tt) (λ e. returned (refl, ground arith))

same_uid : (n : ℕ) → (n == n) ≡ true
same_uid n = (==_iff n n).1 refl

elem-cons : (n m : ℕ) (ns : List ℕ) → elem_uid n ns ≡ true → elem_uid n (m ∷ ns) ≡ true
elem-cons n m ns h = elim (Bool-cases (n == m)) [ inl e ↦ rw e refl | inr e ↦ rw (e, h) refl ]

old_uid :
    (apps : List AppEntry) (seen uids : List ℕ) (pkg : String) (pkgs : List String) (m : ℕ)
    → known_uid pkg apps ≡ some (pos m)
    → elem_uid m seen ≡ true
    → Selected apps seen pkgs uids
    → Selected apps seen (pkg ∷ pkgs) uids
old_uid apps seen uids pkg pkgs m k old (d, a, c) = (d, a, at)
  where
    at :
        (i : ℕ) (p : String)
        → get_elem? (pkg ∷ pkgs) i ≡ some p
        → (n : ℕ) × (known_uid p apps ≡ some (pos n))
          × ((elem_uid n seen ≡ true) ⊎ (elem_uid n uids ≡ true))
    at zero p h = (m, subst (λ x. known_uid x apps ≡ some (pos m)) (some_eq h) k, inl old)
    at (suc i) p h = c i p h

new_uid :
    (apps : List AppEntry) (seen uids : List ℕ) (pkg : String) (pkgs : List String) (m : ℕ)
    → known_uid pkg apps ≡ some (pos m)
    → 10000 ≤ m
    → elem_uid m seen ≡ false
    → Selected apps (m ∷ seen) pkgs uids
    → Selected apps seen (pkg ∷ pkgs) (m ∷ uids)
new_uid apps seen uids pkg pkgs m k big new (d, a, c) = ((absent, d), bounds, at)
  where
    absent : elem_uid m uids ≡ false
    absent = elim (Bool-cases (elem_uid m uids)) [
      | inl e ↦ absurd (true_ne (elem_uid m (m ∷ seen)) (rw (same_uid m) refl) (a m e).0)
      | inr e ↦ e
    ]

    bounds : (n : ℕ) → elem_uid n (m ∷ uids) ≡ true → (elem_uid n seen ≡ false) × (10000 ≤ n)
    bounds n h = elim (or_true (n == m) (elem_uid n uids) h) [
      | inl e ↦
          subst (λ x. (elem_uid x seen ≡ false) × (10000 ≤ x)) (sym ((==_iff n m).0 e)) (new, big)
      | inr e ↦ ((or_false (n == m) (elem_uid n seen) (a n e).0).1, (a n e).1)
    ]

    at :
        (i : ℕ) (p : String)
        → get_elem? (pkg ∷ pkgs) i ≡ some p
        → (n : ℕ) × (known_uid p apps ≡ some (pos n))
          × ((elem_uid n seen ≡ true) ⊎ (elem_uid n (m ∷ uids) ≡ true))
    at zero p h =
        (m, subst (λ x. known_uid x apps ≡ some (pos m)) (some_eq h) k, inr (rw (same_uid m) refl))
    at (suc i) p h =
        let (n, e, o) = c i p h in
        (
          n,
          e,
          elim o [
            | inr now ↦ inr (elem-cons n m uids now)
            | inl before ↦ elim (or_true (n == m) (elem_uid n seen) before) [
              | inl same ↦ inr (rw same refl)
              | inr old ↦ inl old
            ]
          ],
        )

-- Every known UID fits in a uint32.
abbrev pub Fits : List AppEntry → Type 0
Fits apps = (pkg : String) (n : ℕ) → known_uid pkg apps ≡ some (pos n) → n < 2 ^ 32

selected_uids_after :
    (apps : List AppEntry) (fits : Fits apps) (seen : List ℕ) (pkgs : List String) (u : Unit {0})
    → Ensures
        (λ uids _. Selected apps seen pkgs uids)
        (λ _ _. Unit)
        (selected_uids apps seen pkgs u)
unfolding selected_uids
selected_uids_after apps fits seen [] u = returned (tt, (λ n h. absurd (cc)), λ i p h. absurd (cc))
selected_uids_after apps fits seen (pkg ∷ pkgs) u =
    sequence (app_uid apps pkg u) _ (checked_uid_lem pkg (known_uid pkg apps) u) λ m v (k, big).
      elim (Bool-cases (elem_uid m seen)) [
        | inl e ↦ rw e (
            sequence (selected_uids apps seen pkgs v) _ (selected_uids_after apps fits seen pkgs v)
              λ uids w s. returned (old_uid apps seen uids pkg pkgs m k e s))
        | inr e ↦ rw e (
            sequence (selected_uids apps (m ∷ seen) pkgs v) _
              (selected_uids_after apps fits (m ∷ seen) pkgs v)
              λ uids w s. returned (
                subst (λ x. Selected apps seen (pkg ∷ pkgs) (x ∷ uids))
                  (sym (mod-eq_of_lt (fits pkg m k)))
                  (new_uid apps seen uids pkg pkgs m k big e s)))
      ]

-- Where the loop over the selected packages returns, and the UIDs of the packages fit in a uint32,
-- each selected package has a UID among those it returns, and these are distinct and at least
-- 10000.
pub selected_uids_lem :
    (apps : List AppEntry) (pkgs : List String) {uids : List ℕ}
    → Fits apps
    → (selected_uids apps [] pkgs tt).1 ≡ ok uids
    → Distinct uids
      × ((n : ℕ) → elem_uid n uids ≡ true → 10000 ≤ n)
      × ((i : ℕ) (pkg : String)
          → get_elem? pkgs i ≡ some pkg
          → (n : ℕ) × (known_uid pkg apps ≡ some (pos n)) × (elem_uid n uids ≡ true))
selected_uids_lem apps pkgs fits h =
    let (d, b, c) =
      Ensures-ok (selected_uids apps [] pkgs tt) (selected_uids_after apps fits [] pkgs tt) h in
    (
      d,
      (λ n e. (b n e).1),
      λ i pkg g. let (n, k, o) = c i pkg g in (n, k, elim o [ inl e ↦ absurd (cc) | inr e ↦ e ]),
    )
