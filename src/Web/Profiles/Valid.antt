-- ===== src/Web/Profiles/Valid.antt =====
-- Index of profiles: what `readProfiles` accepts, said without its loop.
use kernel_su_tun2proxy.Prelude.{
  String, str_eq, true, false, not, List, [], ◌∷◌, length, ◌==◌, ==_iff, ◌≡◌, ◌≢◌, ◌↔◌, inl, inr,
  refl, sym, subst, and_true4, arith, or_true, not-true, true_ne, str_ne, ne_str, str_refl, eq_iff,
  Bool-cases,
}
use kernel_su_tun2proxy.Web.Profiles.{
  ConnectionProfile, ProfileSet, elem, profiles_ok, found, profile_set_ok,
}

-- No profile has this identifier.
abbrev pub IsUnused : String → List ConnectionProfile → Type 0
IsUnused i [] = Unit
IsUnused i (v ∷ vs) = (v.id ≢ i) × IsUnused i vs

-- Every profile has an identifier of its own, and a name.
abbrev pub AreSound : List ConnectionProfile → Type 0
AreSound [] = Unit
AreSound (v ∷ vs) = (v.id ≢ "") × (v.name ≢ "") × IsUnused v.id vs × AreSound vs

abbrev pub IsValid : ProfileSet → Type 0
IsValid p = (p.version ≡ 1) × AreSound p.profiles × (found p.active_id p.profiles ≡ true)

pub profiles_ok-AreSound :
    (ids : List String) (vs : List ConnectionProfile)
    → profiles_ok ids vs ≡ true
    → AreSound vs × ((i : String) → elem i ids ≡ true → IsUnused i vs)
profiles_ok-AreSound ids [] h = (tt, λ i e. tt)
profiles_ok-AreSound ids (v ∷ vs) h =
    let (a, b, c, d) =
      and_true4 (not (str_eq v.id "")) (not (elem v.id ids)) (not (str_eq v.name ""))
        (profiles_ok (v.id ∷ ids) vs) h in
    let (sound, unused) = profiles_ok-AreSound (v.id ∷ ids) vs d in
    (
      (
        str_ne v.id "" (not-true _ a),
        str_ne v.name "" (not-true _ c),
        unused v.id (or_left v.id ids),
        sound,
      ),
      λ i e. (
        λ same. true_ne _ (subst (λ x. elem x ids ≡ true) (sym same) e) (not-true _ b),
        unused i (or_right i v.id ids e),
      ),
    )
  where
    or_left : (i : String) (ids : List String) → elem i (i ∷ ids) ≡ true
    or_left i ids = rw (str_refl i) refl

    or_right : (i j : String) (ids : List String) → elem i ids ≡ true → elem i (j ∷ ids) ≡ true
    or_right i j ids h = elim (Bool-cases (str_eq i j)) [
      | inl e ↦ rw e refl
      | inr e ↦ rw (e, h) refl
    ]

pub AreSound-profiles_ok :
    (ids : List String) (vs : List ConnectionProfile)
    → AreSound vs
    → ((i : String) → elem i ids ≡ true → IsUnused i vs)
    → profiles_ok ids vs ≡ true
AreSound-profiles_ok ids [] s u = refl
AreSound-profiles_ok ids (v ∷ vs) (a, c, own, s) u =
    let absent : elem v.id ids ≡ false = elim (Bool-cases (elem v.id ids)) [
      | inl e ↦ absurd ((u v.id e).0 refl)
      | inr e ↦ e
    ] in
    rw (ne_str v.id "" a, absent, ne_str v.name "" c)
      (AreSound-profiles_ok (v.id ∷ ids) vs s (λ i e.
        elim (or_true (str_eq i v.id) (elem i ids) e) [
          | inl same ↦ subst (λ x. IsUnused x vs) (sym ((eq_iff i v.id).0 same)) own
          | inr old ↦ (u i old).1
        ]))

found-length :
    (a : String) (vs : List ConnectionProfile) → found a vs ≡ true → (length vs == 0) ≡ false
found-length a [] h = absurd (cc)
found-length a (v ∷ vs) h = ground arith

-- `readProfiles` accepts exactly the sets of version 1 whose profiles have distinct non-empty
-- identifiers and non-empty names, and whose active profile is one of them.
pub profile_set_ok_iff : (p : ProfileSet) → (profile_set_ok p ≡ true) ↔ IsValid p
unfolding profile_set_ok
profile_set_ok_iff p = (
  λ h.
      let (a, b, c, d) =
        and_true4 (p.version == 1) (not (length p.profiles == 0)) (profiles_ok [] p.profiles)
          (found p.active_id p.profiles) h in
      ((==_iff p.version 1).0 a, (profiles_ok-AreSound [] p.profiles c).0, d),
  λ h.
      let (a, s, f) = h in
      rw
        (
          (==_iff p.version 1).1 a,
          found-length p.active_id p.profiles f,
          AreSound-profiles_ok [] p.profiles s (λ i e. absurd (cc)),
          f,
        )
        refl,
)
