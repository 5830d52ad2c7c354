-- ===== src/Web/Profiles/Edits.antt =====
-- cmd/tun2proxy-web/profiles.go: the edits of the index of profiles, and its validity.
use kernel_su_tun2proxy.Prelude.{
  String, str_eq, Bool, true, false, ◌||◌, List, [], ◌∷◌, ◌++◌, some, map, ◌≡◌, ◌≢◌, inl, inr, refl,
  sym, subst, or_true, eq_iff, Bool-cases, if_case, if◌then◌else◌,
}
use kernel_su_tun2proxy.Web.Config.{Config}
use kernel_su_tun2proxy.Web.Profiles.{
  ConnectionProfile, ProfileSet, found, profile_by_id, rename, without, with_config,
}
use kernel_su_tun2proxy.Web.Profiles.Valid.{IsUnused, AreSound, IsValid}

-- Edits in place, which keep the identifiers and leave no name empty.
module _ (f : ConnectionProfile → ConnectionProfile)
    (same : (v : ConnectionProfile) → (f v).id ≡ v.id)
    (named : (v : ConnectionProfile) → v.name ≢ "" → (f v).name ≢ "") where
  map-IsUnused : (i : String) (vs : List ConnectionProfile) → IsUnused i vs → IsUnused i (map f vs)
  map-IsUnused i [] u = tt
  map-IsUnused i (v ∷ vs) (n, u) = (λ e. n (cc (same v)), map-IsUnused i vs u)

  map-AreSound : (vs : List ConnectionProfile) → AreSound vs → AreSound (map f vs)
  map-AreSound [] s = tt
  map-AreSound (v ∷ vs) (a, n, u, s) = (
    λ e. a (cc (same v)),
    named v n,
    subst (λ x. IsUnused x (map f vs)) (sym (same v)) (map-IsUnused v.id vs u),
    map-AreSound vs s,
  )

  found-map : (a : String) (vs : List ConnectionProfile) → found a (map f vs) ≡ found a vs
  found-map a [] = refl
  found-map a (v ∷ vs) = rw (same v, found-map a vs) refl

  pub map-IsValid :
      (p : ProfileSet) → IsValid p → IsValid (record p { profiles = map f p.profiles })
  map-IsValid p (n, s, a) = (n, map-AreSound p.profiles s, rw (found-map p.active_id p.profiles) a)

pub rename-IsValid :
    (p : ProfileSet) (i name : String)
    → IsValid p
    → name ≢ ""
    → IsValid (record p { profiles = rename i name p.profiles })
rename-IsValid p i name v n =
    map-IsValid (λ v. if str_eq v.id i then record v { name = name } else v) ids names p v
  where
    ids :
        (v : ConnectionProfile) → (if str_eq v.id i then record v { name = name } else v).id ≡ v.id
    ids v = if_case (λ (w : ConnectionProfile). w.id ≡ v.id) (str_eq v.id i) (λ e. refl) (λ e. refl)

    names :
        (v : ConnectionProfile)
        → v.name ≢ ""
        → (if str_eq v.id i then record v { name = name } else v).name ≢ ""
    names v h = if_case (λ (w : ConnectionProfile). w.name ≢ "") (str_eq v.id i) (λ e. n) (λ e. h)

pub with_config-IsValid :
    (p : ProfileSet) (i : String) (c : Config)
    → IsValid p
    → IsValid (record p { profiles = with_config i c p.profiles })
with_config-IsValid p i c v =
    map-IsValid (λ v. if str_eq v.id i then record v { config = c } else v) ids names p v
  where
    ids : (v : ConnectionProfile) → (if str_eq v.id i then record v { config = c } else v).id ≡ v.id
    ids v = if_case (λ (w : ConnectionProfile). w.id ≡ v.id) (str_eq v.id i) (λ e. refl) (λ e. refl)

    names :
        (v : ConnectionProfile)
        → v.name ≢ ""
        → (if str_eq v.id i then record v { config = c } else v).name ≢ ""
    names v h = if_case (λ (w : ConnectionProfile). w.name ≢ "") (str_eq v.id i) (λ e. h) (λ e. h)

or_right : (a b : Bool) → b ≡ true → (a || b) ≡ true
or_right true b h = refl
or_right false b h = h

-- A profile at the end.
append-IsUnused :
    (i : String) (vs : List ConnectionProfile) (w : ConnectionProfile)
    → IsUnused i vs
    → w.id ≢ i
    → IsUnused i (vs ++ w ∷ [])
append-IsUnused i [] w u n = (n, tt)
append-IsUnused i (v ∷ vs) w (a, u) n = (a, append-IsUnused i vs w u n)

append-AreSound :
    (vs : List ConnectionProfile) (w : ConnectionProfile)
    → AreSound vs
    → IsUnused w.id vs
    → w.id ≢ ""
    → w.name ≢ ""
    → AreSound (vs ++ w ∷ [])
append-AreSound [] w s u a n = (a, n, tt, tt)
append-AreSound (v ∷ vs) w (b, m, own, s) (x, u) a n =
    (b, m, append-IsUnused v.id vs w own (λ e. x (sym e)), append-AreSound vs w s u a n)

found-append :
    (a : String) (vs ws : List ConnectionProfile) → found a vs ≡ true → found a (vs ++ ws) ≡ true
found-append a [] ws h = absurd (cc)
found-append a (v ∷ vs) ws h = elim (or_true (str_eq v.id a) (found a vs) h) [
  | inl e ↦ rw e refl
  | inr e ↦ or_right (str_eq v.id a) (found a (vs ++ ws)) (found-append a vs ws e)
]

pub append-IsValid :
    (p : ProfileSet) (w : ConnectionProfile)
    → IsValid p
    → IsUnused w.id p.profiles
    → w.id ≢ ""
    → w.name ≢ ""
    → IsValid (record p { profiles = p.profiles ++ w ∷ [] })
append-IsValid p w (v, s, a) u i n =
    (v, append-AreSound p.profiles w s u i n, found-append p.active_id p.profiles (w ∷ []) a)

-- Profiles without the one deleted.
without-IsUnused :
    (x i : String) (vs : List ConnectionProfile) → IsUnused x vs → IsUnused x (without i vs)
without-IsUnused x i [] u = tt
without-IsUnused x i (v ∷ vs) (a, u) =
    if_case (IsUnused x) (str_eq v.id i) (λ e. without-IsUnused x i vs u)
      (λ e. (a, without-IsUnused x i vs u))

without-AreSound :
    (i : String) (vs : List ConnectionProfile) → AreSound vs → AreSound (without i vs)
without-AreSound i [] s = tt
without-AreSound i (v ∷ vs) (a, n, u, s) =
    if_case AreSound (str_eq v.id i) (λ e. without-AreSound i vs s)
      (λ e. (a, n, without-IsUnused v.id i vs u, without-AreSound i vs s))

found-without :
    (a i : String) (vs : List ConnectionProfile)
    → i ≢ a
    → found a vs ≡ true
    → found a (without i vs) ≡ true
found-without a i [] n h = absurd (cc)
found-without a i (v ∷ vs) n h = elim (or_true (str_eq v.id a) (found a vs) h) [
  | inl here ↦
      if_case (λ ws. found a ws ≡ true) (str_eq v.id i)
        (λ e. absurd (n (cc ((eq_iff v.id a).0 here, (eq_iff v.id i).0 e)))) (λ e. rw here refl)
  | inr there ↦
      if_case (λ ws. found a ws ≡ true) (str_eq v.id i) (λ e. found-without a i vs n there)
        (λ e. or_right (str_eq v.id a) (found a (without i vs)) (found-without a i vs n there))
]

pub without-IsValid :
    (p : ProfileSet) (i : String)
    → IsValid p
    → i ≢ p.active_id
    → IsValid (record p { profiles = without i p.profiles })
without-IsValid p i (v, s, a) n =
    (v, without-AreSound i p.profiles s, found-without p.active_id i p.profiles n a)

found-profile_by_id :
    (vs : List ConnectionProfile) (i : String) {v : ConnectionProfile}
    → profile_by_id vs i ≡ some v
    → found i vs ≡ true
found-profile_by_id [] i h = absurd (cc)
found-profile_by_id (v ∷ vs) i h = elim (Bool-cases (str_eq v.id i)) [
  | inl e ↦ rw e refl
  | inr e ↦ rw e (found-profile_by_id vs i (rw e at h))
]

pub active-IsValid :
    (p : ProfileSet) (i : String) {v : ConnectionProfile}
    → IsValid p
    → profile_by_id p.profiles i ≡ some v
    → IsValid (record p { active_id = i })
active-IsValid p i (n, s, a) h = (n, s, found-profile_by_id p.profiles i h)
