-- ===== src/Redirect/Cgroup/Owners.antt =====
-- loader_linux.go: the programs of other owners that `CheckCgroup` lets be.
use kernel_su_tun2proxy.Prelude.{
  ℕ, zero, suc, ◌≤◌, Bool, true, false, List, [], ◌∷◌, Option, none, some, get_elem?, length, drop,
  String, ◌≡◌, ◌⊎◌, inl, inr, refl, subst, some_eq, Bool-cases, arith,
}
use kernel_su_tun2proxy.Redirect.Cgroup.{
  AttachType, Hook, CgroupFs, CgroupError, hook_types, check_hook, check_hooks, check_directory,
  first_error, within, check_start, check_up, check_cgroup,
}

-- A hook that another program can be added to: it has none, or all allow several.
abbrev pub IsShared : Option Hook → Type 0
IsShared o = (h : Hook) × (o ≡ some h) × ((h.ids ≡ []) ⊎ (h.flags ≡ 2))

check_hook-IsShared : (o : Option Hook) → check_hook o ≡ none → IsShared o
check_hook-IsShared none e = absurd (cc)
check_hook-IsShared (some h) e = shared h.ids refl
  where
    shared : (ids : List ℕ) → h.ids ≡ ids → IsShared (some h)
    shared [] i = (h, refl, inl i)
    shared (x ∷ xs) i = (h, refl, inr (ground arith))

both_none : (a b : Option CgroupError) → first_error a b ≡ none → (a ≡ none) × (b ≡ none)
both_none none b e = (refl, e)
both_none (some x) b e = absurd (cc)

within-none :
    (o : Option Bool) (rest : Option CgroupError)
    → o ≡ some true
    → within o rest ≡ none
    → rest ≡ none
within-none o rest h e = rw h at e

check_start-none :
    (o : Option Bool) (rest : Option CgroupError)
    → check_start o rest ≡ none
    → (o ≡ some true) × (rest ≡ none)
check_start-none none rest e = absurd (cc)
check_start-none (some true) rest e = (refl, e)
check_start-none (some false) rest e = absurd (cc)

hooks_at :
    (query : AttachType → Option Hook) (ts : List AttachType) (i : ℕ) {t : AttachType}
    → check_hooks query ts ≡ none
    → get_elem? ts i ≡ some t
    → IsShared (query t)
unfolding check_hooks
hooks_at query [] i e g = absurd (cc)
hooks_at query (t ∷ ts) zero e g =
    subst (λ x. IsShared (query x)) (some_eq g) (check_hook-IsShared (query t) (both_none _ _ e).0)
hooks_at query (t ∷ ts) (suc i) e g = hooks_at query ts i (both_none (check_hook (query t)) _ e).1 g

-- What the check of a directory asks of each of its hooks.
abbrev pub AllShared : CgroupFs → Bool → List String → Type 0
AllShared fs ipv6 path =
    (i : ℕ) (t : AttachType) → get_elem? (hook_types ipv6) i ≡ some t → IsShared (fs.query path t)

directory_lem :
    (fs : CgroupFs) (ipv6 : Bool) (path : List String)
    → check_directory fs ipv6 path ≡ none
    → AllShared fs ipv6 path
directory_lem fs ipv6 path e i t g = elim (Bool-cases (fs.open_dir path)) [
  | inl o ↦ hooks_at (fs.query path) (hook_types ipv6) i (rw o at e) g
  | inr o ↦ absurd (cc (rw o at e))
]

up_lem :
    (fs : CgroupFs) (ipv6 : Bool) (path : List String) (n : ℕ)
    → check_up fs ipv6 path ≡ none
    → n ≤ length path
    → ((i : ℕ) → i ≤ n → fs.statfs (drop i path) ≡ some true)
    → AllShared fs ipv6 (drop n path)
unfolding check_up
up_lem fs ipv6 [] zero e b s = directory_lem fs ipv6 [] (within-none _ _ (s 0 (omega arith)) e)
up_lem fs ipv6 [] (suc n) e b s = absurd (omega arith)
up_lem fs ipv6 (x ∷ xs) zero e b s =
    directory_lem fs ipv6 (x ∷ xs) (both_none _ _ (within-none _ _ (s 0 (omega arith)) e)).0
up_lem fs ipv6 (x ∷ xs) (suc n) e b s =
    up_lem fs ipv6 xs n
      (both_none (check_directory fs ipv6 (x ∷ xs)) _ (within-none _ _ (s 0 (omega arith)) e)).1
      (omega arith) (λ i l. s (suc i) (omega arith))

-- Where `CheckCgroup` returns nil, the target is a directory of a cgroup v2 file system, and at it and
-- at each directory above it up to the end of that file system, every hook that a program will be
-- attached to has no program or only programs that allow several.
pub check_cgroup-AllShared :
    (fs : CgroupFs) (ipv6 : Bool) (path : String)
    → check_cgroup fs ipv6 path ≡ none
    → (dir : List String) × (fs.eval_symlinks path ≡ some dir)
      × (fs.statfs dir ≡ some true)
      × ((n : ℕ)
          → n ≤ length dir
          → ((i : ℕ) → i ≤ n → fs.statfs (drop i dir) ≡ some true)
          → AllShared fs ipv6 (drop n dir))
unfolding check_cgroup
check_cgroup-AllShared fs ipv6 path e = resolved (fs.eval_symlinks path) refl
  where
    resolved :
        (o : Option (List String))
        → fs.eval_symlinks path ≡ o
        → (dir : List String) × (fs.eval_symlinks path ≡ some dir)
          × (fs.statfs dir ≡ some true)
          × ((n : ℕ)
              → n ≤ length dir
              → ((i : ℕ) → i ≤ n → fs.statfs (drop i dir) ≡ some true)
              → AllShared fs ipv6 (drop n dir))
    resolved none h = absurd (cc (rw h at e))
    resolved (some dir) h =
        let (s, u) = check_start-none (fs.statfs dir) _ (rw h at e) in
        (dir, h, s, λ n b t. up_lem fs ipv6 dir n u b t)
