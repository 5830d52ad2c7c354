-- ===== src/Web/Certificates/Names.antt =====
-- cmd/tun2proxy-web/certificate/certificate.go: `AllocateName`. fmt's decimal numbers come from
-- outside: `numbered` is the name of a hash and a number. A map is the list of its entries, in the
-- order in which the range takes them.
use kernel_su_tun2proxy.Prelude.{
  ℕ, zero, suc, ◌+◌, ◌<◌, ◌≤◌, String, str_eq, Bool, true, false, List, [], ◌∷◌, Option, none, some,
  length, ◌≡◌, inl, inr, ◌==◌, ==_iff, refl, ap, ◌∙◌, subst, eq_iff, str_refl, some_eq, Bool-cases,
  Option-cases, if◌then◌else◌, arith,
}
use kernel_su_tun2proxy.Web.Certificates.{Certificate, lookup, delete_key}
use kernel_su_tun2proxy.Web.Certificates.Dangling.{lookup-delete_key}

-- The first loop: a name that has the certificate already.
abbrev pub name_of : String → List (String × String) → Option String
name_of id [] = none
name_of id ((name, x) ∷ rest) = if str_eq x id then some name else name_of id rest

module _ (numbered : String → ℕ → String) where
  -- The second loop, by the rounds left; `i` is its counter.
  unfoldable pub allocate_from :
      Certificate → List (String × String) → ℕ → ℕ → Option (String × Bool)
  allocate_from c existing zero i = none
  allocate_from c existing (suc rounds) i =
      let rest = allocate_from c existing rounds (suc i) in
      elim (lookup (numbered c.subject_hash i) existing) [
        | none ↦ some (numbered c.subject_hash i, false)
        | some id ↦ if str_eq id c.id then some (numbered c.subject_hash i, true) else rest
      ]

  -- As many rounds as there are entries, and one more.
  unfoldable pub allocate_name : Certificate → List (String × String) → Option (String × Bool)
  allocate_name c existing = elim (name_of c.id existing) [
    | some name ↦ some (name, true)
    | none ↦ allocate_from c existing (suc (length existing)) 0
  ]

abbrev pub DistinctKeys : List (String × String) → Type 0
DistinctKeys [] = Unit
DistinctKeys ((k, x) ∷ rest) = (lookup k rest ≡ none) × DistinctKeys rest

length-delete_key_le :
    (k : String) (es : List (String × String)) → length (delete_key k es) ≤ length es
length-delete_key_le k [] = omega arith
length-delete_key_le k ((h, x) ∷ es) = elim (Bool-cases (str_eq h k)) [
  | inl e ↦ rw e (omega (arith, length-delete_key_le k es))
  | inr e ↦ rw e (omega (arith, length-delete_key_le k es))
]

length-delete_key :
    (k : String) (es : List (String × String)) {x : String}
    → lookup k es ≡ some x
    → length (delete_key k es) < length es
length-delete_key k [] e = absurd (cc)
length-delete_key k ((h, y) ∷ es) e = elim (Bool-cases (str_eq h k)) [
  | inl f ↦ rw f (omega (arith, length-delete_key_le k es))
  | inr f ↦ rw f (omega (arith, length-delete_key k es (rw f at e)))
]

-- As many keys as a function without repeats gives.
keys_length :
    (name : ℕ → String) (n : ℕ) (es : List (String × String))
    → ((i j : ℕ) → name i ≡ name j → i ≡ j)
    → ((i : ℕ) → i < n → (x : String) × (lookup (name i) es ≡ some x))
    → n ≤ length es
keys_length name zero es inj f = omega arith
keys_length name (suc n) es inj f =
    let (x, e) = f n (omega arith) in
    let fewer = length-delete_key (name n) es e in
    let rest = keys_length name n (delete_key (name n) es) inj (λ i l.
      let (y, g) = f i (omega arith) in
      (
        y,
        lookup-delete_key (name n) (name i) es (λ q. absurd (omega (arith, inj i n q, l))) ∙ g,
      )) in
    omega (arith, fewer, rest)

-- What the name that was found means.
abbrev pub IsAllocated : Certificate → List (String × String) → String × Bool → Type 0
IsAllocated c existing (name, true) = lookup name existing ≡ some c.id
IsAllocated c existing (name, false) =
    (lookup name existing ≡ none) × (name_of c.id existing ≡ none)

name_of-lookup :
    (id name : String) (es : List (String × String))
    → DistinctKeys es
    → name_of id es ≡ some name
    → lookup name es ≡ some id
name_of-lookup id name [] d e = absurd (cc)
name_of-lookup id name ((k, x) ∷ es) (f, d) e = elim (Bool-cases (str_eq x id)) [
  | inl q ↦
      let same : k ≡ name = some_eq (rw q at e) in
      rw (subst (λ n. str_eq k n ≡ true) same (str_refl k)) (ap some ((eq_iff x id).0 q))
  | inr q ↦
      let found = name_of-lookup id name es d (rw q at e) in
      elim (Bool-cases (str_eq k name)) [
        | inl r ↦ absurd (cc (found, f, (eq_iff k name).0 r))
        | inr r ↦ rw r found
      ]
]

module _ (numbered : String → ℕ → String) where
  -- The rounds go on while the names are taken by other certificates.
  allocate_from_lem :
      (c : Certificate) (existing : List (String × String)) (rounds i : ℕ)
      → ((m n : ℕ) → numbered c.subject_hash m ≡ numbered c.subject_hash n → m ≡ n)
      → name_of c.id existing ≡ none
      → length existing < i + rounds
      → ((j : ℕ) → j < i → (x : String) × (lookup (numbered c.subject_hash j) existing ≡ some x))
      → (r : String × Bool) × (allocate_from numbered c existing rounds i ≡ some r)
        × IsAllocated c existing r
  unfolding allocate_from
  allocate_from_lem c existing zero i inj e l taken =
      absurd (omega (arith, l, keys_length (numbered c.subject_hash) i existing inj taken))
  allocate_from_lem c existing (suc rounds) i inj e l taken =
      elim (Option-cases (lookup (numbered c.subject_hash i) existing)) [
        | inl free ↦ rw (free, allocate_from) ((numbered c.subject_hash i, false), refl, (free, e))
        | inr (x, held) ↦
            rw (held, allocate_from)
              (elim (Bool-cases (str_eq x c.id)) [
                | inl same ↦ rw same (
                  (numbered c.subject_hash i, true),
                  refl,
                  held ∙ ap some ((eq_iff x c.id).0 same),
                )
                | inr other ↦ rw other (
                    allocate_from_lem c existing rounds (suc i) inj e (omega (arith, l)) (λ j k.
                      elim (Bool-cases (j == i)) [
                        | inl q ↦ (
                          x,
                          ap (λ n. lookup (numbered c.subject_hash n) existing) ((==_iff j i).0 q)
                              ∙ held,
                        )
                        | inr q ↦ taken j (ground arith)
                      ]))
              ])
      ]

  -- Of a map of names to certificates, `AllocateName` returns within one round more than there are
  -- entries: a name that has the certificate, where it says that it exists, or else a name that is free,
  -- and then no name has the certificate.
  pub allocate_name_lem :
      (c : Certificate) (existing : List (String × String))
      → ((m n : ℕ) → numbered c.subject_hash m ≡ numbered c.subject_hash n → m ≡ n)
      → DistinctKeys existing
      → (r : String × Bool) × (allocate_name numbered c existing ≡ some r)
        × IsAllocated c existing r
  unfolding allocate_name
  allocate_name_lem c existing inj d = elim (Option-cases (name_of c.id existing)) [
    | inr (name, e) ↦
        rw (e, allocate_name) ((name, true), refl, name_of-lookup c.id name existing d e)
    | inl e ↦
        rw (e, allocate_name)
          (allocate_from_lem c existing (suc (length existing)) 0 inj e (omega arith)
            (λ j k. absurd (omega arith)))
  ]
