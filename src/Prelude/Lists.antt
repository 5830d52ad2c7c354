-- ===== src/Prelude/Lists.antt =====
-- Lists measured and indexed by native numbers, under the library's names.
use Prim.Native.Nat.{ℕ, zero, suc, ◌+◌, ◌<◌, ◌≤◌}
use mathlib.Core.Path.{◌≡◌, refl, ap}
use mathlib.Core.List.{List, [], ◌∷◌, ◌++◌}
use mathlib.Core.Option.{Option, none, some}
use mathlib.Core.Logic.{◌⊎◌, inl, inr}
use native.Mathlib.Omega.{arith}

pub zero_or_pos : (n : ℕ) → (n ≡ 0) ⊎ (0 < n)
zero_or_pos zero = inl refl
zero_or_pos (suc n) = inr (omega arith)

pub some_inj {ℓ} : {A : Type ℓ} {a b : A} → some a ≡ some b → a ≡ b
some_inj h = cc

module _ {ℓ} {A : Type ℓ} where
  abbrev pub length : List A → ℕ
  length [] = 0
  length (x ∷ xs) = suc (length xs)

  abbrev pub get_elem? : List A → ℕ → Option A
  get_elem? [] i = none
  get_elem? (x ∷ xs) zero = some x
  get_elem? (x ∷ xs) (suc i) = get_elem? xs i

  abbrev pub take : ℕ → List A → List A
  take zero xs = []
  take (suc n) [] = []
  take (suc n) (x ∷ xs) = x ∷ take n xs

  abbrev pub drop : ℕ → List A → List A
  drop zero xs = xs
  drop (suc n) [] = []
  drop (suc n) (x ∷ xs) = drop n xs

  pub length-append : (xs ys : List A) → length (xs ++ ys) ≡ length xs + length ys
  length-append [] ys = omega arith
  length-append (x ∷ xs) ys = omega (arith, length-append xs ys)

  -- An index in range has an element.
  pub get_elem?-lt : (xs : List A) (i : ℕ) → i < length xs → (a : A) × (get_elem? xs i ≡ some a)
  get_elem?-lt [] i h = elim h [ ]
  get_elem?-lt (x ∷ xs) zero h = (x, refl)
  get_elem?-lt (x ∷ xs) (suc i) h = get_elem?-lt xs i (omega arith)

  pub lt-get_elem? : (xs : List A) (i : ℕ) {a : A} → get_elem? xs i ≡ some a → i < length xs
  lt-get_elem? [] i h = ground arith
  lt-get_elem? (x ∷ xs) zero h = omega arith
  lt-get_elem? (x ∷ xs) (suc i) h = omega (arith, lt-get_elem? xs i h)

  pub take-suc :
      (xs : List A) (n : ℕ) {a : A}
      → get_elem? xs n ≡ some a
      → take (suc n) xs ≡ take n xs ++ a ∷ []
  take-suc [] n h = ground arith
  take-suc (x ∷ xs) zero h = ground arith
  take-suc (x ∷ xs) (suc n) h = ap (◌∷◌ x) (take-suc xs n h)

  pub take-length : (xs : List A) → take (length xs) xs ≡ xs
  take-length [] = refl
  take-length (x ∷ xs) = ap (◌∷◌ x) (take-length xs)

  -- The element at the head of what is left after `n`.
  pub drop-cons :
      (xs : List A) (n : ℕ) {a : A} {rest : List A}
      → drop n xs ≡ a ∷ rest
      → (get_elem? xs n ≡ some a) × (drop (suc n) xs ≡ rest)
  drop-cons [] zero h = ground arith
  drop-cons [] (suc n) h = ground arith
  drop-cons (x ∷ xs) zero h = ground arith
  drop-cons (x ∷ xs) (suc n) h = drop-cons xs n h

  pub drop-nil : (xs : List A) (n : ℕ) → n ≤ length xs → drop n xs ≡ [] → n ≡ length xs
  drop-nil [] zero b h = refl
  drop-nil [] (suc n) b h = absurd (omega arith)
  drop-nil (x ∷ xs) zero b h = ground arith
  drop-nil (x ∷ xs) (suc n) b h = ap suc (drop-nil xs n (omega arith) h)

  -- The list with another element at an index.
  abbrev pub set : List A → ℕ → A → List A
  set [] i a = []
  set (x ∷ xs) zero a = a ∷ xs
  set (x ∷ xs) (suc i) a = x ∷ set xs i a

  -- Weights added up.
  abbrev pub total : (A → ℕ) → List A → ℕ
  total w [] = 0
  total w (x ∷ xs) = w x + total w xs

  pub total-set :
      (w : A → ℕ) (xs : List A) (i : ℕ) {a : A} (b : A)
      → get_elem? xs i ≡ some a
      → total w (set xs i b) + w a ≡ total w xs + w b
  total-set w [] i b h = absurd (cc)
  total-set w (x ∷ xs) zero b h = omega (arith, ap w (some_inj h))
  total-set w (x ∷ xs) (suc i) b h = omega (arith, total-set w xs i b h)

  pub total-append : (w : A → ℕ) (xs ys : List A) → total w (xs ++ ys) ≡ total w xs + total w ys
  total-append w [] ys = omega arith
  total-append w (x ∷ xs) ys = omega (arith, total-append w xs ys)

  -- Where one weight is above another everywhere, so are their sums.
  pub total-le : (w v : A → ℕ) (xs : List A) → ((a : A) → w a ≤ v a) → total w xs ≤ total v xs
  total-le w v [] h = omega arith
  total-le w v (x ∷ xs) h = omega (arith, h x, total-le w v xs h)

  -- An element whose weight is positive, if the sum is.
  pub total-pos :
      (w : A → ℕ) (xs : List A)
      → 0 < total w xs
      → (i : ℕ) × (a : A) × (get_elem? xs i ≡ some a) × (0 < w a)
  total-pos w [] h = absurd (omega arith)
  total-pos w (x ∷ xs) h = elim (zero_or_pos (w x)) [
    | inr p ↦ (0, x, refl, p)
    | inl z ↦ let (i, a, e, p) = total-pos w xs (omega arith) in (suc i, a, e, p)
  ]

  -- No weight is above the sum.
  pub get_elem?-total :
      (w : A → ℕ) (xs : List A) (i : ℕ) {a : A} → get_elem? xs i ≡ some a → w a ≤ total w xs
  get_elem?-total w [] i h = absurd (cc)
  get_elem?-total w (x ∷ xs) zero h = omega (arith, ap w (some_inj h))
  get_elem?-total w (x ∷ xs) (suc i) h = omega (arith, get_elem?-total w xs i h)
