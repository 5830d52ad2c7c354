-- ===== src/Prelude/Exec.antt =====
-- Go methods that change their receiver and may return an error: a function from the state to the
-- state it leaves and a result. What a method changed before an early `return e` stays changed.
use mathlib.Core.Path.{◌≡◌, refl, subst}
use mathlib.Core.Bool.{Bool, true, false}
use kernel_su_tun2proxy.Prelude.Tests.{if◌then◌else◌}

pub data Result (E A : Type 0) : Type 0 where
  ok : A → Result E A
  err : E → Result E A

abbrev pub Exec : Type 0 → Type 0 → Type 0 → Type 0
Exec S E A = S → S × Result E A

-- The rest of a method: it runs only if the part before it returned.
unfoldable pub continue : {S E A B : Type 0} → S × Result E A → (A → Exec S E B) → S × Result E B
continue p f = let (s, r) = p in elim r [ ok a ↦ f a s | err e ↦ (s, err e) ]

-- `if e := m(); e != nil { return e }`, then the rest.
infixl 5 ◌>>=◌ ◌>>◌
abbrev pub ◌>>=◌ : {S E A B : Type 0} → Exec S E A → (A → Exec S E B) → Exec S E B
◌>>=◌ m f s = continue (m s) f

abbrev pub ◌>>◌ : {S E B : Type 0} → Exec S E (Unit {0}) → Exec S E B → Exec S E B
m >> k = m >>= λ _. k

abbrev pub pure : {S E A : Type 0} → A → Exec S E A
pure a s = (s, ok a)

abbrev pub raise : {S E A : Type 0} → E → Exec S E A
raise e s = (s, err e)

abbrev pub get : {S E : Type 0} → Exec S E S
get s = (s, ok s)

abbrev pub modify : {S E : Type 0} → (S → S) → Exec S E (Unit {0})
modify f s = (f s, ok tt)

-- `if bad { return e }`
abbrev pub fail_if : {S E : Type 0} → Bool → E → Exec S E (Unit {0})
fail_if true e s = (s, err e)
fail_if false e s = (s, ok tt)

-- The error as a value: `e := m()`, with no return.
abbrev pub attempt : {S E A : Type 0} → Exec S E A → Exec S E (Result E A)
attempt m s = let (s', r) = m s in (s', ok r)

-- What holds after a call: `Q` of the value and the state if it returned, `R` of the error and
-- the state if it failed.
pub data After {S E A : Type 0} (Q : A → S → Type 0) (R : E → S → Type 0)
    : S → Result E A → Type 0 where
  returned : {a : A} {s : S} → Q a s → After Q R s (ok a)
  failed : {e : E} {s : S} → R e s → After Q R s (err e)

abbrev pub Ensures :
    {S E A : Type 0} → (A → S → Type 0) → (E → S → Type 0) → S × Result E A → Type 0
Ensures Q R p = After Q R p.0 p.1

module _ {S E A : Type 0} {Q : A → S → Type 0} {R : E → S → Type 0} where
  continue-After :
      {B : Type 0} {Q' : B → S → Type 0} {s : S} {r : Result E A} (f : A → Exec S E B)
      → After Q R s r
      → ((a : A) (t : S) → Q a t → Ensures Q' R (f a t))
      → Ensures Q' R (continue (s, r) f)
  unfolding continue
  continue-After f (returned q) k = k _ _ q
  continue-After f (failed e) k = failed e

  -- The rule for a sequence.
  pub sequence :
      {B : Type 0} {Q' : B → S → Type 0} (p : S × Result E A) (f : A → Exec S E B)
      → Ensures Q R p
      → ((a : A) (t : S) → Q a t → Ensures Q' R (f a t))
      → Ensures Q' R (continue p f)
  sequence p f h k = continue-After f h k

  -- Weaker conclusions.
  pub weaken :
      {Q' : A → S → Type 0} {R' : E → S → Type 0} {s : S} {r : Result E A}
      → After Q R s r
      → ((a : A) (t : S) → Q a t → Q' a t)
      → ((e : E) (t : S) → R e t → R' e t)
      → After Q' R' s r
  weaken (returned q) f g = returned (f _ _ q)
  weaken (failed x) f g = failed (g _ _ x)

-- One property of the state on every path.
module _ {S E A : Type 0} {P : S → Type 0} where
  pub on_every_path : {s : S} {r : Result E A} → After (λ _ t. P t) (λ _ t. P t) s r → P s
  on_every_path (returned q) = q
  on_every_path (failed x) = x

module _ {S E A : Type 0} {Q : A → S → Type 0} {R : E → S → Type 0} where
  of_ok : {s : S} {r : Result E A} {a : A} → After Q R s r → r ≡ ok a → Q a s
  of_ok {s} {a = a} (returned {a = b} q) h = subst (λ x. Q x s) (cc) q
  of_ok (failed x) h = absurd (cc)

  pub Ensures-ok : (p : S × Result E A) {a : A} → Ensures Q R p → p.1 ≡ ok a → Q a p.0
  Ensures-ok p h e = of_ok h e

module _ {S E A B : Type 0} {Q : B → S → Type 0} {R : E → S → Type 0} where
  -- A part that returns.
  pub then_rule :
      (a : A) (s : S) (f : A → Exec S E B)
      → Ensures Q R (f a s)
      → Ensures Q R (continue (s, ok a) f)
  unfolding continue
  then_rule a s f h = h

-- A guard: the rest runs only where the test fails.
pub guard_rule :
    {S E B : Type 0} {Q : B → S → Type 0} {R : E → S → Type 0} (b : Bool) (e : E)
    (f : Unit {0} → Exec S E B) (s : S)
    → (b ≡ true → R e s)
    → (b ≡ false → Ensures Q R (f tt s))
    → Ensures Q R (continue (fail_if b e s) f)
unfolding continue
guard_rule true e f s bad good = failed (bad refl)
guard_rule false e f s bad good = good refl

-- An error taken as a value.
pub attempt_rule :
    {S E A B : Type 0} {Q : B → S → Type 0} {R : E → S → Type 0} (m : Exec S E A) (s : S)
    (f : Result E A → Exec S E B)
    → Ensures Q R (f (m s).1 (m s).0)
    → Ensures Q R (continue (attempt m s) f)
unfolding continue
attempt_rule m s f h = h

-- A branch.
pub if_rule :
    {S E A : Type 0} {Q : A → S → Type 0} {R : E → S → Type 0} (b : Bool) (p q : S × Result E A)
    → (b ≡ true → Ensures Q R p)
    → (b ≡ false → Ensures Q R q)
    → Ensures Q R (if b then p else q)
if_rule true p q yes' no' = yes' refl
if_rule false p q yes' no' = no' refl

-- Two ways to go on that agree wherever the first part can lead.
module _ {S E A B : Type 0} {Q : A → S → Type 0} {R : E → S → Type 0} where
  continue_congr-After :
      {s : S} {r : Result E A} (f g : A → Exec S E B)
      → After Q R s r
      → ((a : A) (t : S) → Q a t → f a t ≡ g a t)
      → continue (s, r) f ≡ continue (s, r) g
  unfolding continue
  continue_congr-After f g (returned q) same = same _ _ q
  continue_congr-After f g (failed e) same = refl

  pub continue_congr :
      (p : S × Result E A) (f g : A → Exec S E B)
      → Ensures Q R p
      → ((a : A) (t : S) → Q a t → f a t ≡ g a t)
      → continue p f ≡ continue p g
  continue_congr p f g h same = continue_congr-After f g h same

pub if_exec_rule :
    {S E A : Type 0} {Q : A → S → Type 0} {R : E → S → Type 0} (b : Bool) (p q : Exec S E A) (s : S)
    → (b ≡ true → Ensures Q R (p s))
    → (b ≡ false → Ensures Q R (q s))
    → Ensures Q R ((if b then p else q) s)
if_exec_rule true p q s yes' no' = yes' refl
if_exec_rule false p q s yes' no' = no' refl

-- What a call gave, kept beside what holds of it.
module _ {S E A : Type 0} {Q : A → S → Type 0} {R : E → S → Type 0} where
  pub remember : {s : S} {r : Result E A} → After Q R s r → After (λ a t. Q a t × (r ≡ ok a)) R s r
  remember (returned q) = returned (q, refl)
  remember (failed x) = failed x

-- A guard at the end.
pub last_guard :
    {S E : Type 0} {Q : Unit {0} → S → Type 0} {R : E → S → Type 0} (b : Bool) (e : E) (s : S)
    → (b ≡ true → R e s)
    → (b ≡ false → Q tt s)
    → Ensures Q R (fail_if b e s)
last_guard true e s bad good = failed (bad refl)
last_guard false e s bad good = returned (good refl)
