-- ===== src/Tproxy/Durable/Covers.antt =====
-- When a journal record tells the truth about the kernel, and what is assumed of the kernel.
use kernel_su_tun2proxy.Prelude.{
  ℕ, zero, suc, ◌+◌, ◌≤◌, Bool, true, false, ◌≡◌, ◌⊎◌, List, [], ◌∷◌, Option, none, some, length,
  get_elem?, arith,
}
use kernel_su_tun2proxy.Tproxy.Command.{Step, succeeded}
use kernel_su_tun2proxy.Tproxy.Journal.{
  JournalRecord, Pending, idle, adding, removing, match_from, counts_match,
}
use kernel_su_tun2proxy.Tproxy.Durable.State.{
  Contents, partial, written, synced, Env, Witness, FileStep,
}

-- Exactly the first `n` planned resources are installed, each once.
abbrev pub Holds : List ℕ → ℕ → Type 0
Holds counts n = counts_match counts n ≡ true

-- An intent that is not committed leaves two possible outcomes.
abbrev pub CoversAt : Pending → ℕ → List ℕ → Type 0
CoversAt idle n c = Holds c n
CoversAt adding n c = Holds c n ⊎ Holds c (suc n)
CoversAt removing zero c = ⊥
CoversAt removing (suc n) c = Holds c (suc n) ⊎ Holds c n

abbrev pub Covers : JournalRecord → List ℕ → Type 0
Covers r c = CoversAt r.pending r.owned c

-- With no journal file nothing is installed. A file that may be torn covers nothing.
abbrev pub FileCovers : Option Contents → List ℕ → Type 0
FileCovers none c = Holds c 0
FileCovers (some partial) c = ⊥
FileCovers (some (written r)) c = ⊥
FileCovers (some (synced r)) c = Covers r c

-- Documented behaviour of a private namespace with one cooperative writer: `profile` counts the
-- installed planned resources; only commands change them; an observation that succeeds shows
-- them; a command that adds the next step, or removes the last one, either succeeds and does so,
-- or fails and may have done so or not.
pub record Kernel (env : Env) (steps : List Step) : Type 1 where
  pub profile : env.World → List ℕ
  pub capture_keeps : (w : env.World) → profile (env.capture w).0 ≡ profile w
  pub observe_keeps :
      (b : Bool) (i : Option ℕ) (w : env.World) → profile (env.observe b i w).0 ≡ profile w
  pub observe_shows :
      (b : Bool) (i : Option ℕ) (w : env.World) (x : Witness)
      → (env.observe b i w).1 ≡ some x
      → x.counts ≡ profile w
  pub admit_keeps : (w : env.World) → profile (env.admit w).0 ≡ profile w
  pub file_keeps : (st : FileStep) (w : env.World) → profile (env.file st w).0 ≡ profile w
  pub add_effect :
      (w : env.World) (n : ℕ) (s : Step)
      → get_elem? steps n ≡ some s
      → Holds (profile w) n
      → Holds (profile (env.run w s.add).0) (suc n)
        ⊎ (Holds (profile (env.run w s.add).0) n × (succeeded (env.run w s.add).1 ≡ false))
  pub remove_effect :
      (w : env.World) (n : ℕ) (s : Step)
      → get_elem? steps n ≡ some s
      → Holds (profile w) (suc n)
      → Holds (profile (env.run w s.remove).0) n
        ⊎ (Holds (profile (env.run w s.remove).0) (suc n)
            × (succeeded (env.run w s.remove).1 ≡ false))

match_from_unique :
    (i : ℕ) (c : List ℕ) (a b : ℕ)
    → i ≤ a
    → a ≤ i + length c
    → i ≤ b
    → b ≤ i + length c
    → match_from i c a ≡ true
    → match_from i c b ≡ true
    → a ≡ b
unfolding match_from
match_from_unique i [] a b ha la hb lb p q = omega arith
match_from_unique i (x ∷ c) a b ha la hb lb p q = ground (arith, match_from_unique (suc i) c a b)

-- The counts determine how many resources are installed.
pub Holds-unique :
    (c : List ℕ) (a b : ℕ) → a ≤ length c → b ≤ length c → Holds c a → Holds c b → a ≡ b
unfolding counts_match
Holds-unique c a b la lb p q =
    match_from_unique 0 c a b (omega arith) (omega arith) (omega arith) (omega arith) p q
