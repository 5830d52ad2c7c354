-- ===== src/Tproxy/Durable/Sound.antt =====
-- The invariant of the durable controller, and the command of `change`.
use kernel_su_tun2proxy.Prelude.{
  ℕ, zero, suc, false, ◌≡◌, refl, sym, subst, List, some, inl, inr, ◌⊎◌, Bool-cases, Option-cases,
}
use kernel_su_tun2proxy.Prelude.Exec.{returned, failed, Ensures}
use kernel_su_tun2proxy.Tproxy.Command.{Step, succeeded}
use kernel_su_tun2proxy.Tproxy.Journal.{JournalRecord, Pending, idle, adding, removing}
use kernel_su_tun2proxy.Tproxy.Durable.State.{synced, Env, State}
use kernel_su_tun2proxy.Tproxy.Durable.Methods.{
  apply_step, index_of, at_index, argv_of, owned_after,
}
use kernel_su_tun2proxy.Tproxy.Durable.Covers.{Kernel, Holds, CoversAt, Covers, FileCovers}
use kernel_su_tun2proxy.Tproxy.Durable.Frame.{Frame}

-- The intents that `change` is called with: "add", and "remove" while something is owned.
abbrev pub Possible : Pending → ℕ → Type 0
Possible idle n = ⊥
Possible adding n = Unit {0}
Possible removing zero = ⊥
Possible removing (suc n) = Unit {0}

pub covers_before : (i : Pending) (n : ℕ) (c : List ℕ) → Possible i n → Holds c n → CoversAt i n c
covers_before idle n c p h = absurd p
covers_before adding n c p h = inl h
covers_before removing zero c p h = absurd p
covers_before removing (suc n) c p h = inl h

pub covers_after :
    (i : Pending) (n : ℕ) (c : List ℕ) → Possible i n → Holds c (owned_after i n) → CoversAt i n c
covers_after idle n c p h = absurd p
covers_after adding n c p h = inr h
covers_after removing zero c p h = absurd p
covers_after removing (suc n) c p h = inr h

pub Covers-record :
    {i : Pending} {n : ℕ} (r : JournalRecord) (c : List ℕ)
    → r.pending ≡ i
    → r.owned ≡ n
    → CoversAt i n c
    → Covers r c
Covers-record {i} {n} r c p q h =
    subst (λ j. CoversAt j r.owned c) (sym p) (subst (λ m. CoversAt i m c) (sym q) h)

module _ (env : Env) (steps : List Step) (k : Kernel env steps) where
  open k use {profile}

  pub record IsSound (s : State env) : Type 0 where
    pub memory : Covers s.ctl.r (profile s.world)
    pub file : FileCovers s.disk (profile s.world)
    pub plan : s.ctl.steps ≡ steps

  -- An intent `i` at `n` owned steps has been written, and `c` steps are installed.
  pub record Declared (i : Pending) (n c : ℕ) (s : State env) : Type 0 where
    pub pending : s.ctl.r.pending ≡ i
    pub owned : s.ctl.r.owned ≡ n
    pub file : s.disk ≡ some (synced s.ctl.r)
    pub holds : Holds (profile s.world) c
    pub plan : s.ctl.steps ≡ steps

  pub IsSound-of_Frame : {s t : State env} → IsSound s → Frame env steps k s t → IsSound t
  IsSound-of_Frame {s} {t} h f = record {
    memory = rw (f.ctl, f.kernel) h.memory;
    file = rw (f.disk, f.kernel) h.file;
    plan = rw f.ctl h.plan;
  }

  -- The kernel holds `c` steps, before or after the declared operation.
  pub Declared-IsSound :
      (i : Pending) (n c : ℕ) {s : State env}
      → Possible i n
      → (c ≡ n) ⊎ (c ≡ owned_after i n)
      → Declared i n c s
      → IsSound s
  Declared-IsSound i n c {s} p e d =
      let cov : Covers s.ctl.r (profile s.world) =
        Covers-record s.ctl.r _ d.pending d.owned (elim e [
          | inl q ↦
              covers_before i n (profile s.world) p (subst (Holds (profile s.world)) q d.holds)
          | inr q ↦ covers_after i n (profile s.world) p (subst (Holds (profile s.world)) q d.holds)
        ]) in
      record { memory = cov; file = rw d.file cov; plan = d.plan }

  effect :
      (i : Pending) (n : ℕ) (w : env.World) (st : Step)
      → Possible i n
      → at_index steps (index_of i n) ≡ some st
      → Holds (profile w) n
      → Holds (profile (env.run w (argv_of i st)).0) (owned_after i n)
        ⊎ (Holds (profile (env.run w (argv_of i st)).0) n
            × (succeeded (env.run w (argv_of i st)).1 ≡ false))
  effect idle n w st p e h = absurd p
  effect adding n w st p e h = k.add_effect w n st e h
  effect removing zero w st p e h = absurd p
  effect removing (suc n) w st p e h = k.remove_effect w n st e h

  -- A state after the command, which changed the kernel only.
  ran :
      {i : Pending} {n c : ℕ} {s : State env} (d : ℕ) (w : env.World)
      → Declared i n c s
      → Holds (profile w) d
      → Declared i n d (record s { world = w })
  ran d w h e = record {
    pending = h.pending;
    owned = h.owned;
    file = h.file;
    holds = e;
    plan = h.plan;
  }

  pub apply_step_lem :
      (i : Pending) (n : ℕ) (s : State env)
      → Possible i n
      → Declared i n n s
      → Ensures (λ _ t. Declared i n (owned_after i n) t) (λ _ t. IsSound t) (apply_step env i s)
  unfolding apply_step
  apply_step_lem i n s p d = elim (Option-cases (at_index s.ctl.steps (index_of i s.ctl.r.owned))) [
    | inl e ↦ rw (e, apply_step) (failed (Declared-IsSound i n n p (inl refl) d))
    | inr (st, e) ↦
        let w = (env.run s.world (argv_of i st)).0 in
        let e' : at_index steps (index_of i n) ≡ some st = rw d.plan at (rw d.owned at e) in
        elim (effect i n s.world st p e' d.holds) [
          | inl done ↦ elim (Bool-cases (succeeded (env.run s.world (argv_of i st)).1)) [
            | inl good ↦ rw (e, apply_step) (rw good (returned (ran (owned_after i n) w d done)))
            | inr bad ↦
                rw (e, apply_step)
                  (rw bad (
                    failed (
                      Declared-IsSound i n (owned_after i n) p (inr refl)
                        (ran (owned_after i n) w d done))))
          ]
          | inr (same, bad) ↦
              rw (e, apply_step)
                (rw bad (failed (Declared-IsSound i n n p (inl refl) (ran n w d same))))
        ]
  ]
