-- ===== src/Tproxy/Durable/Saving.antt =====
-- ebpf-proxy/internal/tproxy/journal_linux.go: `save`, on every path.
use kernel_su_tun2proxy.Prelude.{
  ◌≡◌, refl, ◌∙◌, List, Option, none, some, inl, inr, ◌⊎◌, true, false, Bool-cases,
}
use kernel_su_tun2proxy.Prelude.Exec.{Exec, returned, failed, Ensures, continue}
use kernel_su_tun2proxy.Tproxy.Command.{Step}
use kernel_su_tun2proxy.Tproxy.Durable.State.{
  Error, Env, FileStep, Contents, synced, State, file_effect, file_step, save, remove_staging,
  create_staging, write_staging, sync_staging, close_staging, rename, open_dir, sync_dir,
}
use kernel_su_tun2proxy.Tproxy.Durable.Covers.{Kernel}

module _ (env : Env) (steps : List Step) (k : Kernel env steps) where
  open k use {profile}

  -- A save that failed at some point: the old file or the new one.
  pub record Interrupted (s t : State env) : Type 0 where
    pub ctl : t.ctl ≡ s.ctl
    pub disk : (t.disk ≡ s.disk) ⊎ (t.disk ≡ some (synced s.ctl.r))
    pub kernel : profile t.world ≡ profile s.world

  pub record Saved (s t : State env) : Type 0 where
    pub ctl : t.ctl ≡ s.ctl
    pub disk : t.disk ≡ some (synced s.ctl.r)
    pub staging : t.staging ≡ none
    pub kernel : profile t.world ≡ profile s.world

  -- The world after a file operation.
  abbrev later : FileStep → env.World → env.World
  later st w = (env.file st w).0

  -- One operation and the rest, from what each outcome of it leaves.
  step_rule :
      {Q R : State env → Type 0} (st : FileStep) (t : State env)
      (f : Unit {0} → Exec (State env) Error (Unit {0}))
      → R (file_effect env st false (record t { world = later st t.world }))
      → Ensures
          (λ _ u. Q u)
          (λ _ u. R u)
          (f tt (file_effect env st true (record t { world = later st t.world })))
      → Ensures (λ _ u. Q u) (λ _ u. R u) (continue (file_step env st t) f)
  unfolding file_step continue
  step_rule st t f bad good = elim (Bool-cases (env.file st t.world).1) [
    | inl e ↦ rw (e, file_step) good
    | inr e ↦ rw (e, file_step) (failed bad)
  ]

  last_step_rule :
      {Q R : State env → Type 0} (st : FileStep) (t : State env)
      → R (file_effect env st false (record t { world = later st t.world }))
      → Q (file_effect env st true (record t { world = later st t.world }))
      → Ensures (λ _ u. Q u) (λ _ u. R u) (file_step env st t)
  unfolding file_step
  last_step_rule st t bad good = elim (Bool-cases (env.file st t.world).1) [
    | inl e ↦ rw (e, file_step) (returned good)
    | inr e ↦ rw (e, file_step) (failed bad)
  ]

  -- A `save` that returns leaves the record on the journal file, written and synced, and no staging
  -- file; one that fails, at whatever operation, leaves the journal file as it was, or with the
  -- record, written and synced: never with less than a record. The controller and the kernel's
  -- resources do not change.
  pub save_atomic :
      (s : State env) → Ensures (λ _ t. Saved s t) (λ _ t. Interrupted s t) (save env s)
  unfolding save file_effect
  save_atomic s = step_rule remove_staging s _ (old k1) (
      step_rule create_staging _ _ (old k2) (
        step_rule write_staging _ _ (old k3) (
          step_rule sync_staging _ _ (old k4) (
            step_rule close_staging _ _ (old k5) (
              step_rule rename _ _ (old k6) (
                step_rule open_dir _ _ (new k7) (
                  last_step_rule sync_dir _ (new k8)
                    (record { ctl = refl; disk = refl; staging = refl; kernel = k8 }))))))))
    where
      w1 : env.World
      w1 = later remove_staging s.world

      w2 : env.World
      w2 = later create_staging w1

      w3 : env.World
      w3 = later write_staging w2

      w4 : env.World
      w4 = later sync_staging w3

      w5 : env.World
      w5 = later close_staging w4

      w6 : env.World
      w6 = later rename w5

      w7 : env.World
      w7 = later open_dir w6

      w8 : env.World
      w8 = later sync_dir w7

      k1 : profile w1 ≡ profile s.world
      k1 = k.file_keeps remove_staging s.world

      k2 : profile w2 ≡ profile s.world
      k2 = k.file_keeps create_staging w1 ∙ k1

      k3 : profile w3 ≡ profile s.world
      k3 = k.file_keeps write_staging w2 ∙ k2

      k4 : profile w4 ≡ profile s.world
      k4 = k.file_keeps sync_staging w3 ∙ k3

      k5 : profile w5 ≡ profile s.world
      k5 = k.file_keeps close_staging w4 ∙ k4

      k6 : profile w6 ≡ profile s.world
      k6 = k.file_keeps rename w5 ∙ k5

      k7 : profile w7 ≡ profile s.world
      k7 = k.file_keeps open_dir w6 ∙ k6

      k8 : profile w8 ≡ profile s.world
      k8 = k.file_keeps sync_dir w7 ∙ k7

      old :
          {w : env.World} {c : Option Contents}
          → profile w ≡ profile s.world
          → Interrupted s (record { ctl = s.ctl; disk = s.disk; staging = c; world = w })
      old e = record { ctl = refl; disk = inl refl; kernel = e }

      new :
          {w : env.World}
          → profile w ≡ profile s.world
          → Interrupted s
              (record { ctl = s.ctl; disk = some (synced s.ctl.r); staging = none; world = w })
      new e = record { ctl = refl; disk = inr refl; kernel = e }
