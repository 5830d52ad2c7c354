-- ===== src/Tproxy/Durable/Crash.antt =====
-- Crashes during the methods of journal_linux.go. A process that dies after `n` calls to the outside
-- is modelled as one whose later calls all fail and do nothing.
use kernel_su_tun2proxy.Prelude.{
  ℕ, zero, suc, ◌≡◌, refl, subst, Bool, false, List, Option, none, some, inl, inr, ◌⊎◌, length,
  get_elem?, Bool-cases, some_eq,
}
use kernel_su_tun2proxy.Prelude.Exec.{ok, Ensures-ok, on_every_path, weaken}
use kernel_su_tun2proxy.Tproxy.Command.{Step, CommandResult, negative, succeeded}
use kernel_su_tun2proxy.Tproxy.Journal.{JournalRecord, Identity, admissible}
use kernel_su_tun2proxy.Tproxy.Durable.State.{
  Contents, partial, written, synced, Env, Witness, State, M, Durable,
}
use kernel_su_tun2proxy.Tproxy.Durable.Methods.{setup, recover, resolve_pending, open_durable}
use kernel_su_tun2proxy.Tproxy.Durable.Covers.{Kernel, Holds, Covers, FileCovers}
use kernel_su_tun2proxy.Tproxy.Durable.Sound.{IsSound}
use kernel_su_tun2proxy.Tproxy.Durable.Recovery.{recover_lem, resolve_pending_lem}
use kernel_su_tun2proxy.Tproxy.Durable.Installing.{setup_lem}

-- A command of a process that is gone.
abbrev pub no_result : CommandResult
no_result = record { exit_code = negative 0; output = ""; error = "" }

-- A call, while calls are left.
unfoldable pub limited : {W A : Type 0} → (W → W × A) → A → W × ℕ → (W × ℕ) × A
limited f a (w, zero) = ((w, zero), a)
limited f a (w, suc n) = let (w', b) = f w in ((w', n), b)

-- The environment of a process that dies after so many calls.
abbrev pub dying : Env → Env
dying env = record {
  World = env.World × ℕ;
  run = λ w argv. limited (λ v. env.run v argv) no_result w;
  capture = limited env.capture none;
  observe = λ b i. limited (env.observe b i) none;
  admit = limited env.admit false;
  file = λ st. limited (env.file st) false;
}

module _ (env : Env) (steps : List Step) (k : Kernel env steps) where
  open k use {profile}

  limited_keeps :
      {A : Type 0} (f : env.World → env.World × A) (a : A) (w : env.World × ℕ)
      → ((v : env.World) → profile (f v).0 ≡ profile v)
      → profile (limited f a w).0.0 ≡ profile w.0
  unfolding limited
  limited_keeps f a (w, zero) h = refl
  limited_keeps f a (w, suc n) h = h w

  limited_shows :
      (b : Bool) (i : Option ℕ) (w : env.World × ℕ) (x : Witness)
      → (limited (env.observe b i) none w).1 ≡ some x
      → x.counts ≡ profile w.0
  unfolding limited
  limited_shows b i (w, zero) x h = absurd (cc)
  limited_shows b i (w, suc n) x h = k.observe_shows b i w x h

  limited_add :
      (w : env.World × ℕ) (n : ℕ) (s : Step)
      → get_elem? steps n ≡ some s
      → Holds (profile w.0) n
      → let p = limited (λ v. env.run v s.add) no_result w in
        Holds (profile p.0.0) (suc n) ⊎ (Holds (profile p.0.0) n × (succeeded p.1 ≡ false))
  unfolding limited succeeded
  limited_add (w, zero) n s e h = inr (h, refl)
  limited_add (w, suc m) n s e h = k.add_effect w n s e h

  limited_remove :
      (w : env.World × ℕ) (n : ℕ) (s : Step)
      → get_elem? steps n ≡ some s
      → Holds (profile w.0) (suc n)
      → let p = limited (λ v. env.run v s.remove) no_result w in
        Holds (profile p.0.0) n ⊎ (Holds (profile p.0.0) (suc n) × (succeeded p.1 ≡ false))
  unfolding limited succeeded
  limited_remove (w, zero) n s e h = inr (h, refl)
  limited_remove (w, suc m) n s e h = k.remove_effect w n s e h

  -- A process that dies at any call still respects what is assumed of the kernel.
  dying-Kernel : Kernel (dying env) steps
  dying-Kernel = record {
    profile = λ w. profile w.0;
    capture_keeps = λ w. limited_keeps env.capture none w k.capture_keeps;
    observe_keeps = λ b i w. limited_keeps (env.observe b i) none w (k.observe_keeps b i);
    observe_shows = limited_shows;
    admit_keeps = λ w. limited_keeps env.admit false w k.admit_keeps;
    file_keeps = λ st w. limited_keeps (env.file st) false w (k.file_keeps st);
    add_effect = limited_add;
    remove_effect = limited_remove;
  }

-- The methods of a controller that work on the kernel.
pub data Method : Type 0 where
  setting_up recovering resolving : Method

unfoldable pub method : (env : Env) → Method → M env (Unit {0})
method env setting_up = setup env
method env recovering = recover env
method env resolving = resolve_pending env

-- The files and the world that a dead process leaves.
pub record Left (env : Env) : Type 0 where
  pub disk : Option Contents
  pub staging : Option Contents
  pub world : env.World

-- The files and the world after a process that called the method died after `n` calls.
unfoldable pub crash : (env : Env) → Method → ℕ → State env → Left env
crash env m n s =
    let t =
      (method (dying env) m
        (record { ctl = s.ctl; disk = s.disk; staging = s.staging; world = (s.world, n) })).0 in
    record { disk = t.disk; staging = t.staging; world = t.world.0 }

module _ (env : Env) (steps : List Step) (k : Kernel env steps) where
  open k use {profile}

  -- Each of the methods keeps the invariant on every path: what the record in memory and the one on
  -- file say of the kernel is true.
  pub method-IsSound :
      (m : Method) (s : State env) → IsSound env steps k s → IsSound env steps k (method env m s).0
  unfolding method
  method-IsSound setting_up s h =
      on_every_path (weaken (setup_lem env steps k s h) (λ _ _ x. x.sound) (λ _ _ x. x))
  method-IsSound recovering s h =
      on_every_path (weaken (recover_lem env steps k s h) (λ _ _ x. x.sound) (λ _ _ x. x))
  method-IsSound resolving s h =
      on_every_path (weaken (resolve_pending_lem env steps k s h) (λ _ _ x. x.1.sound) (λ _ _ x. x))

-- No file and nothing installed, or a record on the device that covers what is installed.
abbrev pub IsWhole : Option Contents → List ℕ → Type 0
IsWhole o c = ((o ≡ none) × Holds c 0) ⊎ ((r : JournalRecord) × (o ≡ some (synced r)) × Covers r c)

module _ (env : Env) (steps : List Step) (k : Kernel env steps) where
  open k use {profile}

  crash-FileCovers :
      (m : Method) (n : ℕ) (s : State env)
      → IsSound env steps k s
      → FileCovers (crash env m n s).disk (profile (crash env m n s).world)
  unfolding crash dying-Kernel
  crash-FileCovers m n s h =
      (method-IsSound (dying env) steps (dying-Kernel env steps k) m
        (record { ctl = s.ctl; disk = s.disk; staging = s.staging; world = (s.world, n) })
        (record { memory = h.memory; file = h.file; plan = h.plan })).file

  -- A controller in a sound state calls a method, and its process dies after `n` calls to the
  -- outside: there is no journal file, or it holds a whole record that was synced before the rename,
  -- and that record, or the absence of one, is true of the kernel's resources.
  pub crash-IsWhole :
      (m : Method) (n : ℕ) (s : State env)
      → IsSound env steps k s
      → IsWhole (crash env m n s).disk (profile (crash env m n s).world)
  crash-IsWhole m n s h = whole (crash env m n s).disk (crash-FileCovers m n s h)
    where
      whole :
          (o : Option Contents)
          → FileCovers o (profile (crash env m n s).world)
          → IsWhole o (profile (crash env m n s).world)
      whole none c = inl (refl, c)
      whole (some partial) c = absurd c
      whole (some (written r)) c = absurd c
      whole (some (synced r)) c = inr (r, refl, c)

  opened-IsSound :
      (scoped : Bool) (id : Identity) (disk staging : Option Contents) (w : env.World) (d : Durable)
      → open_durable scoped id steps disk ≡ some d
      → FileCovers disk (profile w)
      → IsSound env steps k (record { ctl = d; disk = disk; staging = staging; world = w })
  unfolding open_durable
  opened-IsSound scoped id none staging w d e h =
      subst
        (λ c. IsSound env steps k (record { ctl = c; disk = none; staging = staging; world = w }))
        (some_eq e) (record { memory = h; file = h; plan = refl })
  opened-IsSound scoped id (some partial) staging w d e h = absurd h
  opened-IsSound scoped id (some (written r)) staging w d e h = absurd h
  opened-IsSound scoped id (some (synced r)) staging w d e h =
      elim (Bool-cases (admissible scoped id (length steps) r)) [
        | inl good ↦
            subst
              (λ c.
                IsSound env steps k
                  (record { ctl = c; disk = some (synced r); staging = staging; world = w }))
              (some_eq (rw good at e)) (record { memory = h; file = h; plan = refl })
        | inr bad ↦ absurd (cc (rw bad at e))
      ]

  -- The controller opened on what a crash left.
  abbrev pub reopened : Method → ℕ → State env → Durable → State env
  reopened m n s d = record {
    ctl = d;
    disk = (crash env m n s).disk;
    staging = (crash env m n s).staging;
    world = (crash env m n s).world;
  }

  -- A controller in a sound state calls a method, its process dies after `n` calls to the outside,
  -- and a new controller is opened on the journal file that is left: the new controller is sound.
  pub crash-IsSound :
      (m : Method) (n : ℕ) (s : State env) (scoped : Bool) (id : Identity) (d : Durable)
      → IsSound env steps k s
      → open_durable scoped id steps (crash env m n s).disk ≡ some d
      → IsSound env steps k (reopened m n s d)
  crash-IsSound m n s scoped id d h e =
      opened-IsSound scoped id (crash env m n s).disk (crash env m n s).staging
        (crash env m n s).world d e (crash-FileCovers m n s h)

  -- A controller in a sound state calls a method, its process dies after `n` calls to the outside,
  -- and a new controller is opened on the journal file that is left. If its `Recover` returns
  -- without error, it owns nothing and no planned resource is left.
  pub crash-recover :
      (m : Method) (n : ℕ) (s : State env) (scoped : Bool) (id : Identity) (d : Durable)
      → IsSound env steps k s
      → open_durable scoped id steps (crash env m n s).disk ≡ some d
      → (recover env (reopened m n s d)).1 ≡ ok tt
      → ((recover env (reopened m n s d)).0.ctl.r.owned ≡ 0)
        × Holds (profile (recover env (reopened m n s d)).0.world) 0
  crash-recover m n s scoped id d h e fine =
      let clean =
        Ensures-ok (recover env (reopened m n s d))
          (recover_lem env steps k (reopened m n s d) (crash-IsSound m n s scoped id d h e)) fine in
      (clean.owned, clean.holds)
