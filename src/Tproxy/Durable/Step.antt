-- ===== src/Tproxy/Durable/Step.antt =====
-- ebpf-proxy/internal/tproxy/journal_linux.go: `change`, on every path.
use kernel_su_tun2proxy.Prelude.{
  ℕ, String, str_eq, Bool, true, false, not, ◌||◌, ◌≡◌, refl, sym, subst, ap, ◌∙◌, List, some, inl,
  inr, arith,
}
use kernel_su_tun2proxy.Prelude.Exec.{
  Result, ok, err, After, returned, failed, Ensures, sequence, weaken, then_rule, guard_rule,
  attempt_rule, continue, on_every_path, modify, pure, ◌>>◌,
}
use kernel_su_tun2proxy.Tproxy.Command.{Step}
use kernel_su_tun2proxy.Tproxy.Journal.{JournalRecord, Pending, idle, counts_match}
use kernel_su_tun2proxy.Tproxy.Durable.State.{
  synced, Error, Env, State, Witness, snapshot, save, set_record, differs_before_intent,
}
use kernel_su_tun2proxy.Tproxy.Durable.Methods.{
  declare, restore, undo, finish, commit, change, index_of, owned_after, version_of,
}
use kernel_su_tun2proxy.Tproxy.Durable.Covers.{Kernel, Holds, CoversAt, Covers, FileCovers}
use kernel_su_tun2proxy.Tproxy.Durable.Frame.{Frame, check-Frame, witness-Frame, snapshot-Frame}
use kernel_su_tun2proxy.Tproxy.Durable.Saving.{Saved, Interrupted, save_atomic}
use kernel_su_tun2proxy.Tproxy.Durable.Sound.{
  Possible, IsSound, Declared, IsSound-of_Frame, Declared-IsSound, apply_step_lem, covers_before,
  covers_after, Covers-record,
}

module _ (env : Env) (steps : List Step) (k : Kernel env steps) where
  open k use {profile}

  -- The journal file holds the record in memory, which has no intent and `n` steps.
  pub record Committed (n : ℕ) (t : State env) : Type 0 where
    pub pending : t.ctl.r.pending ≡ idle
    pub owned : t.ctl.r.owned ≡ n
    pub file : t.disk ≡ some (synced t.ctl.r)
    pub holds : Holds (profile t.world) n
    pub plan : t.ctl.steps ≡ steps

  pub Committed-IsSound : {n : ℕ} {t : State env} → Committed n t → IsSound env steps k t
  Committed-IsSound {n} {t} h =
      let cov : Covers t.ctl.r (profile t.world) =
        Covers-record t.ctl.r _ h.pending h.owned h.holds in
      record { memory = cov; file = rw h.file cov; plan = h.plan }

  module _ (i : Pending) (n : ℕ) (p : Possible i n) (before : JournalRecord)
      (same : before.owned ≡ n) where
    -- The second save. `v` is the state that it starts from.
    undo_lem :
        (proof : String) (v : State env) {t : State env} {r : Result Error (Unit {0})}
        → v.ctl.r.pending ≡ idle
        → v.ctl.r.owned ≡ owned_after i n
        → Holds (profile v.world) (owned_after i n)
        → FileCovers v.disk (profile v.world)
        → v.ctl.steps ≡ steps
        → After (λ _ u. Saved env steps k v u) (λ _ u. Interrupted env steps k v u) t r
        → Ensures
            (λ _ u. Committed (owned_after i n) u)
            (λ _ u. IsSound env steps k u)
            (undo env i before proof r t)
    unfolding undo
    undo_lem proof v idle' owned holds file plan (returned {s = t} s) = returned (record {
      pending = rw s.ctl idle';
      owned = rw s.ctl owned;
      file = rw (s.disk, s.ctl) refl;
      holds = rw s.kernel holds;
      plan = rw s.ctl plan;
    })
    undo_lem proof v idle' owned holds file plan (failed {s = t} f) = then_rule tt _ _ (
        failed (record {
          memory =
              subst (λ m. CoversAt i m (profile t.world)) (sym same)
                (covers_after i n (profile t.world) p (rw f.kernel holds));
          file = elim f.disk [
            | inl e ↦ rw (e, f.kernel) file
            | inr e ↦ rw (e, f.kernel) (Covers-record v.ctl.r _ idle' owned holds)
          ];
          plan = rw f.ctl plan;
        }))

    -- From the state `t` after the command and the observation `r` of it.
    finish_lem :
        (proof : String) (t : State env) (r : Result Error String)
        → t.ctl.r.pending ≡ i
        → Holds (profile t.world) (owned_after i n)
        → t.ctl.r.owned ≡ owned_after i n
        → FileCovers t.disk (profile t.world)
        → t.ctl.steps ≡ steps
        → Ensures
            (λ _ u. Committed (owned_after i n) u)
            (λ _ u. IsSound env steps k u)
            (finish env i before proof r t)
    unfolding finish restore
    finish_lem proof t (err e) pending holds owned file plan = then_rule tt _ _ (
        failed (record {
          memory =
              Covers-record (record t.ctl.r { owned = before.owned }) _ pending same
                (covers_after i n (profile t.world) p holds);
          file = file;
          plan = plan;
        }))
    finish_lem proof t (ok d) pending holds owned file plan = then_rule tt _ _ (
        attempt_rule (save env) _ _
          (undo_lem proof _ refl owned holds file plan (save_atomic env steps k _)))

    commit_lem :
        (proof : String) (t : State env)
        → Declared env steps k i n (owned_after i n) t
        → Ensures
            (λ _ u. Committed (owned_after i n) u)
            (λ _ u. IsSound env steps k u)
            (commit env i before proof t)
    unfolding commit
    commit_lem proof t d =
        let sound = Declared-IsSound env steps k i n (owned_after i n) p (inr refl) d in
        let after : t.ctl.r.pending ≡ i = d.pending in
        let u : State env =
          set_record env t (record t.ctl.r { owned = owned_after i t.ctl.r.owned }) in
        let f : Frame env steps k u (snapshot env u).0 =
          on_every_path (snapshot-Frame env steps k u) in
        then_rule tt u _ (
          attempt_rule (snapshot env) u _ (
            finish_lem proof (snapshot env u).0 (snapshot env u).1 (rw f.ctl after)
              (rw f.kernel d.holds) (rw f.ctl (ap (owned_after i) d.owned))
              (rw (f.disk, f.kernel) sound.file) (rw f.ctl d.plan)))

  -- The intent is written, or the save fails and both files cover the kernel.
  declared :
      (i : Pending) (s : State env)
      → Possible i s.ctl.r.owned
      → (u : State env) (w : Witness) → IsSound env steps k u
      → u.ctl.r.owned ≡ s.ctl.r.owned
      → Holds (profile u.world) s.ctl.r.owned
      → Ensures
          (λ _ t. Declared env steps k i s.ctl.r.owned s.ctl.r.owned t)
          (λ _ t. IsSound env steps k t)
          (continue
            (modify
              (λ t. set_record env t (record t.ctl.r {
                version = version_of t.ctl.scoped;
                pending = i;
                pending_proof = w.residual;
              }))
              u)
            (λ _. save env >> pure w.residual))
  declared i s p u w h own holds =
      let r : JournalRecord = record u.ctl.r {
        version = version_of u.ctl.scoped;
        pending = i;
        pending_proof = w.residual;
      } in
      let v : State env = set_record env u r in
      let cov : Covers r (profile u.world) =
        Covers-record r _ refl own (covers_before i s.ctl.r.owned (profile u.world) p holds) in
      then_rule tt v _ (
        sequence _ _
          (weaken (save_atomic env steps k v) (λ _ _ x. x)
            (λ _ t x. record {
              memory = rw (x.ctl, x.kernel) cov;
              file = elim x.disk [ inl e ↦ rw (e, x.kernel) h.file | inr e ↦ rw (e, x.kernel) cov ];
              plan = rw x.ctl h.plan;
            }))
          λ _ t x. returned (record {
            pending = rw x.ctl refl;
            owned = rw x.ctl own;
            file = rw (x.disk, x.ctl) refl;
            holds = rw x.kernel holds;
            plan = rw x.ctl h.plan;
          }))

  counted :
      (c : List ℕ) (n : ℕ) (b : Bool)
      → not b || not (counts_match c n) ≡ false
      → counts_match c n ≡ true
  counted c n b h = ground arith

  declare_lem :
      (i : Pending) (s : State env)
      → Possible i s.ctl.r.owned
      → IsSound env steps k s
      → Ensures
          (λ _ t. Declared env steps k i s.ctl.r.owned s.ctl.r.owned t)
          (λ _ t. IsSound env steps k t)
          (declare env i s)
  unfolding declare
  declare_lem i s p h =
      sequence _ _
        (weaken (check-Frame env steps k s) (λ _ _ f. f)
          (λ _ _ f. IsSound-of_Frame env steps k h f))
        λ _ t f. then_rule t t _ (
          sequence _ _
            (weaken (witness-Frame env steps k (index_of i t.ctl.r.owned) t) (λ _ _ g. g)
              (λ _ _ g. IsSound-of_Frame env steps k (IsSound-of_Frame env steps k h f.0) g))
            λ w u g.
              guard_rule
                (not (str_eq w.whole t.ctl.r.snapshot) || not (counts_match w.counts t.ctl.r.owned))
                differs_before_intent _ u
                (λ _. IsSound-of_Frame env steps k (IsSound-of_Frame env steps k h f.0) g.0)
                λ fits.
                  declared i s p u w
                    (IsSound-of_Frame env steps k (IsSound-of_Frame env steps k h f.0) g.0)
                    (ap (λ c. c.r.owned) (g.0.ctl ∙ f.0.ctl))
                    (cc (
                      counted w.counts t.ctl.r.owned (str_eq w.whole t.ctl.r.snapshot) fits,
                      g.1,
                      g.0.kernel,
                      ap (λ c. c.r.owned) f.0.ctl,
                    )))

  -- A `change` that is possible keeps the invariant, and when it returns it is committed: no intent,
  -- one step more or less, and that many installed.
  pub change_lem :
      (i : Pending) (s : State env)
      → Possible i s.ctl.r.owned
      → IsSound env steps k s
      → Ensures
          (λ _ t. Committed (owned_after i s.ctl.r.owned) t)
          (λ _ t. IsSound env steps k t)
          (change env i s)
  unfolding change
  change_lem i s p h = then_rule s s _ (
      sequence _ _ (declare_lem i s p h) λ proof t d.
        sequence _ _ (apply_step_lem env steps k i s.ctl.r.owned t p d)
          λ _ u e. commit_lem i s.ctl.r.owned p s.ctl.r refl proof u e)
