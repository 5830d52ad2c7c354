-- ===== src/Tproxy/Durable/Recovery.antt =====
-- ebpf-proxy/internal/tproxy/journal_linux.go: `reconcile`, `Recover` and
-- `ResolvePending`, on every path.
use kernel_su_tun2proxy.Prelude.{
  ℕ, str_eq, Bool, true, false, not, ◌&&◌, ◌||◌, ◌≡◌, refl, sym, subst, ◌∙◌, List, Option, none,
  some, inl, inr, ◌==◌, arith,
}
use kernel_su_tun2proxy.Prelude.Exec.{
  Result, After, returned, failed, Ensures, sequence, weaken, if_exec_rule, then_rule, guard_rule,
  attempt_rule,
}
use kernel_su_tun2proxy.Tproxy.Command.{Step}
use kernel_su_tun2proxy.Tproxy.Journal.{JournalRecord, Pending, idle, is_idle}
use kernel_su_tun2proxy.Tproxy.Durable.State.{
  Error, controller_closed, foreign_change, legacy_intent, Env, Witness, State, save, check,
}
use kernel_su_tun2proxy.Tproxy.Durable.Methods.{
  settle, roll_back, reconcile, reconcile_if, recover, resolve_pending, outcome, index_of,
}
use kernel_su_tun2proxy.Tproxy.Durable.Covers.{Kernel, Holds, CoversAt, Covers, FileCovers}
use kernel_su_tun2proxy.Tproxy.Durable.Frame.{check-Frame, witness-Frame}
use kernel_su_tun2proxy.Tproxy.Durable.Saving.{Saved, Interrupted, save_atomic}
use kernel_su_tun2proxy.Tproxy.Durable.Sound.{IsSound, IsSound-of_Frame, Covers-record}
use kernel_su_tun2proxy.Tproxy.Durable.Loops.{Settled, remove_all_lem}

module _ (env : Env) (steps : List Step) (k : Kernel env steps) where
  open k use {profile}

  -- The outcome that `reconcile` accepts is what the counts show.
  outcome-Holds : (c : List ℕ) (p : Pending) (n : ℕ) {m : ℕ} → outcome c p n ≡ some m → Holds c m
  outcome-Holds c p n h = ground arith

  is_idle-eq : (p : Pending) → not (is_idle p) ≡ false → p ≡ idle
  is_idle-eq p h = ground arith

  -- What every method here leaves when it returns.
  abbrev SomeSettled : State env → Type 0
  SomeSettled t = (n : ℕ) × Settled env steps k n t

  roll_back_lem :
      {n : ℕ} (old : JournalRecord) (v : State env) {t : State env} {r : Result Error (Unit {0})}
      → Covers old (profile v.world)
      → FileCovers v.disk (profile v.world)
      → v.ctl.steps ≡ steps
      → v.ctl.r.pending ≡ idle
      → v.ctl.r.owned ≡ n
      → Holds (profile v.world) n
      → After (λ _ u. Saved env steps k v u) (λ _ u. Interrupted env steps k v u) t r
      → Ensures
          (λ _ u. Settled env steps k n u)
          (λ _ u. IsSound env steps k u)
          (roll_back env old r t)
  unfolding roll_back
  roll_back_lem old v cov file plan idle' owned holds (returned {s = t} s) =
      let mem : Covers v.ctl.r (profile v.world) = Covers-record v.ctl.r _ idle' owned holds in
      returned (record {
        sound = record {
          memory = rw (s.ctl, s.kernel) mem;
          file = rw (s.disk, s.kernel) mem;
          plan = rw s.ctl plan;
        };
        pending = rw s.ctl idle';
        owned = rw s.ctl owned;
        holds = rw s.kernel holds;
      })
  roll_back_lem old v cov file plan idle' owned holds (failed {s = t} f) =
      let mem : Covers v.ctl.r (profile v.world) = Covers-record v.ctl.r _ idle' owned holds in
      then_rule tt _ _ (
        failed (record {
          memory = rw f.kernel cov;
          file = elim f.disk [ inl e ↦ rw (e, f.kernel) file | inr e ↦ rw (e, f.kernel) mem ];
          plan = rw f.ctl plan;
        }))

  settle_lem :
      (w : Witness) (o : Option ℕ) (s : State env)
      → IsSound env steps k s
      → ((m : ℕ) → o ≡ some m → Holds (profile s.world) m)
      → Ensures (λ _ t. SomeSettled t) (λ _ t. IsSound env steps k t) (settle env w o s)
  unfolding settle
  settle_lem w none s h counts = failed h
  settle_lem w (some n) s h counts = then_rule s s _ (
      then_rule tt _ _ (
        attempt_rule (save env) _ _ (
          weaken
            (roll_back_lem s.ctl.r _ h.memory h.file h.plan refl refl (counts n refl)
              (save_atomic env steps k _))
            (λ _ _ x. (n, x)) (λ _ _ x. x))))

  -- On every path `reconcile` keeps the invariant; when it returns, there is no intent any more and
  -- as many steps are installed as are owned.
  pub reconcile_lem :
      (s : State env)
      → IsSound env steps k s
      → Ensures (λ _ t. SomeSettled t) (λ _ t. IsSound env steps k t) (reconcile env s)
  unfolding reconcile
  reconcile_lem s h = then_rule s s _ (
      guard_rule
        ((not (s.ctl.r.version == 2) && not (s.ctl.r.version == 3))
          || str_eq s.ctl.r.pending_proof "")
        legacy_intent _ s (λ _. h)
        λ _.
          sequence _ _
            (weaken (witness-Frame env steps k (index_of s.ctl.r.pending s.ctl.r.owned) s)
              (λ _ _ g. g) (λ _ _ g. IsSound-of_Frame env steps k h g))
            λ w t g.
              guard_rule (not (str_eq w.residual s.ctl.r.pending_proof)) foreign_change _ t
                (λ _. IsSound-of_Frame env steps k h g.0)
                λ _. settle_lem w _ t (IsSound-of_Frame env steps k h g.0) (λ m e.
                  subst (λ c. Holds c m) (g.1 ∙ sym g.0.kernel)
                    (outcome-Holds w.counts s.ctl.r.pending s.ctl.r.owned e)))

  -- `check` passes only without an intent, and then the record is exact.
  pub check_lem :
      (s : State env)
      → IsSound env steps k s
      → Ensures
          (λ _ t. Settled env steps k s.ctl.r.owned t × (t.ctl ≡ s.ctl))
          (λ _ t. IsSound env steps k t)
          (check env s)
  check_lem s h =
      weaken (check-Frame env steps k s)
        (λ _ t f.
          let sound = IsSound-of_Frame env steps k h f.0 in
          (
            record {
              sound = sound;
              pending = rw f.0.ctl f.1;
              owned = rw f.0.ctl refl;
              holds =
                  rw f.0.kernel
                    (subst (λ p. CoversAt p s.ctl.r.owned (profile s.world)) f.1 h.memory);
            },
            f.0.ctl,
          ))
        (λ _ t f. IsSound-of_Frame env steps k h f)

  reconcile_if_lem :
      (b : Bool) (s : State env)
      → IsSound env steps k s
      → Ensures (λ _ t. IsSound env steps k t) (λ _ t. IsSound env steps k t) (reconcile_if env b s)
  unfolding reconcile_if
  reconcile_if_lem true s h = weaken (reconcile_lem s h) (λ _ _ x. x.1.sound) (λ _ _ x. x)
  reconcile_if_lem false s h = returned h

  -- On every path `Recover` keeps the invariant; when it returns, nothing is owned or installed.
  pub recover_lem :
      (s : State env)
      → IsSound env steps k s
      → Ensures (λ _ t. Settled env steps k 0 t) (λ _ t. IsSound env steps k t) (recover env s)
  unfolding recover
  recover_lem s h = then_rule s s _ (
      guard_rule s.ctl.closed controller_closed _ s (λ _. h)
        λ _. sequence _ _ (reconcile_if_lem (not (is_idle s.ctl.r.pending)) s h) λ _ t h1.
          sequence _ _ (check_lem t h1) λ _ u x.
            then_rule u u _
              (remove_all_lem env steps k u.ctl.r.owned u x.0 (omega (arith, x.0.owned))))

  pub resolve_pending_lem :
      (s : State env)
      → IsSound env steps k s
      → Ensures (λ _ t. SomeSettled t) (λ _ t. IsSound env steps k t) (resolve_pending env s)
  unfolding resolve_pending
  resolve_pending_lem s h = then_rule s s _ (
      guard_rule s.ctl.closed controller_closed _ s (λ _. h)
        λ _.
          if_exec_rule (is_idle s.ctl.r.pending) _ _ s
            (λ _. weaken (check_lem s h) (λ _ _ x. (s.ctl.r.owned, x.0)) (λ _ _ x. x))
            (λ _. reconcile_lem s h))
