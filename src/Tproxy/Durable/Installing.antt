-- ===== src/Tproxy/Durable/Installing.antt =====
-- ebpf-proxy/internal/tproxy/journal_linux.go: `Setup`, on every path.
use kernel_su_tun2proxy.Prelude.{
  ℕ, String, true, not, ◌≡◌, sym, subst, ap, ◌∙◌, List, none, inl, inr, length, ◌==◌, ==_iff, arith,
}
use kernel_su_tun2proxy.Prelude.Exec.{
  Result, ok, err, returned, failed, Ensures, sequence, weaken, if_exec_rule, then_rule, guard_rule,
  attempt_rule, continue, on_every_path, get, ◌>>=◌,
}
use kernel_su_tun2proxy.Tproxy.Command.{Step}
use kernel_su_tun2proxy.Tproxy.Journal.{counts_match}
use kernel_su_tun2proxy.Tproxy.Durable.State.{
  Error, observation_failed, cannot_adopt, not_fresh, Env, State, save, ask, set_record,
}
use kernel_su_tun2proxy.Tproxy.Durable.Methods.{
  add_all, setup, start, setup_scoped, setup_strict, first_snapshot,
}
use kernel_su_tun2proxy.Tproxy.Durable.Covers.{Kernel}
use kernel_su_tun2proxy.Tproxy.Durable.Frame.{Frame, observed, ask-Frame}
use kernel_su_tun2proxy.Tproxy.Durable.Saving.{save_atomic}
use kernel_su_tun2proxy.Tproxy.Durable.Sound.{IsSound, IsSound-of_Frame}
use kernel_su_tun2proxy.Tproxy.Durable.Loops.{Settled, add_all_lem}
use kernel_su_tun2proxy.Tproxy.Durable.Recovery.{check_lem}

module _ (env : Env) (steps : List Step) (k : Kernel env steps) where
  open k use {profile}

  -- From the state in which the first snapshot is recorded.
  install_lem :
      (s : State env)
      → Settled env steps k 0 s
      → Ensures
          (λ _ t. Settled env steps k (length steps) t)
          (λ _ t. IsSound env steps k t)
          (continue (save env s) (λ _. get >>= λ t. add_all env (length t.ctl.steps)))
  install_lem s h =
      sequence _ _
        (weaken (save_atomic env steps k s) (λ _ _ x. x)
          (λ _ t x. record {
            memory = rw (x.ctl, x.kernel) h.sound.memory;
            file = elim x.disk [
              | inl e ↦ rw (e, x.kernel) h.sound.file
              | inr e ↦ rw (e, x.kernel) h.sound.memory
            ];
            plan = rw x.ctl h.sound.plan;
          }))
        λ _ t x. then_rule t t _ (
          add_all_lem env steps k (length t.ctl.steps) {n = 0} t
            (record {
              sound = record {
                memory = rw (x.ctl, x.kernel) h.sound.memory;
                file = rw (x.disk, x.kernel) h.sound.memory;
                plan = rw x.ctl h.sound.plan;
              };
              pending = rw x.ctl h.pending;
              owned = rw x.ctl h.owned;
              holds = rw x.kernel h.holds;
            })
            (omega arith)
            (omega (arith, ap (λ c. length c.steps) x.ctl, ap (length {A = Step}) h.sound.plan)))

  -- Recording a snapshot changes nothing that the invariant speaks of.
  resnapshot :
      {n : ℕ} (d : String) {s : State env}
      → Settled env steps k n s
      → Settled env steps k n (set_record env s (record s.ctl.r { snapshot = d }))
  resnapshot d h = record {
    sound = record { memory = h.sound.memory; file = h.sound.file; plan = h.sound.plan };
    pending = h.pending;
    owned = h.owned;
    holds = h.holds;
  }

  Settled-of_Frame :
      {n : ℕ} {s t : State env}
      → Settled env steps k n s
      → Frame env steps k s t
      → Settled env steps k n t
  Settled-of_Frame h f = record {
    sound = IsSound-of_Frame env steps k h.sound f;
    pending = rw f.ctl h.pending;
    owned = rw f.ctl h.owned;
    holds = rw f.kernel h.holds;
  }

  Settled-at : {n m : ℕ} {t : State env} → Settled env steps k n t → n ≡ m → Settled env steps k m t
  Settled-at {t = t} h e = subst (λ j. Settled env steps k j t) e h

  first_lem :
      {n : ℕ} (r : Result Error String) (t : State env)
      → Settled env steps k n t
      → Ensures
          (λ _ u. Settled env steps k n u)
          (λ _ u. IsSound env steps k u)
          (first_snapshot env r t)
  unfolding first_snapshot
  first_lem (ok d) t h = returned (resnapshot d h)
  first_lem (err e) t h = then_rule tt _ _ (failed (resnapshot "" h).sound)

  setup_scoped_lem :
      (s : State env)
      → Settled env steps k 0 s
      → Ensures
          (λ _ t. Settled env steps k (length steps) t)
          (λ _ t. IsSound env steps k t)
          (setup_scoped env s)
  unfolding setup_scoped
  setup_scoped_lem s h =
      sequence _ _
        (weaken (observed env steps k true none observation_failed s) (λ _ _ g. g)
          (λ _ _ g. IsSound-of_Frame env steps k h.sound g))
        λ w t g.
          guard_rule (not (counts_match w.counts 0)) cannot_adopt _ t
            (λ _. IsSound-of_Frame env steps k h.sound g.0)
            λ _. then_rule tt _ _ (install_lem _ (resnapshot w.whole (Settled-of_Frame h g.0)))

  setup_strict_lem :
      (s : State env)
      → Settled env steps k 0 s
      → Ensures
          (λ _ t. Settled env steps k (length steps) t)
          (λ _ t. IsSound env steps k t)
          (setup_strict env s)
  unfolding setup_strict
  setup_strict_lem s h =
      sequence _ _
        (weaken (ask-Frame env steps k _ not_fresh s (k.admit_keeps s.world)) (λ _ _ g. g.0)
          (λ _ _ g. IsSound-of_Frame env steps k h.sound g))
        λ _ t g. attempt_rule (ask env env.capture observation_failed) t _ (
          sequence _ _
            (first_lem (ask env env.capture observation_failed t).1
              (ask env env.capture observation_failed t).0
              (Settled-of_Frame (Settled-of_Frame h g) (
                on_every_path (
                  weaken
                    (ask-Frame env steps k env.capture observation_failed t
                      (k.capture_keeps t.world))
                    (λ _ _ x. x.0) (λ _ _ x. x)))))
            λ _ u x. install_lem u x)

  start_lem :
      (s : State env)
      → Settled env steps k s.ctl.r.owned s
      → Ensures
          (λ _ t. Settled env steps k (length steps) t)
          (λ _ t. IsSound env steps k t)
          (start env s s)
  unfolding start
  start_lem s h =
      if_exec_rule (s.ctl.r.owned == length s.ctl.steps) _ _ s
        (λ full.
          returned (Settled-at h ((==_iff _ _).0 full ∙ ap (length {A = Step}) h.sound.plan)))
        λ _.
          if_exec_rule (not (s.ctl.r.owned == 0)) _ _ s (λ _. failed h.sound)
            λ fresh.
              let h0 : Settled env steps k 0 s = Settled-at h (ground arith) in
              if_exec_rule s.ctl.scoped _ _ s (λ _. setup_scoped_lem s h0)
                (λ _. setup_strict_lem s h0)

  -- On every path `Setup` keeps the invariant; when it returns, all steps are owned and installed.
  pub setup_lem :
      (s : State env)
      → IsSound env steps k s
      → Ensures
          (λ _ t. Settled env steps k (length steps) t)
          (λ _ t. IsSound env steps k t)
          (setup env s)
  unfolding setup
  setup_lem s h =
      sequence _ _ (check_lem env steps k s h)
        λ _ t x. then_rule t t _ (start_lem t (Settled-at x.0 (ap (λ c. c.r.owned) (sym x.1))))
