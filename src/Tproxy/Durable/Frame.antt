-- ===== src/Tproxy/Durable/Frame.antt =====
-- ebpf-proxy/internal/tproxy/journal_linux.go: the methods that only look.
use kernel_su_tun2proxy.Prelude.{
  ℕ, str_eq, Bool, true, false, not, ◌&&◌, ◌≡◌, refl, ap, ◌∙◌, List, Option, none, some, arith,
  Option-cases, inl, inr,
}
use kernel_su_tun2proxy.Prelude.Exec.{
  returned, failed, Ensures, sequence, weaken, fail_if, guard_rule, then_rule, if_rule,
}
use kernel_su_tun2proxy.Tproxy.Command.{Step}
use kernel_su_tun2proxy.Tproxy.Journal.{idle, is_idle, counts_match}
use kernel_su_tun2proxy.Tproxy.Durable.State.{
  Error, Env, State, ask, snapshot, scoped_snapshot, witness, check, profile_differs,
  controller_closed, uncertain_intent, external_change, observation_failed,
}
use kernel_su_tun2proxy.Tproxy.Durable.Covers.{Kernel, Holds}

module _ (env : Env) (steps : List Step) (k : Kernel env steps) where
  open env use {World, capture, observe}
  open k use {profile}

  pub record Frame (s t : State env) : Type 0 where
    pub ctl : t.ctl ≡ s.ctl
    pub disk : t.disk ≡ s.disk
    pub kernel : profile t.world ≡ profile s.world

  pub Frame-refl : (s : State env) → Frame s s
  Frame-refl s = record { ctl = refl; disk = refl; kernel = refl }

  pub Frame-trans : {s t u : State env} → Frame s t → Frame t u → Frame s u
  Frame-trans f g = record {
    ctl = g.ctl ∙ f.ctl;
    disk = g.disk ∙ f.disk;
    kernel = g.kernel ∙ f.kernel;
  }

  pub ask-Frame :
      {A : Type 0} (q : World → World × Option A) (e : Error) (s : State env)
      → profile (q s.world).0 ≡ profile s.world
      → Ensures (λ a t. Frame s t × ((q s.world).1 ≡ some a)) (λ _ t. Frame s t) (ask env q e s)
  unfolding ask
  ask-Frame q e s keep = elim (Option-cases (q s.world).1) [
    | inl n ↦ rw (n, ask) (failed (record { ctl = refl; disk = refl; kernel = keep }))
    | inr (a, y) ↦ rw (y, ask) (returned (record { ctl = refl; disk = refl; kernel = keep }, refl))
  ]

  pub observed :
      (b : Bool) (i : Option ℕ) (e : Error) (s : State env)
      → Ensures
          (λ w t. Frame s t × (w.counts ≡ profile s.world))
          (λ _ t. Frame s t)
          (ask env (observe b i) e s)
  observed b i e s =
      weaken (ask-Frame (observe b i) e s (k.observe_keeps b i s.world))
        (λ w t h. (h.0, k.observe_shows b i s.world w h.1)) (λ _ _ h. h)

  scoped_snapshot-Frame :
      (s : State env)
      → Ensures
          (λ _ t. Frame s t × Holds (profile s.world) s.ctl.r.owned)
          (λ _ t. Frame s t)
          (scoped_snapshot env s)
  unfolding scoped_snapshot
  scoped_snapshot-Frame s = sequence _ _ (observed true none observation_failed s) λ w t h.
      then_rule t t _ (
        guard_rule (not (counts_match w.counts t.ctl.r.owned)) profile_differs _ t (λ _. h.0)
          (λ fits. returned (h.0, ground (arith, ap (λ c. c.r.owned) h.0.ctl))))

  pub snapshot-Frame :
      (s : State env) → Ensures (λ _ t. Frame s t) (λ _ t. Frame s t) (snapshot env s)
  unfolding snapshot
  snapshot-Frame s =
      if_rule (not s.ctl.scoped) _ _
        (λ _.
          weaken (ask-Frame capture observation_failed s (k.capture_keeps s.world)) (λ _ _ h. h.0)
            (λ _ _ h. h))
        (λ _. weaken (scoped_snapshot-Frame s) (λ _ _ h. h.0) (λ _ _ h. h))

  -- The last test of `check`.
  changed :
      {P : Type 0} {s : State env} (b : Bool) (t : State env)
      → Frame s t × P
      → Ensures (λ (_ : Unit {0}) t. Frame s t × P) (λ _ t. Frame s t) (fail_if b external_change t)
  changed true t h = failed h.0
  changed false t h = returned h

  pub check-Frame :
      (s : State env)
      → Ensures (λ _ t. Frame s t × (s.ctl.r.pending ≡ idle)) (λ _ t. Frame s t) (check env s)
  unfolding check
  check-Frame s = then_rule s s _ (
      guard_rule s.ctl.closed controller_closed _ s (λ _. Frame-refl s)
        λ _.
          guard_rule (not (is_idle s.ctl.r.pending)) uncertain_intent _ s (λ _. Frame-refl s)
            λ none'. sequence _ _ (snapshot-Frame s) λ d t h.
              changed (not (str_eq s.ctl.r.snapshot "") && not (str_eq d s.ctl.r.snapshot)) t
                (h, ground arith))

  pub witness-Frame :
      (i : Option ℕ) (s : State env)
      → Ensures
          (λ w t. Frame s t × (w.counts ≡ profile s.world))
          (λ _ t. Frame s t)
          (witness env i s)
  unfolding witness
  witness-Frame i s = observed s.ctl.scoped i observation_failed s
