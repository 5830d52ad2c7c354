-- ===== src/Tproxy/Durable/Loops.antt =====
-- ebpf-proxy/internal/tproxy/journal_linux.go: the loops over `change`
-- in `Setup` and `Recover`, and their fuel.
use kernel_su_tun2proxy.Prelude.{
  ℕ, zero, suc, ◌+◌, ◌≤◌, true, false, ◌≡◌, sym, subst, ap, ◌∙◌, List, inl, inr, length, ltb,
  ltb→lt, ◌==◌, ==_iff, Bool-cases, arith,
}
use kernel_su_tun2proxy.Prelude.Exec.{returned, failed, Ensures, sequence, if_rule, continue_congr}
use kernel_su_tun2proxy.Tproxy.Command.{Step}
use kernel_su_tun2proxy.Tproxy.Journal.{idle, adding, removing}
use kernel_su_tun2proxy.Tproxy.Durable.State.{Env, State}
use kernel_su_tun2proxy.Tproxy.Durable.Methods.{change, remove_all, add_all, owned_after}
use kernel_su_tun2proxy.Tproxy.Durable.Covers.{Kernel, Holds}
use kernel_su_tun2proxy.Tproxy.Durable.Sound.{Possible, IsSound}
use kernel_su_tun2proxy.Tproxy.Durable.Step.{Committed, Committed-IsSound, change_lem}

module _ (env : Env) (steps : List Step) (k : Kernel env steps) where
  open k use {profile}

  -- No intent, and exactly `n` steps owned and installed.
  pub record Settled (n : ℕ) (t : State env) : Type 0 where
    pub sound : IsSound env steps k t
    pub pending : t.ctl.r.pending ≡ idle
    pub owned : t.ctl.r.owned ≡ n
    pub holds : Holds (profile t.world) n

  pub Committed-Settled : {n : ℕ} {t : State env} → Committed env steps k n t → Settled n t
  Committed-Settled h = record {
    sound = Committed-IsSound env steps k h;
    pending = h.pending;
    owned = h.owned;
    holds = h.holds;
  }

  resettle : {n m : ℕ} {t : State env} → Settled n t → n ≡ m → Settled m t
  resettle {t = t} h e = subst (λ j. Settled j t) e h

  Possible-removal : (n : ℕ) → (n == 0) ≡ false → Possible removing n
  Possible-removal zero h = absurd (cc)
  Possible-removal (suc n) h = tt

  removal_shrinks : (n f : ℕ) → (n == 0) ≡ false → n ≤ suc f → owned_after removing n ≤ f
  removal_shrinks zero f h b = omega arith
  removal_shrinks (suc n) f h b = omega arith

  pub remove_all_lem :
      (fuel : ℕ) {n : ℕ} (s : State env)
      → Settled n s
      → n ≤ fuel
      → Ensures (λ _ t. Settled 0 t) (λ _ t. IsSound env steps k t) (remove_all env fuel s)
  unfolding remove_all
  remove_all_lem zero s h b =
      if_rule (s.ctl.r.owned == 0) _ _ (λ z. returned (resettle h (omega arith)))
        (λ nz. failed h.sound)
  remove_all_lem (suc fuel) {n} s h b =
      if_rule (s.ctl.r.owned == 0) _ _ (λ z. returned (resettle h (sym h.owned ∙ (==_iff _ _).0 z)))
        (λ nz.
          sequence _ _
            (change_lem env steps k removing s (Possible-removal s.ctl.r.owned nz) h.sound)
            λ _ t c.
              remove_all_lem fuel t (Committed-Settled c)
                (removal_shrinks s.ctl.r.owned fuel nz (omega arith)))

  -- More fuel than steps owned changes nothing: the loop ends by its own test.
  pub remove_all_fuel :
      (fuel : ℕ) {n : ℕ} (s : State env)
      → Settled n s
      → n ≤ fuel
      → remove_all env (suc fuel) s ≡ remove_all env fuel s
  unfolding remove_all
  remove_all_fuel zero s h b =
      let z : (s.ctl.r.owned == 0) ≡ true = (==_iff _ _).1 (omega arith) in rw z
  remove_all_fuel (suc fuel) {n} s h b = elim (Bool-cases (s.ctl.r.owned == 0)) [
    | inl z ↦ rw z
    | inr nz ↦ rw nz (
        continue_congr (change env removing s) _ _
          (change_lem env steps k removing s (Possible-removal s.ctl.r.owned nz) h.sound)
          λ _ t c.
            remove_all_fuel fuel t (Committed-Settled c)
              (removal_shrinks s.ctl.r.owned fuel nz (omega arith)))
  ]

  -- The loop's test, either way.
  room :
      {n : ℕ} (s : State env)
      → Settled n s
      → ltb s.ctl.r.owned (length s.ctl.steps) ≡ true
      → suc s.ctl.r.owned ≤ length steps
  room s h less = omega (arith, ltb→lt _ _ less, ap (length {A = Step}) h.sound.plan)

  all_added :
      {n : ℕ} (s : State env)
      → Settled n s
      → n ≤ length steps
      → ltb s.ctl.r.owned (length s.ctl.steps) ≡ false
      → n ≡ length steps
  all_added s h b all = ground (arith, h.owned, ap (length {A = Step}) h.sound.plan)

  pub add_all_lem :
      (fuel : ℕ) {n : ℕ} (s : State env)
      → Settled n s
      → n ≤ length steps
      → length steps ≤ n + fuel
      → Ensures
          (λ _ t. Settled (length steps) t)
          (λ _ t. IsSound env steps k t)
          (add_all env fuel s)
  unfolding add_all
  add_all_lem zero {n} s h b c =
      if_rule (ltb s.ctl.r.owned (length s.ctl.steps)) _ _ (λ _. failed h.sound)
        (λ all. returned (resettle h (all_added s h b all)))
  add_all_lem (suc fuel) {n} s h b c =
      if_rule (ltb s.ctl.r.owned (length s.ctl.steps)) _ _
        (λ less.
          sequence _ _ (change_lem env steps k adding s tt h.sound)
            λ _ t d. add_all_lem fuel t (Committed-Settled d) (room s h less) (omega arith))
        (λ all. returned (resettle h (all_added s h b all)))

  -- More fuel than steps to add changes nothing: the loop ends by its own test.
  pub add_all_fuel :
      (fuel : ℕ) {n : ℕ} (s : State env)
      → Settled n s
      → n ≤ length steps
      → length steps ≤ n + fuel
      → add_all env (suc fuel) s ≡ add_all env fuel s
  unfolding add_all
  add_all_fuel zero {n} s h b c =
      let z : ltb s.ctl.r.owned (length s.ctl.steps) ≡ false =
        ground (arith, h.owned, ap (length {A = Step}) h.sound.plan) in
      rw z
  add_all_fuel (suc fuel) {n} s h b c = elim (Bool-cases (ltb s.ctl.r.owned (length s.ctl.steps))) [
    | inr all ↦ rw all
    | inl less ↦ rw less (
        continue_congr (change env adding s) _ _ (change_lem env steps k adding s tt h.sound)
          λ _ t d. add_all_fuel fuel t (Committed-Settled d) (room s h less) (omega arith))
  ]
