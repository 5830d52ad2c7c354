-- ===== src/Tproxy/Transaction/Ledger.antt =====
-- ebpf-proxy/internal/tproxy/transaction.go: what a transaction owns, and what its commands installed.
use kernel_su_tun2proxy.Prelude.{
  ℕ, zero, suc, ◌≤◌, Bool, true, false, ◌≡◌, refl, ap, ◌⊎◌, inl, inr, List, [], ◌∷◌, none, some,
  length, get_elem?, get_elem?-lt, lt-get_elem?, subst, sym, ◌∙◌, drop, drop-cons, drop-nil, ◌==◌,
  ==_iff, not, ◌&&◌, arith, Bool-cases,
}
use kernel_su_tun2proxy.Tproxy.Command.{Argv, Step}
use kernel_su_tun2proxy.Tproxy.Transaction.{
  Call, Error, command_failed, Transaction, Runner, new_transaction, issue, release, teardown,
  injected, abort, install, setup_failing, setup,
}

-- The commands of `trace` (newest first) respect the order of a stack and leave its first `n`
-- steps installed: an addition is of the next step, a removal of the last one, and a failed
-- command is not counted.
pub data Installed (steps : List Step) : List Call → ℕ → Type 0 where
  start : Installed steps [] 0
  added :
      {tr : List Call} {n : ℕ} {s : Step}
      → Installed steps tr n
      → get_elem? steps n ≡ some s
      → Installed steps (record { argv = s.add; done = true } ∷ tr) (suc n)
  add_failed :
      {tr : List Call} {n : ℕ} {s : Step}
      → Installed steps tr n
      → get_elem? steps n ≡ some s
      → Installed steps (record { argv = s.add; done = false } ∷ tr) n
  removed :
      {tr : List Call} {n : ℕ} {s : Step}
      → Installed steps tr (suc n)
      → get_elem? steps n ≡ some s
      → Installed steps (record { argv = s.remove; done = true } ∷ tr) n
  remove_failed :
      {tr : List Call} {n : ℕ} {s : Step}
      → Installed steps tr (suc n)
      → get_elem? steps n ≡ some s
      → Installed steps (record { argv = s.remove; done = false } ∷ tr) (suc n)

-- Between calls: the counter is the number of installed steps, and unless a rollback is pending
-- all or none are installed.
pub record IsLedger (t : Transaction) : Type 0 where
  pub installed : Installed t.steps t.trace t.done
  pub bounded : t.done ≤ length t.steps
  pub settled : t.stopping ≡ false → (t.done ≡ 0) ⊎ (t.done ≡ length t.steps)

-- `issue` answers in two ways.
abbrev logged : Transaction → Argv → Bool → Transaction
logged t a b = record t { trace = record { argv = a; done = b } ∷ t.trace }

module _ (run : Runner) where
  issue_cases :
      (a : Argv) (t : Transaction)
      → (issue run a t ≡ (logged t a true, none))
        ⊎ (issue run a t ≡ (logged t a false, some (command_failed a)))
  unfolding issue
  issue_cases a t = ground arith

  release-IsLedger :
      (k : ℕ) (t : Transaction)
      → Installed t.steps t.trace k
      → k ≤ length t.steps
      → t.done ≡ k
      → t.stopping ≡ true
      → IsLedger (release run k t).0
  unfolding release
  release-IsLedger zero t i b d st = record {
    installed = subst (Installed t.steps t.trace) (sym d) i;
    bounded = omega arith;
    settled = λ _. inl d;
  }
  release-IsLedger (suc k) t i b d st =
      let (s, e) = get_elem?-lt t.steps k b in
      elim (issue_cases s.remove t) [
        | inl good ↦
            rw (e, good, release)
              (rw good (
                release-IsLedger k (record (logged t s.remove true) { done = k }) (removed i e)
                  (omega arith) refl st))
        | inr bad ↦
            rw (e, bad, release)
              (rw bad (record {
                installed = subst (Installed t.steps _) (sym d) (remove_failed i e);
                bounded = omega arith;
                settled = λ p. ground arith;
              }))
      ]

  -- Teardown needs no settled start: it is also the rollback of a set-up that failed half way.
  teardown_partial :
      (t : Transaction)
      → Installed t.steps t.trace t.done
      → t.done ≤ length t.steps
      → IsLedger (teardown run t).0
  unfolding teardown
  teardown_partial t h b = release-IsLedger t.done (record t { stopping = true }) h b refl refl

  pub teardown-IsLedger : (t : Transaction) → IsLedger t → IsLedger (teardown run t).0
  teardown-IsLedger t h = teardown_partial t h.installed h.bounded

  abort-IsLedger :
      (e : Error) (t : Transaction)
      → Installed t.steps t.trace t.done
      → t.done ≤ length t.steps
      → IsLedger (abort run e t).0
  unfolding abort
  abort-IsLedger e t h b = teardown_partial t h b

  -- A transaction in the midst of a set-up: `rest` are the steps from `i` on.
  abbrev Installing : Transaction → List Step → ℕ → Type 0
  Installing t rest i =
      Installed t.steps t.trace i × (t.done ≡ i) × (i ≤ length t.steps) × (drop i t.steps ≡ rest)

  install-IsLedger :
      (fail_after : ℕ) (rest : List Step) (i : ℕ) (t : Transaction)
      → Installing t rest i
      → IsLedger (install run fail_after rest i t).0
  unfolding install
  install-IsLedger fail_after [] i t (h, d, b, r) = record {
    installed = subst (Installed t.steps t.trace) (sym d) h;
    bounded = omega arith;
    settled = λ _. inr (d ∙ drop-nil t.steps i b r);
  }
  install-IsLedger fail_after (s ∷ rest) i t (h, d, b, r) =
      let (e, r') = drop-cons t.steps i r in
      let b' = lt-get_elem? t.steps i e in
      let t' : Transaction = record (logged t s.add true) { done = suc t.done } in
      let h' : Installed t'.steps t'.trace (suc i) = added h e in
      let d' : t'.done ≡ suc i = ap suc d in
      elim (issue_cases s.add t) [
        | inr bad ↦
            rw (bad, install)
              (rw bad (
                abort-IsLedger (command_failed s.add) (logged t s.add false)
                  (subst (Installed t.steps _) (sym d) (add_failed h e)) (omega arith)))
        | inl good ↦
            rw (good, install)
              (rw good (elim (Bool-cases (fail_after == suc i)) [
                | inl hit ↦ rw hit (
                    abort-IsLedger (injected fail_after) t'
                      (subst (Installed t.steps t'.trace) (sym d') h') (omega arith))
                | inr miss ↦ rw miss (install-IsLedger fail_after rest (suc i) t' (h', d', b', r'))
              ]))
      ]

  -- A set-up, whatever fails and wherever a failure is injected, keeps the ledger.
  pub setup_failing-IsLedger :
      (fail_after : ℕ) (t : Transaction) → IsLedger t → IsLedger (setup_failing run fail_after t).0
  unfolding setup_failing
  setup_failing-IsLedger fail_after t h =
      elim (Bool-cases (t.done == length t.steps && not t.stopping)) [
        | inl full ↦ rw full h
        | inr other ↦ rw other (elim (Bool-cases (t.done == 0)) [
          | inr owned ↦ rw owned h
          | inl fresh ↦
              let z : t.done ≡ 0 = (==_iff _ _).0 fresh in
              rw fresh (
                install-IsLedger fail_after t.steps 0 t
                  (subst (Installed t.steps t.trace) z h.installed, z, omega arith, refl))
        ])
      ]

-- What a controller does with a transaction.
pub data Request : Type 0 where
  set_up tear_down : Request
  set_up_failing : ℕ → Request

module _ (run : Runner) where
  pub serve : Transaction → Request → Transaction
  serve t set_up = (setup run t).0
  serve t tear_down = (teardown run t).0
  serve t (set_up_failing n) = (setup_failing run n t).0

  pub session : Transaction → List Request → Transaction
  session t [] = t
  session t (q ∷ qs) = session (serve t q) qs

  serve-IsLedger : (t : Transaction) (q : Request) → IsLedger t → IsLedger (serve t q)
  unfolding serve setup
  serve-IsLedger t set_up h = setup_failing-IsLedger run 0 t h
  serve-IsLedger t tear_down h = teardown-IsLedger run t h
  serve-IsLedger t (set_up_failing n) h = setup_failing-IsLedger run n t h

  session-IsLedger : (t : Transaction) (qs : List Request) → IsLedger t → IsLedger (session t qs)
  unfolding session
  session-IsLedger t [] h = h
  session-IsLedger t (q ∷ qs) h = session-IsLedger (serve t q) qs (serve-IsLedger t q h)

-- Whatever `run` answers, and in whatever order set-ups (with a failure injected or not) and
-- teardowns are called on a new transaction, afterwards: the commands given so far added and
-- removed the steps as a stack; `done` is the number of steps that they left installed, so it is
-- at most the number of steps; and unless `stopping` is set, all steps are installed or none.
pub new-session-IsLedger :
    (run : Runner) (steps : List Step) (qs : List Request)
    → IsLedger (session run (new_transaction steps) qs)
unfolding new_transaction
new-session-IsLedger run steps qs =
    session-IsLedger run _ qs
      (record { installed = start; bounded = omega arith; settled = λ _. inl refl })
