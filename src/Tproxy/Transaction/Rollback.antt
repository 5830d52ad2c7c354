-- ===== src/Tproxy/Transaction/Rollback.antt =====
-- ebpf-proxy/internal/tproxy/transaction.go: what a set-up that fails leaves behind.
use kernel_su_tun2proxy.Prelude.{
  ℕ, zero, suc, ◌≤◌, true, false, not, ◌&&◌, ◌≡◌, ◌≢◌, refl, ap, inl, inr, List, [], ◌∷◌, none,
  some, length, get_elem?, get_elem?-lt, lt-get_elem?, ◌==◌, ==_iff, arith, Bool-cases,
  Option-cases, drop, drop-cons,
}
use kernel_su_tun2proxy.Tproxy.Command.{Argv, Step, succeeded}
use kernel_su_tun2proxy.Tproxy.Transaction.{
  Call, Error, injected, Transaction, Runner, issue, release, teardown, abort, install,
  setup_failing,
}

-- The kernel accepts every removal of a planned step, at any time.
pub record Removable (run : Runner) (steps : List Step) : Type 0 where
  pub at :
      (tr : List Call) (k : ℕ) (s : Step)
      → get_elem? steps k ≡ some s
      → succeeded (run tr s.remove) ≡ true

abbrev pub IsClean : Transaction → Type 0
IsClean u = (u.done ≡ 0) × (u.stopping ≡ false)

module _ (run : Runner) where
  issue_good :
      (a : Argv) (t : Transaction)
      → succeeded (run t.trace a) ≡ true
      → issue run a t ≡ (record t { trace = record { argv = a; done = true } ∷ t.trace }, none)
  unfolding issue
  issue_good a t h = ground arith

  steps-issue :
      (a : Argv) (t : Transaction)
      → ((issue run a t).0.steps ≡ t.steps) × ((issue run a t).0.done ≡ t.done)
  unfolding issue
  steps-issue a t = ground arith

  release-IsClean :
      (k : ℕ) (t : Transaction)
      → Removable run t.steps
      → k ≤ length t.steps
      → t.done ≡ k
      → IsClean (release run k t).0 × ((release run k t).1 ≡ none)
  unfolding release
  release-IsClean zero t r b d = ((d, refl), refl)
  release-IsClean (suc k) t r b d =
      let (s, e) = get_elem?-lt t.steps k b in
      let q = issue_good s.remove t (r.at t.trace k s e) in
      rw (e, q, release) (rw q (release-IsClean k _ r (omega arith) refl))

  abort-IsClean :
      (e : Error) (t : Transaction)
      → Removable run t.steps
      → t.done ≤ length t.steps
      → IsClean (abort run e t).0
  unfolding abort teardown
  abort-IsClean e t r b = (release-IsClean t.done (record t { stopping = true }) r b refl).0

  issue_failed :
      (a : Argv) (t : Transaction) {e : Error}
      → (issue run a t).1 ≡ some e
      → issue run a t ≡ (record t { trace = record { argv = a; done = false } ∷ t.trace }, some e)
  unfolding issue
  issue_failed a t h = ground arith

  issue_fine :
      (a : Argv) (t : Transaction)
      → (issue run a t).1 ≡ none
      → issue run a t ≡ (record t { trace = record { argv = a; done = true } ∷ t.trace }, none)
  unfolding issue
  issue_fine a t h = ground arith

  install-IsClean :
      (fail_after : ℕ) (rest : List Step) (i : ℕ) (t : Transaction)
      → Removable run t.steps
      → t.done ≡ i
      → drop i t.steps ≡ rest
      → (install run fail_after rest i t).1 ≢ none
      → IsClean (install run fail_after rest i t).0
  unfolding install
  install-IsClean fail_after [] i t r d l h = absurd (h refl)
  install-IsClean fail_after (s ∷ rest) i t r d l h =
      let (e, l') = drop-cons t.steps i l in
      let b = lt-get_elem? t.steps i e in
      elim (Option-cases (issue run s.add t).1) [
        | inr (x, bad) ↦
            let q = issue_failed s.add t bad in
            rw (q, install)
              (rw q (
                abort-IsClean x
                  (record t { trace = record { argv = s.add; done = false } ∷ t.trace }) r
                  (omega arith)))
        | inl fine ↦
            let q = issue_fine s.add t fine in
            let u : Transaction = record t {
              done = suc t.done;
              trace = record { argv = s.add; done = true } ∷ t.trace;
            } in
            elim (Bool-cases (fail_after == suc i)) [
              | inl hit ↦
                  rw (q, install)
                    (rw q (rw hit (abort-IsClean (injected fail_after) u r (omega arith))))
              | inr miss ↦
                  rw (q, install)
                    (rw q (
                      rw miss (
                        install-IsClean fail_after rest (suc i) u r (ap suc d) l'
                          (rw miss at (rw q at (rw (fine, install) at h))))))
            ]
      ]

-- If the kernel never refuses to remove a planned step, a set-up of a transaction that owns
-- nothing either returns no error or leaves it owning nothing and not stopping, wherever the
-- set-up failed or a failure was injected.
pub setup_failing-rolls_back :
    (run : Runner) (fail_after : ℕ) (t : Transaction)
    → Removable run t.steps
    → t.done ≡ 0
    → (setup_failing run fail_after t).1 ≢ none
    → IsClean (setup_failing run fail_after t).0
unfolding setup_failing
setup_failing-rolls_back run fail_after t r z h =
    elim (Bool-cases (t.done == length t.steps && not t.stopping)) [
      | inl full ↦ absurd (h (rw full))
      | inr other ↦
          let fresh : (t.done == 0) ≡ true = (==_iff _ _).1 z in
          rw (other, fresh)
            (install-IsClean run fail_after t.steps 0 t r z refl (rw (other, fresh) at h))
    ]
