-- ===== src/Tproxy/Transaction/Trace.antt =====
-- ebpf-proxy/internal/tproxy/transaction.go. The commands that a set-up and a teardown give, in order. A trace has the newest command first.
use mathlib.Core.List.{append_assoc, map-append, reverse-cons}
use kernel_su_tun2proxy.Prelude.{
  ℕ, zero, suc, ◌+◌, true, false, not, ◌&&◌, ◌≡◌, refl, sym, ap, ◌∙◌, inl, inr, List, [], ◌∷◌, ◌++◌,
  map, reverse, none, some, length, get_elem?, take, take-suc, take-length, ◌==◌, ==_iff, arith,
  Bool-cases, Option-cases,
}
use kernel_su_tun2proxy.Tproxy.Command.{Argv, Step}
use kernel_su_tun2proxy.Tproxy.Transaction.{
  Call, Transaction, Runner, issue, release, teardown, abort, install, setup_failing, setup,
}

-- The calls that added, or removed, these steps.
abbrev pub succeeded_call : Argv → Call
succeeded_call a = record { argv = a; done = true }

abbrev pub removals : List Step → List Call
removals = map λ s. succeeded_call s.remove

abbrev pub additions : List Step → List Call
additions = map λ s. succeeded_call s.add

removals-take :
    (xs : List Step) (k : ℕ) (tr : List Call) {s : Step}
    → get_elem? xs k ≡ some s
    → removals (take (suc k) xs) ++ tr ≡ removals (take k xs) ++ succeeded_call s.remove ∷ tr
removals-take xs k tr e = rw (take-suc xs k e, map-append, append_assoc)

reverse-call :
    (l : List Call) (c : Call) (tr : List Call) → reverse l ++ c ∷ tr ≡ reverse (c ∷ l) ++ tr
reverse-call l c tr =
    sym (ap (λ r. r ++ tr) (reverse-cons c l) ∙ append_assoc (reverse l) (c ∷ []) tr)

no_steps :
    (l : List Step) (tr : List Call) (n : ℕ)
    → length l ≡ 0
    → (tr ≡ reverse (additions l) ++ tr) × (n ≡ n + length l) × (l ≡ l)
no_steps [] tr n h = (refl, omega arith, refl)
no_steps (s ∷ l) tr n h = absurd (omega arith)

module _ (run : Runner) where
  issue_ok :
      (a : Argv) (t : Transaction)
      → (issue run a t).1 ≡ none
      → issue run a t ≡ (record t { trace = succeeded_call a ∷ t.trace }, none)
  unfolding issue
  issue_ok a t h = ground arith

  -- What a finished teardown leaves: the removals of the first `k` steps, the last step's first.
  abbrev Released : ℕ → Transaction → Transaction → Type 0
  Released k t u =
      (u.trace ≡ removals (take k t.steps) ++ t.trace)
      × (u.done ≡ 0)
      × (u.stopping ≡ false)
      × (u.steps ≡ t.steps)

  release_ok :
      (k : ℕ) (t : Transaction)
      → t.done ≡ k
      → (release run k t).1 ≡ none
      → Released k t (release run k t).0
  unfolding release
  release_ok zero t d h = (refl, d, refl, refl)
  release_ok (suc k) t d h = elim (Option-cases (get_elem? t.steps k)) [
    | inl missing ↦ absurd (cc (rw (missing, release) at h))
    | inr (s, e) ↦ elim (Option-cases (issue run s.remove t).1) [
      | inr (x, bad) ↦ absurd (cc (rw (bad, release) at (rw (e, release) at h)))
      | inl fine ↦
          let q = issue_ok s.remove t fine in
          let u : Transaction = record t { done = k; trace = succeeded_call s.remove ∷ t.trace } in
          let h' : (release run k u).1 ≡ none =
            rw q at (rw (fine, release) at (rw (e, release) at h)) in
          let (tr, dn, st, sp) = release_ok k u refl h' in
          rw (e, q, release) (rw q (tr ∙ sym (removals-take t.steps k t.trace e), dn, st, sp))
    ]
  ]

  teardown_ok : (t : Transaction) → (teardown run t).1 ≡ none → Released t.done t (teardown run t).0
  unfolding teardown
  teardown_ok t h = release_ok t.done (record t { stopping = true }) refl h

  -- What a finished set-up leaves.
  abbrev SetUp : List Step → Transaction → Transaction → Type 0
  SetUp added t u =
      (u.trace ≡ reverse (additions added) ++ t.trace)
      × (u.done ≡ t.done + length added)
      × (u.steps ≡ t.steps)

  install_ok :
      (fail_after : ℕ) (rest : List Step) (i : ℕ) (t : Transaction)
      → (install run fail_after rest i t).1 ≡ none
      → SetUp rest t (install run fail_after rest i t).0
  unfolding install abort
  install_ok fail_after [] i t h = (refl, omega arith, refl)
  install_ok fail_after (s ∷ rest) i t h = elim (Option-cases (issue run s.add t).1) [
    | inr (x, bad) ↦ absurd (cc (rw (bad, install) at h))
    | inl fine ↦
        let q = issue_ok s.add t fine in
        let u : Transaction = record t {
          done = suc t.done;
          trace = succeeded_call s.add ∷ t.trace;
        } in
        elim (Bool-cases (fail_after == suc i)) [
          | inl hit ↦ absurd (cc (rw hit at (rw q at (rw (fine, install) at h))))
          | inr miss ↦
              let h' : (install run fail_after rest (suc i) u).1 ≡ none =
                rw miss at (rw q at (rw (fine, install) at h)) in
              let (tr, dn, sp) = install_ok fail_after rest (suc i) u h' in
              rw (q, install)
                (rw q (
                  rw miss (
                    tr ∙ reverse-call (additions rest) (succeeded_call s.add) t.trace,
                    omega arith,
                    sp,
                  )))
        ]
  ]

  setup_ok :
      (t : Transaction) → t.done ≡ 0 → (setup run t).1 ≡ none → SetUp t.steps t (setup run t).0
  unfolding setup setup_failing
  setup_ok t z h = elim (Bool-cases (t.done == length t.steps && not t.stopping)) [
    | inl full ↦ rw full (no_steps t.steps t.trace t.done (ground arith))
    | inr other ↦
        let fresh : (t.done == 0) ≡ true = (==_iff _ _).1 z in
        rw (other, fresh) (install_ok 0 t.steps 0 t (rw (other, fresh) at h))
  ]

-- After a set-up without error on a transaction that owns nothing, followed by a teardown without
-- error: the commands given since then are, in order, the additions of all steps from the first
-- to the last and the removals of all steps from the last to the first; the transaction owns
-- nothing again and is not stopping.
pub setup-teardown :
    (run : Runner) (t : Transaction)
    → t.done ≡ 0
    → (setup run t).1 ≡ none
    → (teardown run (setup run t).0).1 ≡ none
    → let u = (teardown run (setup run t).0).0 in
      (u.trace ≡ removals t.steps ++ (reverse (additions t.steps) ++ t.trace))
      × (u.done ≡ 0)
      × (u.stopping ≡ false)
setup-teardown run t z h k =
    let (tr, dn, sp) = setup_ok run t z h in
    let (tr', dn', st, sp') = teardown_ok run (setup run t).0 k in
    let all : (setup run t).0.done ≡ length t.steps = omega arith in
    (tr' ∙ rw (all, sp, tr, take-length), dn', st)
