-- ===== src/Tproxy/Transaction/Tests.antt =====
-- A kernel that accepts every command, and one that refuses the second addition.
use kernel_su_tun2proxy.Prelude.{
  ℕ, zero, suc, true, false, List, [], ◌∷◌, ◌++◌, none, some, length, get_elem?, ltb, if◌then◌else◌,
  ◌≡◌, ◌≢◌, refl, reverse, subst, some_eq,
}
use kernel_su_tun2proxy.Tproxy.Command.{Step, CommandResult, code, succeeded}
use kernel_su_tun2proxy.Tproxy.Transaction.{
  Call, Transaction, Runner, new_transaction, join_opt, issue, release, teardown, abort, install,
  setup_failing, setup,
}
use kernel_su_tun2proxy.Tproxy.Transaction.Ledger.{
  IsLedger, set_up, tear_down, set_up_failing, session, new-session-IsLedger,
}
use kernel_su_tun2proxy.Tproxy.Transaction.Trace.{additions, removals, setup-teardown}
use kernel_su_tun2proxy.Tproxy.Transaction.Rollback.{Removable, IsClean, setup_failing-rolls_back}

abbrev fine : CommandResult
fine = record { exit_code = code 0; output = ""; error = "" }

abbrev refused : CommandResult
refused = record { exit_code = code 1; output = ""; error = "" }

abbrev accepting : Runner
accepting calls argv = fine

-- A removal has one word more than an addition.
abbrev refusing : Runner
refusing calls (a ∷ []) = if ltb 0 (length calls) then refused else fine
refusing calls argv = fine

abbrev two_steps : List Step
two_steps =
    record { add = "a" ∷ []; remove = "del" ∷ "a" ∷ [] }
    ∷ record { add = "b" ∷ []; remove = "del" ∷ "b" ∷ [] }
    ∷ []

abbrev idle_transaction : Transaction
idle_transaction = record { steps = two_steps; done = 0; stopping = false; trace = [] }

new-session-IsLedger_example :
    IsLedger
      (session refusing (new_transaction two_steps) (set_up ∷ tear_down ∷ set_up_failing 1 ∷ []))
new-session-IsLedger_example =
    new-session-IsLedger refusing two_steps (set_up ∷ tear_down ∷ set_up_failing 1 ∷ [])

sets_up : (setup accepting idle_transaction).1 ≡ none
unfolding setup setup_failing install issue succeeded
sets_up = refl

tears_down : (teardown accepting (setup accepting idle_transaction).0).1 ≡ none
unfolding setup setup_failing install issue succeeded teardown release
tears_down = refl

setup-teardown_example :
    let u = (teardown accepting (setup accepting idle_transaction).0).0 in
    (u.trace ≡ removals two_steps ++ (reverse (additions two_steps) ++ []))
    × (u.done ≡ 0)
    × (u.stopping ≡ false)
setup-teardown_example = setup-teardown accepting idle_transaction refl sets_up tears_down

refusing-Removable : Removable refusing two_steps
unfolding succeeded
refusing-Removable = record { at = always }
  where
    always :
        (tr : List Call) (k : ℕ) (s : Step)
        → get_elem? two_steps k ≡ some s
        → succeeded (refusing tr s.remove) ≡ true
    always tr zero s e = subst (λ x. succeeded (refusing tr x.remove) ≡ true) (some_eq e) refl
    always tr (suc zero) s e = subst (λ x. succeeded (refusing tr x.remove) ≡ true) (some_eq e) refl
    always tr (suc (suc k)) s e = absurd (cc)

fails : (setup_failing refusing 0 idle_transaction).1 ≢ none
unfolding setup_failing install issue succeeded abort teardown release join_opt
fails h = absurd (cc)

setup_failing-rolls_back_example : IsClean (setup_failing refusing 0 idle_transaction).0
setup_failing-rolls_back_example =
    setup_failing-rolls_back refusing 0 idle_transaction refusing-Removable refl fails
