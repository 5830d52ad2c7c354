-- ===== src/Web/Actions/Start.antt =====
-- backend.go: the commands of a start, and what it reports of the engine it launched.
use kernel_su_tun2proxy.Prelude.{
  ℕ, suc, ◌+◌, ◌<◌, Bool, true, false, List, [], ◌∷◌, ◌++◌, Option, none, some, ◌≡◌,
}
use kernel_su_tun2proxy.Web.Actions.{
  engine_check, launch, kill, Host, ActionEnv, ActionError, routes_left, not_written, no_log,
  exited, not_ready, preflight_failed, not_started,
}

module _ (env : ActionEnv) where
  -- Poll number `j` of a wait that begins at look `l` finds the engine alive and not running yet.
  abbrev pub Undecided : ℕ → ℕ → Type 0
  Undecided l j =
      (env.has_exited (l + (j + j)) ≡ false) × ((env.status (suc (l + (j + j)))).running ≡ false)

  -- What a wait of at most `n` polls has seen: a first poll that finds the engine running, a first
  -- poll that finds it gone, or no such poll.
  abbrev pub Waited : ℕ → ℕ → Option Bool → Type 0
  Waited l n (some true) =
      (j : ℕ) × (j < n)
      × (env.has_exited (l + (j + j)) ≡ false)
      × ((env.status (suc (l + (j + j)))).running ≡ true)
      × ((i : ℕ) → i < j → Undecided l i)
  Waited l n (some false) =
      (j : ℕ) × (j < n) × (env.has_exited (l + (j + j)) ≡ true) × ((i : ℕ) → i < j → Undecided l i)
  Waited l n none = (i : ℕ) → i < n → Undecided l i

  -- The commands run when a start fails, and why it failed.
  abbrev pub StartFails : Host → ActionError → Host → Type 0
  StartFails h routes_left t = (env.routes_left ≡ true) × (t.ran ≡ h.ran)
  StartFails h not_written t = (env.config_written ≡ false) × (t.ran ≡ h.ran)
  StartFails h preflight_failed t = t.ran ≡ h.ran ++ engine_check ∷ []
  StartFails h no_log t = (env.log_opens ≡ false) × (t.ran ≡ h.ran ++ engine_check ∷ [])
  StartFails h not_started t = t.ran ≡ h.ran ++ engine_check ∷ launch ∷ []
  StartFails h exited t =
      Waited h.looks 54 (some false) × (t.ran ≡ h.ran ++ engine_check ∷ launch ∷ [])
  StartFails h not_ready t =
      Waited h.looks 54 none × (t.ran ≡ h.ran ++ engine_check ∷ launch ∷ kill ∷ [])
  StartFails h _ t = ⊥
