-- ===== src/Web/Routes/Cleanup.antt =====
-- routes.go: what the cleanup runs and when it gives up the journal.
use kernel_su_tun2proxy.Prelude.{List, ◌++◌, ◌≡◌}
use kernel_su_tun2proxy.Web.Routes.{Argv, Machine, RouteEnv}

module _ (env : RouteEnv) where
  -- The commands that ran, the journal being kept.
  abbrev Ran : Machine → List Argv → Machine → Type 0
  Ran m us t = (t.journal ≡ m.journal) × (t.ran ≡ m.ran ++ us)
