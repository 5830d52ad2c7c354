-- ===== src/Relay/Serve/Drain.antt =====
-- relay.go: `Serve` once its loop is left, waiting for the goroutines it started.
use kernel_su_tun2proxy.Prelude.{
  ℕ, ◌+◌, Bool, true, false, Option, none, some, total, ◌≡◌, ◌⊎◌, get_elem?,
}
use kernel_su_tun2proxy.Relay.Serve.{
  Shared, Outcome, Acceptor, leaving, returned, Handler, resolving, connecting, relaying, failed,
  closing, releasing, leaving_count, finishing, gone, Handles, relay_ends, Watcher, watching,
  closing_listener, over, System, Step, handle,
}
use kernel_su_tun2proxy.Relay.Serve.Counts.{Counts}

-- What the loop returns once it is left.
abbrev pub outcome : Acceptor → Option Outcome
outcome (leaving o) = some o
outcome (returned o) = some o
outcome _ = none

-- A bound on the steps a goroutine still takes.
abbrev pub steps_left : Handler → ℕ
steps_left resolving = 7
steps_left connecting = 6
steps_left failed = 5
steps_left relaying = 4
steps_left closing = 4
steps_left releasing = 3
steps_left leaving_count = 2
steps_left finishing = 1
steps_left gone = 0

abbrev pub wait_left : Acceptor → ℕ
wait_left (leaving o) = 1
wait_left _ = 0

abbrev pub cancel_left : Bool → ℕ
cancel_left true = 0
cancel_left false = 1

abbrev pub watch_left : Watcher → ℕ
watch_left watching = 2
watch_left closing_listener = 1
watch_left over = 0

-- Running, and not in a call of `Relay`.
abbrev pub is_busy : Handler → ℕ
is_busy relaying = 0
is_busy gone = 0
is_busy _ = 1

abbrev pub is_end : {m m' : Shared} {h h' : Handler} → Handles m h m' h' → Bool
is_end (relay_ends e) = true
is_end _ = false

-- Whether a step is the end of a call of `Relay`.
abbrev pub is_relay_end : {max : ℕ} {s t : System} → Step max s t → Bool
is_relay_end (handle i at mv) = is_end mv
is_relay_end _ = false

-- Each goroutine of a connection that is left is in a call of `Relay`, and one is.
abbrev pub OnlyRelays : System → Type 0
OnlyRelays t =
    ((i : ℕ) (h : Handler) → get_elem? t.handlers i ≡ some h → (h ≡ relaying) ⊎ (h ≡ gone))
    × ((i : ℕ) × (get_elem? t.handlers i ≡ some relaying))

-- A step other than the end of a call of `Relay`, or nothing but such calls.
abbrev pub GoesOn : ℕ → System → Type 0
GoesOn max t = ((u : System) × (st : Step max t u) × (is_relay_end st ≡ false)) ⊎ OnlyRelays t

-- A bound on the steps of the system once the loop is left.
abbrev pub work : System → ℕ
work s =
    wait_left s.acceptor
    + cancel_left s.mem.cancelled
    + watch_left s.watcher
    + total steps_left s.handlers
