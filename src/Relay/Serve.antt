-- ===== src/Relay/Serve.antt =====
-- ebpf-proxy/internal/relay/relay.go: `Serve`, the loop that accepts and its goroutines, interleaved
-- in any order. A step is one shared access: a channel, a counter, the wait group, a connection.
-- Whether `Accept`, `resolve` and `Connect` fail is left open, and so is when, and whether, a call
-- of `Relay` ends: its end is a step that may never be taken. `Close` of the listener is what makes
-- `Accept` fail; `Accept` may also fail for another reason.
pub mod Counts
pub mod Drain
use kernel_su_tun2proxy.Prelude.{
  ℕ, zero, suc, ◌+◌, ◌-◌, ◌%◌, ◌^◌, ◌<◌, ◌≤◌, Bool, true, false, List, [], ◌∷◌, ◌++◌, Option, none,
  some, get_elem?, set, ◌≡◌,
}

-- What the goroutines share. `open_clients` counts the client connections not closed yet.
pub record Shared : Type 0 where
  pub slots : ℕ  -- the length of the channel
  pub waiting : ℕ  -- the count of the wait group
  pub accepted : ℕ  -- uint64
  pub active : ℕ  -- int64, in two's complement
  pub failures : ℕ  -- uint64
  pub open_clients : ℕ
  pub cancelled : Bool

abbrev pub u64 : ℕ → ℕ
u64 n = n % 2 ^ 64

-- `Add(-1)` on an int64
abbrev pub less_one : ℕ → ℕ
less_one n = u64 (n + 2 ^ 64 - 1)

-- What `Serve` returns: nil, or the error of `Accept`.
pub data Outcome : Type 0 where
  stopped accept_failed : Outcome

-- Where the accepting loop stands.
pub data Acceptor : Type 0 where
  accepting : Acceptor
  offered : Acceptor  -- before the select
  turned_away : Acceptor  -- before c.Close()
  refused : Acceptor  -- before Failures.Add(1)
  admitted : Acceptor  -- before Accepted.Add(1)
  counted : Acceptor  -- before Active.Add(1)
  joining : Acceptor  -- before wg.Add(1)
  spawning : Acceptor  -- before the go statement
  leaving returned : Outcome → Acceptor  -- before and after wg.Wait()

-- Where a goroutine of a connection stands.
pub data Handler : Type 0 where
  resolving connecting relaying : Handler
  failed : Handler  -- before Failures.Add(1)
  closing : Handler  -- before c.Close()
  releasing : Handler  -- before <-slots
  leaving_count : Handler  -- before Active.Add(-1)
  finishing : Handler  -- before wg.Done()
  gone : Handler

pub data Accepts (max : ℕ) (m : Shared) : Acceptor → Shared → Acceptor → Type 0 where
  accept : Accepts max m accepting (record m { open_clients = suc m.open_clients }) offered
  fail_stopped : m.cancelled ≡ true → Accepts max m accepting m (leaving stopped)
  fail_running : m.cancelled ≡ false → Accepts max m accepting m (leaving accept_failed)
  take_slot : m.slots < max → Accepts max m offered (record m { slots = suc m.slots }) admitted
  no_slot : max ≤ m.slots → Accepts max m offered m turned_away
  turn_away :
      {n : ℕ}
      → m.open_clients ≡ suc n
      → Accepts max m turned_away (record m { open_clients = n }) refused
  count_refused : Accepts max m refused (record m { failures = u64 (m.failures + 1) }) accepting
  count_accepted : Accepts max m admitted (record m { accepted = u64 (m.accepted + 1) }) counted
  count_active : Accepts max m counted (record m { active = u64 (m.active + 1) }) joining
  join_group : Accepts max m joining (record m { waiting = suc m.waiting }) spawning
  wait_over : {o : Outcome} → m.waiting ≡ 0 → Accepts max m (leaving o) m (returned o)

pub data Handles (m : Shared) : Handler → Shared → Handler → Type 0 where
  resolve_ok : Handles m resolving m connecting
  resolve_fails : Handles m resolving m failed
  connect_ok : Handles m connecting m relaying
  connect_fails : Handles m connecting m failed
  relay_ends :
      {n : ℕ}
      → m.open_clients ≡ suc n
      → Handles m relaying (record m { open_clients = n }) releasing
  count_failure : Handles m failed (record m { failures = u64 (m.failures + 1) }) closing
  close_client :
      {n : ℕ} → m.open_clients ≡ suc n → Handles m closing (record m { open_clients = n }) releasing
  release_slot :
      {n : ℕ} → m.slots ≡ suc n → Handles m releasing (record m { slots = n }) leaving_count
  count_out : Handles m leaving_count (record m { active = less_one m.active }) finishing
  done : {n : ℕ} → m.waiting ≡ suc n → Handles m finishing (record m { waiting = n }) gone

-- The goroutine that closes the listener once the context is cancelled.
pub data Watcher : Type 0 where
  watching : Watcher
  closing_listener : Watcher  -- before l.Close()
  over : Watcher

pub data Watches (m : Shared) : Watcher → Watcher → Type 0 where
  see_cancelled : m.cancelled ≡ true → Watches m watching closing_listener
  close_listener : Watches m closing_listener over

pub record System : Type 0 where
  pub watcher : Watcher
  pub mem : Shared
  pub acceptor : Acceptor
  pub handlers : List Handler

pub data Step (max : ℕ) (s : System) : System → Type 0 where
  loop :
      {m : Shared} {a : Acceptor}
      → Accepts max s.mem s.acceptor m a
      → Step max s (record s { mem = m; acceptor = a })
  spawn :
      s.acceptor ≡ spawning
      → Step max s (record s { acceptor = accepting; handlers = s.handlers ++ resolving ∷ [] })
  handle :
      (i : ℕ) {h h' : Handler} {m : Shared}
      → get_elem? s.handlers i ≡ some h
      → Handles s.mem h m h'
      → Step max s (record s { mem = m; handlers = set s.handlers i h' })
  watch : {v : Watcher} → Watches s.mem s.watcher v → Step max s (record s { watcher = v })
  cancel :
      s.mem.cancelled ≡ false → Step max s (record s { mem = record s.mem { cancelled = true } })

abbrev pub start : System
start = record {
  watcher = watching;
  mem = record {
    slots = 0;
    waiting = 0;
    accepted = 0;
    active = 0;
    failures = 0;
    open_clients = 0;
    cancelled = false;
  };
  acceptor = accepting;
  handlers = [];
}

pub data Reach (max : ℕ) : System → Type 0 where
  here : Reach max start
  next : {s t : System} → Reach max s → Step max s t → Reach max t

-- Runs of a number of steps.
pub data Run (max : ℕ) (s : System) : ℕ → System → Type 0 where
  stay : Run max s 0 s
  go : {n : ℕ} {t u : System} → Run max s n t → Step max t u → Run max s (suc n) u
