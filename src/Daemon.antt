-- ===== src/Daemon.antt =====
-- ebpf-proxy/internal/daemon/server_linux.go: the commands of the control socket, and `Run` from
-- the loading of the BPF programs on. What the select receives, and the commands that the server
-- handles meanwhile, are a list of events; a command is one step.
pub mod Steady
pub mod Shutdown
mod Tests
use kernel_su_tun2proxy.Prelude.{
  ℕ, zero, suc, ◌+◌, ◌%◌, String, str_eq, Bool, true, false, not, ◌||◌, List, [], ◌∷◌, Option, none,
  some, ◌==◌, if◌then◌else◌,
}
use kernel_su_tun2proxy.Prelude.Exec.{Result, ok, err}
use kernel_su_tun2proxy.Engine.Config.{EngineConfig}
use kernel_su_tun2proxy.Redirect.Manager.{
  Kernel, LoadError, load, set_enabled, heartbeat, detach, close,
}
use kernel_su_tun2proxy.Redirect.Manager.{State as Manager}
use kernel_su_tun2proxy.Redirect.Flows.{FlowKernel, sweep}
use kernel_su_tun2proxy.Redirect.Uids.{uid}

-- A request, as far as it was decoded; `post` is whether it is a POST that decodes.
pub record Request : Type 0 where
  pub post : Bool
  pub action : String
  pub uid : ℕ

-- The status, by what is answered.
pub data Response : Type 0 where
  answered unavailable invalid refused : Response

pub data Event : Type 0 where
  signal stop serve_ended control_ended : Event
  tick : Bool → Event  -- whether the control socket is still there
  command : Request → Event

-- What `Run` returns.
pub data Outcome : Type 0 where
  finished : Outcome
  serve_error control_error socket_gone no_socket : Outcome
  manager_error : LoadError → Outcome

pub record Daemon (W : Type 0) : Type 0 where
  pub manager : Manager W
  pub ready : Bool
  pub listeners : ℕ  -- open ones
  pub control_closed : Bool
  pub stopping : Bool  -- whether `stop` is closed

module _ {W : Type 0} (k : Kernel W) (flows : FlowKernel W) (sort : List ℕ → List ℕ) where
  -- A call on the manager by a command, and the status it gives.
  abbrev pub commanded : Daemon W → Manager W × Result LoadError (Unit {0}) → Daemon W × Response
  commanded d (m, ok u) = (record d { manager = m }, answered)
  commanded d (m, err e) = (record d { manager = m }, refused)

  abbrev pub is_read : String → Bool
  is_read action = str_eq action "status" || str_eq action "flows" || str_eq action "uid-list"

  -- The switch on the action.
  unfoldable pub act : Request → Daemon W → Daemon W × Response
  act r d =
      if is_read r.action
      then (d, answered)
      else if str_eq r.action "uid-add"
      then commanded d (uid k sort "add" r.uid d.manager)
      else if str_eq r.action "uid-del"
      then commanded d (uid k sort "del" r.uid d.manager)
      else if str_eq r.action "uid-clear"
      then commanded d (uid k sort "clear" 0 d.manager)
      else if str_eq r.action "stop"
      then (record d { stopping = true }, answered)
      else (d, refused)

  unfoldable pub handle : Request → Daemon W → Daemon W × Response
  handle r d =
      if d.control_closed then (d, unavailable) else if not r.post then (d, invalid) else act r d

  -- Every twentieth tick sweeps the flows.
  abbrev pub sweep_world : W → W
  sweep_world w = (sweep flows (record { world = w; calls = [] })).0.world

  unfoldable pub swept : ℕ → Daemon W → Daemon W
  swept ticks d =
      if ticks % 20 == 0
      then record d { manager = record d.manager { world = sweep_world d.manager.world } }
      else d

  abbrev pub beaten : Manager W × Result LoadError (Unit {0}) → Daemon W → Daemon W × Option Outcome
  beaten (m, ok u) d = (record d { manager = m }, none)
  beaten (m, err e) d = (record d { manager = m }, some (manager_error e))

  -- A case of the select: the state, and what ends the loop, if it does.
  unfoldable pub receive : Event → Daemon W → Daemon W × Option Outcome
  receive signal d = (d, some finished)
  receive stop d = (d, some finished)
  receive serve_ended d = (d, some serve_error)
  receive control_ended d = (d, some control_error)
  receive (tick false) d = (d, some socket_gone)
  receive (tick true) d = beaten (heartbeat k d.manager) d
  receive (command r) d = ((handle r d).0, none)

  abbrev pub ticks_after : Event → ℕ → ℕ
  ticks_after (tick true) n = suc n
  ticks_after _ n = n

  abbrev pub sweep_after : Event → ℕ → Daemon W → Daemon W
  sweep_after (tick true) ticks d = swept ticks d
  sweep_after _ ticks d = d

  abbrev pub continued :
      Event
      → ℕ
      → Daemon W × Option Outcome
      → (Daemon W → Daemon W × Option Outcome)
      → Daemon W × Option Outcome
  continued e ticks (d, some o) rest = (d, some o)
  continued e ticks (d, none) rest = rest (sweep_after e ticks d)

  -- The loop, until something ends it; `ticks` counts the heartbeats.
  unfoldable pub running : List Event → ℕ → Daemon W → Daemon W × Option Outcome
  running [] ticks d = (d, none)
  running (e ∷ es) ticks d =
      let rest = λ (t : Daemon W). running es (ticks_after e ticks) t in
      continued e (ticks_after e ticks) (receive e d) rest

  -- The order in which `Run` takes the service down.
  unfoldable pub shut_down : Daemon W → Daemon W
  shut_down d =
      let disabled = (set_enabled k false d.manager).0 in
      record d { manager = detach k disabled; ready = false; control_closed = true; listeners = 0 }

  -- The deferred call, after everything else.
  abbrev pub closed : Daemon W → Daemon W
  closed d = record d { manager = close k d.manager }

  abbrev pub ended : Daemon W × Option Outcome → Daemon W × Option Outcome
  ended (d, none) = (d, none)
  ended (d, some o) = (closed (shut_down d), some o)

  -- What follows the loading: traffic is redirected only once the listeners accept.
  abbrev pub enabled :
      Daemon W → List Event → Manager W × Result LoadError (Unit {0}) → Daemon W × Option Outcome
  enabled d events (m, err e) =
      (closed (record d { manager = m; listeners = 0 }), some (manager_error e))
  enabled d events (m, ok u) = ended (running events 0 (record d { manager = m; ready = true }))

  -- `socket`: whether the control socket could be opened.
  abbrev pub loaded :
      Daemon W
      → Bool
      → List Event
      → Manager W × Result LoadError (Unit {0})
      → Daemon W × Option Outcome
  loaded d socket events (m, err e) =
      (record d { manager = m; listeners = 0 }, some (manager_error e))
  loaded d false events (m, ok u) =
      (closed (record d { manager = m; listeners = 0 }), some no_socket)
  loaded d true events (m, ok u) = enabled (record d { manager = m }) events (set_enabled k true m)

  -- `Run`, with the listeners open and the upstream probed; nothing ends it while events go on.
  unfoldable pub run : EngineConfig → Bool → List Event → Daemon W → Daemon W × Option Outcome
  run cfg socket events d = loaded d socket events (load k cfg d.manager)
