-- ===== src/Daemon/Shutdown.antt =====
-- server_linux.go: what `Run` leaves of the redirection, and what holds while it goes on.
use kernel_su_tun2proxy.Prelude.{
  ℕ, String, str_eq, Bool, true, false, not, List, [], ◌∷◌, Option, none, some, reverse, ◌≡◌, refl,
  sym, ap, ◌∙◌, ◌%◌, ◌==◌, if_case,
}
use kernel_su_tun2proxy.Prelude.Exec.{
  Result, ok, err, returned, failed, Ensures, weaken, on_every_path,
}
use kernel_su_tun2proxy.Engine.Config.{EngineConfig}
use kernel_su_tun2proxy.Redirect.Abi.{Policy}
use kernel_su_tun2proxy.Redirect.Manager.{
  Kernel, LoadError, load, set_enabled, heartbeat, program_names,
}
use kernel_su_tun2proxy.Redirect.Manager.{State as Manager}
use kernel_su_tun2proxy.Redirect.Manager.Links.{
  Kept, IsClosed, heartbeat_lem, set_enabled_lem, detach_lem, close_lem,
}
use kernel_su_tun2proxy.Redirect.Manager.Loading.{IsLoaded, load_lem}
use kernel_su_tun2proxy.Redirect.Flows.{FlowKernel}
use kernel_su_tun2proxy.Redirect.Uids.{uid}
use kernel_su_tun2proxy.Daemon.{
  Request, Response, Event, signal, stop, serve_ended, control_ended, tick, command, Outcome,
  Daemon, commanded, is_read, act, handle, sweep_world, swept, beaten, receive, ticks_after,
  sweep_after, continued, running, shut_down, ended, enabled, loaded, run,
}
use kernel_su_tun2proxy.Daemon.Steady.{Steady, in_world, uid-IsSteady}

module _ {W : Type 0} (k : Kernel W) (flows : FlowKernel W) (sort : List ℕ → List ℕ) where
  -- The programs of the configuration are attached, and config_map has an enabled policy.
  pub record Serves (cfg : EngineConfig) (d : Daemon W) : Type 0 where
    pub live : d.manager.live ≡ reverse (program_names k cfg.ipv6)
    pub links : d.manager.live ≡ d.manager.links
    pub collection : d.manager.collection ≡ true
    pub written : d.manager.written ≡ some d.manager.policy
    pub enabled : d.manager.policy.enabled ≡ 1
    pub ready : d.ready ≡ true

  -- What the shutdown needs.
  record CanStop (d : Daemon W) : Type 0 where
    pub linked : d.manager.live ≡ d.manager.links
    pub collection : d.manager.collection ≡ true

  Steady-Serves :
      (cfg : EngineConfig) (d : Daemon W) (m : Manager W)
      → Serves cfg d
      → Steady k flows sort d.manager m
      → Serves cfg (record d { manager = m })
  Steady-Serves cfg d m s f = record {
    live = f.live ∙ s.live;
    links = f.live ∙ s.links ∙ sym f.links;
    collection = f.collection ∙ s.collection;
    written = f.written ∙ s.written ∙ ap some (sym f.policy);
    enabled = ap (λ (p : Policy). p.enabled) f.policy ∙ s.enabled;
    ready = s.ready;
  }

  commanded-Serves :
      (cfg : EngineConfig) (d : Daemon W) (r : Manager W × Result LoadError (Unit {0}))
      → Serves cfg d
      → Ensures (λ _ t. Steady k flows sort d.manager t) (λ _ t. Steady k flows sort d.manager t) r
      → Serves cfg (commanded k flows sort d r).0
  commanded-Serves cfg d (m, ok u) s (returned f) = Steady-Serves cfg d m s f
  commanded-Serves cfg d (m, err e) s (failed f) = Steady-Serves cfg d m s f

  act-Serves :
      (cfg : EngineConfig) (r : Request) (d : Daemon W)
      → Serves cfg d
      → Serves cfg (act k flows sort r d).0
  unfolding act
  act-Serves cfg r d s =
      let good : Daemon W × Response → Type 0 = λ p. Serves cfg p.0 in
      let after = λ (action : String) (u : ℕ).
        commanded-Serves cfg d (uid k sort action u d.manager) s
          (uid-IsSteady k flows sort action u d.manager) in
      if_case good (is_read k flows sort r.action) (λ _. s)
        (λ _.
          if_case good (str_eq r.action "uid-add") (λ _. after "add" r.uid)
            (λ _.
              if_case good (str_eq r.action "uid-del") (λ _. after "del" r.uid)
                (λ _.
                  if_case good (str_eq r.action "uid-clear") (λ _. after "clear" 0)
                    (λ _.
                      if_case good (str_eq r.action "stop")
                        (λ _. record {
                          live = s.live;
                          links = s.links;
                          collection = s.collection;
                          written = s.written;
                          enabled = s.enabled;
                          ready = s.ready;
                        })
                        (λ _. s)))))

  handle-Serves :
      (cfg : EngineConfig) (r : Request) (d : Daemon W)
      → Serves cfg d
      → Serves cfg (handle k flows sort r d).0
  unfolding handle
  handle-Serves cfg r d s =
      let good : Daemon W × Response → Type 0 = λ p. Serves cfg p.0 in
      if_case good d.control_closed (λ _. s)
        (λ _. if_case good (not r.post) (λ _. s) (λ _. act-Serves cfg r d s))

  sweep_after-Serves :
      (cfg : EngineConfig) (e : Event) (n : ℕ) (d : Daemon W)
      → Serves cfg d
      → Serves cfg (sweep_after k flows sort e n d)
  unfolding swept
  sweep_after-Serves cfg (tick true) n d s =
      if_case (Serves cfg) (n % 20 == 0)
        (λ _.
          Steady-Serves cfg d _ s
            (in_world k flows sort d.manager (sweep_world k flows sort d.manager.world)))
        (λ _. s)
  sweep_after-Serves cfg (tick false) n d s = s
  sweep_after-Serves cfg signal n d s = s
  sweep_after-Serves cfg stop n d s = s
  sweep_after-Serves cfg serve_ended n d s = s
  sweep_after-Serves cfg control_ended n d s = s
  sweep_after-Serves cfg (command r) n d s = s

  -- What a case of the select leaves.
  abbrev Received : EngineConfig → Daemon W × Option Outcome → Type 0
  Received cfg (d, none) = Serves cfg d
  Received cfg (d, some o) = CanStop d

  can_stop : (cfg : EngineConfig) (d : Daemon W) → Serves cfg d → CanStop d
  can_stop cfg d s = record { linked = s.links; collection = s.collection }

  beaten-Received :
      (cfg : EngineConfig) (d : Daemon W) (r : Manager W × Result LoadError (Unit {0}))
      → Serves cfg d
      → Ensures
          (λ _ t.
            Kept k d.manager t
            × (t.written ≡ some t.policy)
            × ((n : ℕ) × (t.policy ≡ record d.manager.policy { heartbeat_ns = n })))
          (λ _ t. Kept k d.manager t)
          r
      → Received cfg (beaten k flows sort r d)
  beaten-Received cfg d (m, ok u) s (returned (h, w, (n, p))) = record {
    live = h.live ∙ s.live;
    links = h.live ∙ s.links ∙ sym h.links;
    collection = h.collection ∙ s.collection;
    written = w;
    enabled = ap (λ (x : Policy). x.enabled) p ∙ s.enabled;
    ready = s.ready;
  }
  beaten-Received cfg d (m, err e) s (failed h) = record {
    linked = h.live ∙ s.links ∙ sym h.links;
    collection = h.collection ∙ s.collection;
  }

  receive-Received :
      (cfg : EngineConfig) (e : Event) (d : Daemon W)
      → Serves cfg d
      → Received cfg (receive k flows sort e d)
  unfolding receive
  receive-Received cfg signal d s = can_stop cfg d s
  receive-Received cfg stop d s = can_stop cfg d s
  receive-Received cfg serve_ended d s = can_stop cfg d s
  receive-Received cfg control_ended d s = can_stop cfg d s
  receive-Received cfg (tick false) d s = can_stop cfg d s
  receive-Received cfg (tick true) d s =
      beaten-Received cfg d (heartbeat k d.manager) s (heartbeat_lem k d.manager)
  receive-Received cfg (command r) d s = handle-Serves cfg r d s

  running-Received :
      (cfg : EngineConfig) (es : List Event) (n : ℕ) (d : Daemon W)
      → Serves cfg d
      → Received cfg (running k flows sort es n d)
  unfolding running
  running-Received cfg [] n d s = s
  running-Received cfg (e ∷ es) n d s =
      go_on (receive k flows sort e d) (receive-Received cfg e d s)
        (λ t q. running-Received cfg es (ticks_after k flows sort e n) t q)
    where
      go_on :
          (r : Daemon W × Option Outcome)
          → Received cfg r
          → ((t : Daemon W)
              → Serves cfg t
              → Received cfg (running k flows sort es (ticks_after k flows sort e n) t))
          → Received cfg (
              continued k flows sort e
                (ticks_after k flows sort e n)
                r
                (λ t. running k flows sort es (ticks_after k flows sort e n) t))
      go_on (t, none) q rest = rest _ (sweep_after-Serves cfg e (ticks_after k flows sort e n) t q)
      go_on (t, some o) q rest = q

  -- How `Run` stands: it goes on serving, or everything is taken down.
  abbrev pub Stands : EngineConfig → Daemon W × Option Outcome → Type 0
  Stands cfg (d, none) = Serves cfg d
  Stands cfg (d, some o) = IsClosed k d.manager × (d.listeners ≡ 0) × (d.ready ≡ false)

  shut_down-CanStop : (d : Daemon W) → CanStop d → CanStop (shut_down k flows sort d)
  unfolding shut_down
  shut_down-CanStop d c =
      let t = (set_enabled k false d.manager).0 in
      let h : Kept k d.manager t =
        on_every_path (weaken (set_enabled_lem k false d.manager) (λ _ _ q. q.0) (λ _ _ q. q)) in
      let (l, m, n) = detach_lem k t (h.live ∙ c.linked ∙ sym h.links) in
      record { linked = l ∙ sym m; collection = n ∙ h.collection ∙ c.collection }

  ended-Stands :
      (cfg : EngineConfig) (r : Daemon W × Option Outcome)
      → Received cfg r
      → Stands cfg (ended k flows sort r)
  unfolding shut_down
  ended-Stands cfg (d, none) s = s
  ended-Stands cfg (d, some o) c =
      let after = shut_down-CanStop d c in
      (close_lem k (shut_down k flows sort d).manager after.linked after.collection, refl, refl)

  enabled-Stands :
      (cfg : EngineConfig) (es : List Event) (d : Daemon W)
      (r : Manager W × Result LoadError (Unit {0}))
      → IsLoaded k cfg d.manager
      → d.ready ≡ false
      → Ensures
          (λ _ t.
            Kept k d.manager t
            × (t.written ≡ some t.policy)
            × ((n : ℕ) × (t.policy ≡ record d.manager.policy { enabled = 1; heartbeat_ns = n })))
          (λ _ t. Kept k d.manager t)
          r
      → Stands cfg (enabled k flows sort d es r)
  enabled-Stands cfg es d (m, ok u) l r (returned (h, w, (n, p))) = ended-Stands cfg _ (
      running-Received cfg es 0 _ (record {
        live = h.live ∙ l.live;
        links = h.live ∙ sym l.links ∙ sym h.links;
        collection = h.collection ∙ l.collection;
        written = w;
        enabled = ap (λ (x : Policy). x.enabled) p;
        ready = refl;
      }))
  enabled-Stands cfg es d (m, err e) l r (failed h) =
      (close_lem k m (h.live ∙ sym l.links ∙ sym h.links) (h.collection ∙ l.collection), refl, r)

  loaded-Stands :
      (cfg : EngineConfig) (socket : Bool) (es : List Event) (d : Daemon W)
      (r : Manager W × Result LoadError (Unit {0}))
      → d.ready ≡ false
      → Ensures (λ _ t. IsLoaded k cfg t) (λ _ t. IsClosed k t) r
      → Stands cfg (loaded k flows sort d socket es r)
  loaded-Stands cfg true es d (m, ok u) r (returned l) =
      enabled-Stands cfg es (record d { manager = m }) (set_enabled k true m) l r
        (set_enabled_lem k true m)
  loaded-Stands cfg false es d (m, ok u) r (returned l) =
      (close_lem k m (sym l.links) l.collection, refl, r)
  loaded-Stands cfg socket es d (m, err e) r (failed c) = (c, refl, r)

  -- From nothing attached and not ready: while `Run` goes on, whatever events and commands there were,
  -- it is ready, the programs of the configuration are attached and config_map has an enabled policy;
  -- and once it has returned, for any reason, nothing is attached, the collection and the listeners
  -- are closed and it is not ready.
  pub run_lem :
      (cfg : EngineConfig) (socket : Bool) (es : List Event) (d : Daemon W)
      → IsClosed k d.manager
      → d.ready ≡ false
      → Stands cfg (run k flows sort cfg socket es d)
  unfolding run
  run_lem cfg socket es d c r =
      loaded-Stands cfg socket es d (load k cfg d.manager) r (load_lem k cfg d.manager c)
