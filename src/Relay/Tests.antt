-- ===== src/Relay/Tests.antt =====
-- One connection that is accepted and cannot be resolved, and a context that is cancelled.
use kernel_su_tun2proxy.Prelude.{suc, ◌≤◌, true, false, [], ◌∷◌, total, ◌≡◌, ◌⊎◌, refl, arith}
use kernel_su_tun2proxy.Relay.Serve.{
  System, stopped, accept_failed, watching, accepting, leaving, returned, resolving, failed, gone,
  accept, fail_stopped, take_slot, count_accepted, count_active, join_group, wait_over,
  resolve_fails, count_failure, close_client, release_slot, count_out, done, loop, spawn, handle,
  cancel, Reach, here, next,
}
use kernel_su_tun2proxy.Relay.Serve.Counts.{at_work, is_running, Reach-le, returned_lem}

abbrev serving : System
serving = record {
  watcher = watching;
  mem = record {
    slots = 1;
    waiting = 1;
    accepted = 1;
    active = 1;
    failures = 0;
    open_clients = 1;
    cancelled = false;
  };
  acceptor = accepting;
  handlers = resolving ∷ [];
}

abbrev stopping : System
stopping = record {
  watcher = watching;
  mem = record {
    slots = 1;
    waiting = 1;
    accepted = 1;
    active = 1;
    failures = 0;
    open_clients = 1;
    cancelled = true;
  };
  acceptor = leaving stopped;
  handlers = resolving ∷ [];
}

abbrev unresolved : System
unresolved = record {
  watcher = watching;
  mem = record {
    slots = 1;
    waiting = 1;
    accepted = 1;
    active = 1;
    failures = 0;
    open_clients = 1;
    cancelled = true;
  };
  acceptor = leaving stopped;
  handlers = failed ∷ [];
}

abbrev ended : System
ended = record {
  watcher = watching;
  mem = record {
    slots = 0;
    waiting = 0;
    accepted = 1;
    active = 0;
    failures = 1;
    open_clients = 0;
    cancelled = true;
  };
  acceptor = returned stopped;
  handlers = gone ∷ [];
}

serving_reached : Reach 1 serving
serving_reached =
    next
      (next
        (next
          (next (next (next here (loop accept)) (loop (take_slot (omega arith))))
            (loop count_accepted))
          (loop count_active))
        (loop join_group))
      (spawn refl)

stopping_reached : Reach 1 stopping
stopping_reached = next (next serving_reached (cancel refl)) (loop (fail_stopped refl))

ended_reached : Reach 1 ended
ended_reached =
    next
      (next
        (next
          (next
            (next
              (next (next stopping_reached (handle 0 refl resolve_fails))
                (handle 0 refl count_failure))
              (handle 0 refl (close_client refl)))
            (handle 0 refl (release_slot refl)))
          (handle 0 refl count_out))
        (handle 0 refl (done refl)))
      (loop (wait_over refl))

Reach-le_example :
    (serving.mem.slots ≤ 1)
    × (total at_work serving.handlers ≤ 1)
    × (serving.mem.open_clients ≤ suc 1)
Reach-le_example = Reach-le serving_reached

returned_example :
    (ended.mem.slots ≡ 0)
    × (ended.mem.active ≡ 0)
    × (ended.mem.open_clients ≡ 0)
    × (total is_running ended.handlers ≡ 0)
    × ((stopped ≡ accept_failed) ⊎ (ended.mem.cancelled ≡ true))
returned_example = returned_lem ended_reached refl
