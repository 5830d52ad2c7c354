-- ===== src/Relay/Serve/Counts.antt =====
-- relay.go: what the counters of `Serve` count.
use kernel_su_tun2proxy.Prelude.{
  ℕ, suc, ◌+◌, ◌%◌, ◌^◌, ◌≤◌, true, List, [], ◌∷◌, ◌++◌, some, get_elem?, set, total, total-set,
  total-append, total-le, ◌≡◌, ◌⊎◌, refl, subst, arith,
}
use kernel_su_tun2proxy.Relay.Serve.{
  Shared, Outcome, stopped, accept_failed, Acceptor, accepting, offered, turned_away, admitted,
  counted, joining, spawning, leaving, returned, Handler, resolving, connecting, relaying,
  releasing, leaving_count, finishing, gone, Accepts, accept, fail_stopped, fail_running, take_slot,
  no_slot, turn_away, count_refused, count_accepted, count_active, join_group, wait_over, Handles,
  Watcher, watch, resolve_ok, resolve_fails, connect_ok, connect_fails, relay_ends, count_failure,
  close_client, release_slot, count_out, done, System, Step, loop, spawn, handle, cancel, start,
  Reach, here, next,
}

-- What the accepting loop holds of the slots, the active connections, the wait group, and the
-- open connections.
abbrev pub loop_slots : Acceptor → ℕ
loop_slots admitted = 1
loop_slots counted = 1
loop_slots joining = 1
loop_slots spawning = 1
loop_slots _ = 0

abbrev pub loop_active : Acceptor → ℕ
loop_active joining = 1
loop_active spawning = 1
loop_active _ = 0

abbrev pub loop_waiting : Acceptor → ℕ
loop_waiting spawning = 1
loop_waiting _ = 0

abbrev pub loop_open : Acceptor → ℕ
loop_open offered = 1
loop_open turned_away = 1
loop_open a = loop_slots a

-- What a goroutine holds of them.
abbrev pub holds_slot : Handler → ℕ
holds_slot leaving_count = 0
holds_slot finishing = 0
holds_slot gone = 0
holds_slot _ = 1

abbrev pub is_active : Handler → ℕ
is_active finishing = 0
is_active gone = 0
is_active _ = 1

abbrev pub is_running : Handler → ℕ
is_running gone = 0
is_running _ = 1

abbrev pub is_open : Handler → ℕ
is_open releasing = 0
is_open h = holds_slot h

-- Once the loop is left for a cancelled context it is cancelled; once the wait is over no goroutine
-- is waited for.
abbrev pub Over : Acceptor → Shared → Type 0
Over (leaving stopped) m = m.cancelled ≡ true
Over (returned stopped) m = (m.cancelled ≡ true) × (m.waiting ≡ 0)
Over (returned accept_failed) m = m.waiting ≡ 0
Over _ m = Unit

-- Resolving, connecting or relaying.
abbrev pub at_work : Handler → ℕ
at_work resolving = 1
at_work connecting = 1
at_work relaying = 1
at_work _ = 0

work_below : (h : Handler) → at_work h ≤ holds_slot h
work_below h = ground arith

open_below : (h : Handler) → is_open h ≤ holds_slot h
open_below h = ground arith

held : (h : Handler) → holds_slot h ≤ is_running h
held h = ground arith

counted_in : (h : Handler) → is_active h ≤ is_running h
counted_in h = ground arith

opened : (h : Handler) → is_open h ≤ is_running h
opened h = ground arith

loop_below : (a : Acceptor) → loop_open a ≤ suc (loop_slots a)
loop_below a = ground arith

pub record Counts (max : ℕ) (s : System) : Type 0 where
  pub slots : s.mem.slots ≡ loop_slots s.acceptor + total holds_slot s.handlers
  pub active : s.mem.active ≡ (loop_active s.acceptor + total is_active s.handlers) % 2 ^ 64
  pub waiting : s.mem.waiting ≡ loop_waiting s.acceptor + total is_running s.handlers
  pub open_clients : s.mem.open_clients ≡ loop_open s.acceptor + total is_open s.handlers
  pub room : s.mem.slots ≤ max
  pub over : Over s.acceptor s.mem

Over-cancel : (a : Acceptor) (m : Shared) → Over a m → Over a (record m { cancelled = true })
Over-cancel a m h = ground arith

start-Counts : (max : ℕ) → Counts max start
start-Counts max = record {
  slots = refl;
  active = refl;
  waiting = refl;
  open_clients = refl;
  room = omega arith;
  over = tt;
}

module _ {max : ℕ} {v : Watcher} where
  Accepts-Counts :
      {m m' : Shared} {a a' : Acceptor} (hs : List Handler)
      → Accepts max m a m' a'
      → Counts max (record { watcher = v; mem = m; acceptor = a; handlers = hs })
      → Counts max (record { watcher = v; mem = m'; acceptor = a'; handlers = hs })
  Accepts-Counts hs accept c = ground arith
  Accepts-Counts hs (fail_stopped e) c = ground arith
  Accepts-Counts hs (fail_running e) c = ground arith
  Accepts-Counts hs (take_slot r) c = ground arith
  Accepts-Counts hs (no_slot r) c = ground arith
  Accepts-Counts hs (turn_away e) c = ground arith
  Accepts-Counts hs count_refused c = ground arith
  Accepts-Counts hs count_accepted c = ground arith
  Accepts-Counts hs count_active c = ground arith
  Accepts-Counts hs join_group c = ground arith
  Accepts-Counts hs (wait_over e) c = ground arith

  -- A move of a goroutine, from what it does to each sum.
  moved-Counts :
      {m m' : Shared} {h h' : Handler} (a : Acceptor) (hs ks : List Handler)
      → Handles m h m' h'
      → total holds_slot ks + holds_slot h ≡ total holds_slot hs + holds_slot h'
      → total is_active ks + is_active h ≡ total is_active hs + is_active h'
      → total is_running ks + is_running h ≡ total is_running hs + is_running h'
      → total is_open ks + is_open h ≡ total is_open hs + is_open h'
      → Counts max (record { watcher = v; mem = m; acceptor = a; handlers = hs })
      → Counts max (record { watcher = v; mem = m'; acceptor = a; handlers = ks })
  moved-Counts a hs ks resolve_ok p q r s h = ground arith
  moved-Counts a hs ks resolve_fails p q r s h = ground arith
  moved-Counts a hs ks connect_ok p q r s h = ground arith
  moved-Counts a hs ks connect_fails p q r s h = ground arith
  moved-Counts a hs ks (relay_ends o) p q r s h = ground arith
  moved-Counts a hs ks count_failure p q r s h = ground arith
  moved-Counts a hs ks (close_client o) p q r s h = ground arith
  moved-Counts a hs ks (release_slot o) p q r s h = ground arith
  moved-Counts a hs ks count_out p q r s h = ground arith
  moved-Counts a hs ks (done o) p q r s h = ground arith

  Handles-Counts :
      {m m' : Shared} {h h' : Handler} (a : Acceptor) (hs : List Handler) (i : ℕ)
      → get_elem? hs i ≡ some h
      → Handles m h m' h'
      → Counts max (record { watcher = v; mem = m; acceptor = a; handlers = hs })
      → Counts max (record { watcher = v; mem = m'; acceptor = a; handlers = set hs i h' })
  Handles-Counts {h' = h'} a hs i e mv =
      moved-Counts a hs (set hs i h') mv (total-set holds_slot hs i h' e)
        (total-set is_active hs i h' e) (total-set is_running hs i h' e)
        (total-set is_open hs i h' e)

module _ {max : ℕ} where
  pub Step-Counts : {s t : System} → Step max s t → Counts max s → Counts max t
  Step-Counts {s} (loop st) c = Accepts-Counts s.handlers st c
  Step-Counts {s} (spawn e) c = spawned s.acceptor e c
    where
      spawned :
          (a : Acceptor)
          → a ≡ spawning
          → Counts max
              (record { watcher = s.watcher; mem = s.mem; acceptor = a; handlers = s.handlers })
          → Counts max (record {
            watcher = s.watcher;
            mem = s.mem;
            acceptor = accepting;
            handlers = s.handlers ++ resolving ∷ [];
          })
      spawned a e c =
          let d : Counts max (record {
            watcher = s.watcher;
            mem = s.mem;
            acceptor = spawning;
            handlers = s.handlers;
          }) =
            subst
              (λ x.
                Counts max (record {
                  watcher = s.watcher;
                  mem = s.mem;
                  acceptor = x;
                  handlers = s.handlers;
                }))
              e c in
          ground (
            arith,
            d.slots,
            d.active,
            d.waiting,
            d.open_clients,
            d.room,
            total-append holds_slot s.handlers (resolving ∷ []),
            total-append is_active s.handlers (resolving ∷ []),
            total-append is_running s.handlers (resolving ∷ []),
            total-append is_open s.handlers (resolving ∷ []),
          )
  Step-Counts {s} (handle i e mv) c = Handles-Counts s.acceptor s.handlers i e mv c
  Step-Counts {s} (watch w) c = record {
    slots = c.slots;
    active = c.active;
    waiting = c.waiting;
    open_clients = c.open_clients;
    room = c.room;
    over = c.over;
  }
  Step-Counts {s} (cancel e) c = record {
    slots = c.slots;
    active = c.active;
    waiting = c.waiting;
    open_clients = c.open_clients;
    room = c.room;
    over = Over-cancel s.acceptor s.mem c.over;
  }

  pub Reach-Counts : {s : System} → Reach max s → Counts max s
  Reach-Counts here = start-Counts max
  Reach-Counts (next r st) = Step-Counts st (Reach-Counts r)

  -- At any time no more than `max` slots are taken, no more than `max` goroutines resolve, connect or
  -- relay, and at most one client connection beyond `max` is open.
  pub Reach-le :
      {s : System}
      → Reach max s
      → (s.mem.slots ≤ max) × (total at_work s.handlers ≤ max) × (s.mem.open_clients ≤ suc max)
  Reach-le {s} r =
      let c = Reach-Counts r in
      let opened = total-le is_open holds_slot s.handlers open_below in
      let working = total-le at_work holds_slot s.handlers work_below in
      (
        c.room,
        omega (arith, c.slots, c.room, working),
        omega (arith, c.slots, c.room, c.open_clients, opened, loop_below s.acceptor),
      )

  -- When `Serve` has returned, no slot is taken, no connection is counted as active, no client
  -- connection is open and no goroutine of a connection is left; and it returned nil only if the
  -- context was cancelled. The goroutine that waits for the context to be cancelled is not counted.
  pub returned_lem :
      {s : System} {o : Outcome}
      → Reach max s
      → s.acceptor ≡ returned o
      → (s.mem.slots ≡ 0)
        × (s.mem.active ≡ 0)
        × (s.mem.open_clients ≡ 0)
        × (total is_running s.handlers ≡ 0)
        × ((o ≡ accept_failed) ⊎ (s.mem.cancelled ≡ true))
  returned_lem {s} {o} r e =
      ended o (subst (λ a. Counts max (record s { acceptor = a })) e (Reach-Counts r))
    where
      ended :
          (o : Outcome)
          → Counts max (record s { acceptor = returned o })
          → (s.mem.slots ≡ 0)
            × (s.mem.active ≡ 0)
            × (s.mem.open_clients ≡ 0)
            × (total is_running s.handlers ≡ 0)
            × ((o ≡ accept_failed) ⊎ (s.mem.cancelled ≡ true))
      ended stopped c = ground (
        arith,
        c.slots,
        c.active,
        c.waiting,
        c.open_clients,
        c.over,
        total-le holds_slot is_running s.handlers held,
        total-le is_active is_running s.handlers counted_in,
        total-le is_open is_running s.handlers opened,
      )
      ended accept_failed c = ground (
        arith,
        c.slots,
        c.active,
        c.waiting,
        c.open_clients,
        c.over,
        total-le holds_slot is_running s.handlers held,
        total-le is_active is_running s.handlers counted_in,
        total-le is_open is_running s.handlers opened,
      )
