-- ===== src/Redirect/Flows.antt =====
-- ebpf-proxy/internal/redirect/loader_linux.go: `Resolve` and `Sweep`, which take flows out of
-- flow_map. The BPF programs change the map at any time, so what a lookup answers is left open; the
-- calls are written down, the newest first.
pub mod Matching
pub mod Sweeping
use kernel_su_tun2proxy.Prelude.{
  ℕ, zero, suc, ◌%◌, ◌^◌, Bool, true, false, not, ◌&&◌, ◌||◌, List, [], ◌∷◌, Option, none, some,
  ltb, ◌==◌, if◌then◌else◌, take,
}
use kernel_su_tun2proxy.Prelude.Exec.{
  Result, ok, err, Exec, ◌>>=◌, ◌>>◌, pure, raise, get, modify, fail_if, continue,
}
use kernel_su_tun2proxy.Redirect.Abi.{FlowKey, FlowValue, abi_version, seconds, copied, u64_minus}

pub data Lookup : Type 0 where
  found : FlowValue → Lookup
  missing lookup_failed : Lookup

pub data Call : Type 0 where
  looked_up : FlowKey → Lookup → Call
  removed : FlowKey → Call
  clock : ℕ → Call
  slept : Call

-- `entries` is what the calls of an iterator give until it ends.
pub record FlowKernel (W : Type 0) : Type 0 where
  pub lookup : FlowKey → W → W × Lookup
  pub remove : FlowKey → W → W
  pub monotonic_ns : W → W × ℕ
  pub sleep : W → W
  pub entries : W → W × List (FlowKey × FlowValue)

-- A TCP address: `IP.To4()`, nil or not, `IP.To16()` and the port.
pub record TcpAddr : Type 0 where
  pub to4 : Option (List ℕ)
  pub to16 : List ℕ
  pub port : ℕ

pub data FlowError : Type 0 where
  bad_client bad_listener stale not_looked_up unavailable : FlowError

pub record State (W : Type 0) : Type 0 where
  pub world : W
  pub calls : List Call

abbrev pub key_with : ℕ → List ℕ → List ℕ → ℕ → ℕ → FlowKey
key_with family client listener client_port listener_port = record {
  version = abi_version;
  family = family;
  protocol = 6;
  client = copied 16 client;
  listener = copied 16 listener;
  client_port = client_port % 2 ^ 16;
  listener_port = listener_port % 2 ^ 16;
}

abbrev pub key_for : Option (List ℕ) → Option (List ℕ) → TcpAddr → TcpAddr → FlowKey
key_for (some a) (some b) remote local = key_with 2 (take 4 a) (take 4 b) remote.port local.port
key_for _ _ remote local = key_with 10 remote.to16 local.to16 remote.port local.port

abbrev pub flow_key : TcpAddr → TcpAddr → FlowKey
flow_key remote local = key_for remote.to4 local.to4 remote local

-- The tests of a flow that was found; the clock is read only if the others pass.
abbrev pub mismatches : FlowKey → FlowValue → Bool
mismatches key v = not (v.version == abi_version) || (v.cookie == 0) || not (v.family == key.family)

module _ {W : Type 0} (k : FlowKernel W) where
  abbrev pub M : Type 0 → Type 0
  M A = Exec (State W) FlowError A

  abbrev pub read_clock : M ℕ
  read_clock s =
      let (v, n) = k.monotonic_ns s.world in (record { world = v; calls = clock n ∷ s.calls }, ok n)

  abbrev pub look_up : FlowKey → M Lookup
  look_up key s =
      let (v, a) = k.lookup key s.world in
      (record { world = v; calls = looked_up key a ∷ s.calls }, ok a)

  abbrev pub remove : FlowKey → M (Unit {0})
  remove key s = (record { world = k.remove key s.world; calls = removed key ∷ s.calls }, ok tt)

  abbrev pub sleep : M (Unit {0})
  sleep s = (record { world = k.sleep s.world; calls = slept ∷ s.calls }, ok tt)

  abbrev pub take_fresh : FlowKey → FlowValue → ℕ → M FlowValue
  take_fresh key v now =
      fail_if (ltb (seconds 30) (u64_minus now v.created_ns)) stale >> (remove key >> pure v)

  abbrev pub take_flow : FlowKey → FlowValue → M FlowValue
  take_flow key v = fail_if (mismatches key v) stale >> (read_clock >>= take_fresh key v)

  -- The loop, by the attempts left.
  abbrev pub answered : FlowKey → M FlowValue → Lookup → M FlowValue
  answered key again (found v) = take_flow key v
  answered key again missing = sleep >> again
  answered key again lookup_failed = raise not_looked_up

  unfoldable pub attempts : FlowKey → ℕ → M FlowValue
  attempts key zero = raise unavailable
  attempts key (suc n) = look_up key >>= answered key (attempts key n)

  -- `Resolve`, of the addresses that are TCP addresses.
  unfoldable pub resolve : Option TcpAddr → Option TcpAddr → M FlowValue
  resolve none local = raise bad_client
  resolve (some remote) none = raise bad_listener
  resolve (some remote) (some local) = attempts (flow_key remote local) 10

  abbrev pub remove_same : FlowKey → FlowValue → Lookup → M (Unit {0})
  remove_same key v (found current) = if current.cookie == v.cookie then remove key else pure tt
  remove_same key v _ = pure tt

  abbrev pub sweep_old : FlowKey → FlowValue → ℕ → M (Unit {0})
  sweep_old key v now =
      if ltb (seconds 60) (u64_minus now v.created_ns)
      then look_up key >>= remove_same key v
      else pure tt

  -- The loop of `Sweep` over what the iterator gives.
  unfoldable pub sweep_all : List (FlowKey × FlowValue) → M (Unit {0})
  sweep_all [] = pure tt
  sweep_all ((key, v) ∷ rest) = (read_clock >>= sweep_old key v) >> sweep_all rest

  abbrev pub iterate : M (List (FlowKey × FlowValue))
  iterate s = let (v, es) = k.entries s.world in (record s { world = v }, ok es)

  unfoldable pub sweep : M (Unit {0})
  sweep = iterate >>= sweep_all
