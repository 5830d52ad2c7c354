-- ===== src/Redirect/Manager.antt =====
-- ebpf-proxy/internal/redirect/loader_linux.go: `Manager`, `Load` and the methods that change the
-- policy or the links. The libraries cilium/ebpf, net and netip are the fields of `Kernel`: their
-- calls take and give back the state of the outside world.
pub mod Links
pub mod Loading
use kernel_su_tun2proxy.Prelude.{
  ℕ, zero, suc, ◌+◌, ◌%◌, ◌^◌, ℤ, to_nat, String, str_eq, Bool, true, false, not, ◌&&◌, ◌||◌, List,
  [], ◌∷◌, ◌++◌, Option, none, some, ◌==◌, if◌then◌else◌,
}
use kernel_su_tun2proxy.Prelude.Exec.{
  Result, ok, err, Exec, ◌>>=◌, ◌>>◌, pure, raise, get, modify, fail_if, continue,
}
use kernel_su_tun2proxy.Engine.Config.{EngineConfig}
use kernel_su_tun2proxy.Redirect.Abi.{Policy, Prefix, abi_version, seconds, copied}
use kernel_su_tun2proxy.Redirect.Cgroup.{CgroupFs, CgroupError, check_cgroup}

-- What is put into a map.
pub data Write : Type 0 where
  target_uid bypass_uid : ℕ → Write
  bypass_prefix bypass_prefix6 : Prefix → Write
  config : Policy → Write

pub data Deletion : Type 0 where
  deleted no_key delete_failed : Deletion

-- The key and value size of each map of a BPF object.
abbrev pub Spec : Type 0
Spec = String → Option (ℕ × ℕ)

-- netip.Prefix
pub record ParsedPrefix : Type 0 where
  pub bits : ℕ
  pub is4 : Bool
  pub masked : List ℕ  -- Masked().Addr().As16()

pub record Kernel (W : Type 0) : Type 0 where
  pub cgroup_fs : W → CgroupFs
  pub load_spec : String → W → W × Option Spec
  pub new_collection : Spec → W → W × Option (String → Bool)  -- the programs
  pub put : Write → W → W × Bool
  pub delete_uid : ℕ → W → W × Deletion
  -- The keys that the iterator gives, and whether it ended without an error.
  pub uid_keys : W → W × (List ℕ × Bool)
  pub attach : String → W → W × Bool
  pub close_link : String → W → W
  pub close_collection : W → W
  pub monotonic_ns : W → W × ℕ
  pub open_dir : String → W → W × Bool
  pub euid : ℕ
  pub to4 : String → List ℕ  -- net.ParseIP(s).To4()
  pub parse_prefix : String → Option ParsedPrefix

pub data LoadError : Type 0 where
  required bad_spec abi_mismatch verifier bad_prefix put_failed no_cgroup no_program no_link
        bad_action uid_failed :
      LoadError
  cgroup : CgroupError → LoadError

-- The manager and the world. `links` has the newest first. `live` are the programs attached and not
-- closed again, the newest first, and `written` is the policy last put into config_map.
pub record State (W : Type 0) : Type 0 where
  pub world : W
  pub collection : Bool
  pub policy : Policy
  pub links : List String
  pub live : List String
  pub written : Option Policy

module _ {W : Type 0} (k : Kernel W) where
  abbrev pub M : Type 0 → Type 0
  M A = Exec (State W) LoadError A

  abbrev pub set_written : Write → Bool → State W → State W
  set_written (config p) true s = record s { written = some p }
  set_written _ _ s = s

  abbrev pub checked : Bool → LoadError → M (Unit {0})
  checked true e s = (s, ok tt)
  checked false e s = (s, err e)

  -- `Put`
  unfoldable pub put_map : Write → M (Unit {0})
  put_map w s =
      let (v, b) = k.put w s.world in
      checked b put_failed (set_written w b (record s { world = v }))

  abbrev pub read_clock : M ℕ
  read_clock s = let (v, n) = k.monotonic_ns s.world in (record s { world = v }, ok n)

  abbrev pub flag : Bool → ℕ
  flag true = 1
  flag false = 0

  -- What `SetEnabled` and `Heartbeat` both end with.
  unfoldable pub heartbeat : M (Unit {0})
  heartbeat = read_clock >>= λ n.
      modify (λ (s : State W). record s { policy = record s.policy { heartbeat_ns = n } })
      >> (get >>= λ (s : State W). put_map (config s.policy))

  unfoldable pub set_enabled : Bool → M (Unit {0})
  set_enabled on =
      modify (λ (s : State W). record s { policy = record s.policy { enabled = flag on } })
      >> heartbeat

  abbrev pub without : String → List String → List String
  without n [] = []
  without n (m ∷ ms) = if str_eq n m then ms else m ∷ without n ms

  -- The loop of `Detach` over the links.
  unfoldable pub close_links : List String → State W → State W
  close_links [] s = s
  close_links (n ∷ ns) s =
      close_links ns (record s { world = k.close_link n s.world; live = without n s.live })

  unfoldable pub detach : State W → State W
  detach s = let t = close_links s.links s in record t { links = [] }

  abbrev pub close_if : Bool → State W → State W
  close_if false s = s
  close_if true s =
      let t = detach (set_enabled false s).0 in
      record t { world = k.close_collection t.world; collection = false }

  unfoldable pub close : State W → State W
  close s = close_if s.collection s

  -- The sizes that `Load` asks for.
  abbrev pub map_sizes : List (String × ℕ × ℕ)
  map_sizes =
      ("target_uid_map", 4, 4)
      ∷ ("bypass_uid_map", 4, 4)
      ∷ ("config_map", 4, 40)
      ∷ ("socket_store", 4, 48)
      ∷ ("flow_map", 48, 48)
      ∷ ("bypass_prefix", 20, 4)
      ∷ ("bypass_prefix6", 20, 4)
      ∷ ("stats_map", 4, 8)
      ∷ []

  abbrev pub same_sizes : Option (ℕ × ℕ) → ℕ × ℕ → Bool
  same_sizes none _ = false
  same_sizes (some p) q = (p.0 == q.0) && (p.1 == q.1)

  unfoldable pub abi_matches : Spec → List (String × ℕ × ℕ) → Bool
  abi_matches spec [] = true
  abi_matches spec ((name, key, value) ∷ rest) =
      same_sizes (spec name) (key, value) && abi_matches spec rest

  -- `Policy` of a configuration, disabled.
  abbrev pub policy_of : EngineConfig → Policy
  policy_of cfg = record {
    version = abi_version;
    enabled = 0;
    all_non_bypass = flag (str_eq cfg.policy_mode "all_non_bypass");
    ipv6 = flag cfg.ipv6;
    port = to_nat cfg.listener_port % 2 ^ 16;
    ipv4 = copied 4 (k.to4 cfg.listener_address);
    heartbeat_ns = 0;
    lease_ns = seconds 3;
  }

  unfoldable pub put_all : List Write → M (Unit {0})
  put_all [] = pure tt
  put_all (w ∷ ws) = put_map w >> put_all ws

  abbrev pub prefix_write : ParsedPrefix → Write
  prefix_write p =
      if p.is4
      then bypass_prefix (record { bits = p.bits + 96; address = p.masked })
      else bypass_prefix6 (record { bits = p.bits; address = p.masked })

  abbrev pub put_cidr : Option ParsedPrefix → M (Unit {0})
  put_cidr none = raise bad_prefix
  put_cidr (some p) = put_map (prefix_write p)

  unfoldable pub put_cidrs : List String → M (Unit {0})
  put_cidrs [] = pure tt
  put_cidrs (c ∷ cs) = put_cidr (k.parse_prefix c) >> put_cidrs cs

  abbrev pub map_write : (ℕ → Write) → List ℕ → List Write
  map_write f [] = []
  map_write f (u ∷ us) = f u ∷ map_write f us

  abbrev pub program_names : Bool → List String
  program_names ipv6 =
      ("ep_sockops" ∷ "ep_connect4" ∷ []) ++ (if ipv6 then "ep_connect6" ∷ [] else [])

  abbrev pub attach_link : String → M (Unit {0})
  attach_link n s =
      let (v, b) = k.attach n s.world in
      if b
      then (record s { world = v; live = n ∷ s.live; links = n ∷ s.links }, ok tt)
      else (record s { world = v }, err no_link)

  unfoldable pub attach_all : (String → Bool) → List String → M (Unit {0})
  attach_all programs [] = pure tt
  attach_all programs (n ∷ ns) =
      fail_if (not (programs n)) no_program >> attach_link n >> attach_all programs ns

  abbrev pub open_cgroup : String → M (Unit {0})
  open_cgroup path s =
      let (v, b) = k.open_dir path s.world in checked b no_cgroup (record s { world = v })

  -- `Load` once the collection is there.
  unfoldable pub load_collection : EngineConfig → (String → Bool) → M (Unit {0})
  load_collection cfg programs =
      modify (λ (s : State W). record s { policy = policy_of cfg })
      >> put_all (map_write target_uid cfg.uids)
      >> put_all (map_write bypass_uid (cfg.bypass_uids ++ (k.euid % 2 ^ 32) ∷ []))
      >> put_cidrs cfg.bypass_cidrs
      >> set_enabled false
      >> open_cgroup cfg.bpf_cgroup
      >> attach_all programs (program_names cfg.ipv6)

  -- The deferred function: the manager is closed unless `Load` returns it.
  abbrev pub closing_if_failed :
      State W × Result LoadError (Unit {0}) → State W × Result LoadError (Unit {0})
  closing_if_failed (s, ok u) = (s, ok u)
  closing_if_failed (s, err e) = (close s, err e)

  abbrev pub cgroup_ok : EngineConfig → M (Unit {0})
  cgroup_ok cfg s = elim (check_cgroup (k.cgroup_fs s.world) cfg.ipv6 cfg.bpf_cgroup) [
    | none ↦ (s, ok tt)
    | some e ↦ (s, err (cgroup e))
  ]

  abbrev pub load_spec : String → M Spec
  load_spec path s =
      let (v, o) = k.load_spec path s.world in
      elim o [
        | none ↦ (record s { world = v }, err bad_spec)
        | some spec ↦ (record s { world = v }, ok spec)
      ]

  abbrev pub new_collection : Spec → M (String → Bool)
  new_collection spec s =
      let (v, o) = k.new_collection spec s.world in
      elim o [
        | none ↦ (record s { world = v }, err verifier)
        | some programs ↦ (record s { world = v; collection = true }, ok programs)
      ]

  abbrev pub load_created : EngineConfig → Spec → M (Unit {0})
  load_created cfg spec =
      new_collection spec >>= λ programs. λ s. closing_if_failed (load_collection cfg programs s)

  abbrev pub load_specified : EngineConfig → Spec → M (Unit {0})
  load_specified cfg spec =
      fail_if (not (abi_matches spec map_sizes)) abi_mismatch >> load_created cfg spec

  unfoldable pub load : EngineConfig → M (Unit {0})
  load cfg =
      fail_if (str_eq cfg.bpf_object "" || str_eq cfg.bpf_cgroup "") required
      >> cgroup_ok cfg
      >> (load_spec cfg.bpf_object >>= load_specified cfg)
