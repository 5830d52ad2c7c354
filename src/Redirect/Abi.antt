-- ===== src/Redirect/Abi.antt =====
-- ebpf-proxy/internal/redirect/abi.go: the records that the BPF maps hold.
-- The unsigned fields are native numbers, an array of bytes is the list of its bytes.
use kernel_su_tun2proxy.Prelude.{ℕ, zero, suc, ◌%◌, ◌^◌, ◌+◌, ◌-◌, List, [], ◌∷◌}

abbrev pub abi_version : ℕ
abi_version = 1

-- A time.Duration of some seconds.
abbrev pub seconds : ℕ → ℕ
seconds zero = 0
seconds (suc n) = 1000000000 + seconds n

pub record FlowKey : Type 0 where
  pub version : ℕ
  pub family : ℕ
  pub protocol : ℕ
  pub client : List ℕ
  pub listener : List ℕ
  pub client_port : ℕ
  pub listener_port : ℕ

pub record FlowValue : Type 0 where
  pub version : ℕ
  pub family : ℕ
  pub port : ℕ
  pub destination : List ℕ
  pub uid : ℕ
  pub tgid : ℕ
  pub cookie : ℕ
  pub created_ns : ℕ

pub record Policy : Type 0 where
  pub version : ℕ
  pub enabled : ℕ
  pub all_non_bypass : ℕ
  pub ipv6 : ℕ
  pub port : ℕ
  pub ipv4 : List ℕ
  pub heartbeat_ns : ℕ
  pub lease_ns : ℕ

pub record Prefix : Type 0 where
  pub bits : ℕ
  pub address : List ℕ

-- `copy` to an array of zeros.
unfoldable pub copied : ℕ → List ℕ → List ℕ
copied zero bs = []
copied (suc n) [] = 0 ∷ copied n []
copied (suc n) (b ∷ bs) = b ∷ copied n bs

-- The difference of two uint64.
abbrev pub u64_minus : ℕ → ℕ → ℕ
u64_minus a b = (a + 2 ^ 64 - b) % 2 ^ 64
