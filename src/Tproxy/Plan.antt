-- ===== src/Tproxy/Plan.antt =====
-- `IPv4DestinationPlan` of ebpf-proxy/internal/tproxy/plan.go.
use kernel_su_tun2proxy.Prelude.{ℕ, String, str_eq, Bool, true, false, ◌&&◌, List, [], ◌∷◌, ◌==◌}

-- `netip.Addr`, as far as plans use it.
pub data Addr : Type 0 where
  invalid : Addr
  v4 : ℕ → ℕ → ℕ → ℕ → Addr
  v6 : List ℕ → Addr

pub record Plan : Type 0 where
  pub destination : Addr
  pub port : ℕ
  pub listener_port : ℕ
  pub mark : ℕ
  pub mask : ℕ
  pub table : ℕ
  pub priority : ℕ
  pub prefix : String

abbrev pub bytes_eq : List ℕ → List ℕ → Bool
bytes_eq [] [] = true
bytes_eq (a ∷ as') (b ∷ bs) = a == b && bytes_eq as' bs
bytes_eq _ _ = false

abbrev pub addr_eq : Addr → Addr → Bool
addr_eq invalid invalid = true
addr_eq (v4 a b c d) (v4 a' b' c' d') = a == a' && b == b' && c == c' && d == d'
addr_eq (v6 a) (v6 b) = bytes_eq a b
addr_eq _ _ = false

-- Go's `==` on plans.
unfoldable pub plan_eq : Plan → Plan → Bool
plan_eq p q =
    addr_eq p.destination q.destination
    && p.port == q.port
    && p.listener_port == q.listener_port
    && p.mark == q.mark
    && p.mask == q.mask
    && p.table == q.table
    && p.priority == q.priority
    && str_eq p.prefix q.prefix
