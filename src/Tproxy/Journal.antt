-- ===== src/Tproxy/Journal.antt =====
-- The journal record of ebpf-proxy/internal/tproxy/journal.go, and `countsMatch` of
-- ebpf-proxy/internal/tproxy/witness_linux.go, by which a record is compared with the kernel.
use Prim.Native.Char.{code}
use kernel_su_tun2proxy.Prelude.{
  ℕ, suc, String, Bool, true, false, ◌&&◌, List, [], ◌∷◌, Option, none, some, ◌==◌, ltb, leb,
  str_eq, not, ◌||◌, if◌then◌else◌,
}
use kernel_su_tun2proxy.Tproxy.Plan.{Plan, plan_eq}

-- `Pending`: "", "add" and "remove", the texts that `decodeJournalMode` admits.
pub data Pending : Type 0 where
  idle adding removing : Pending

-- What must be the same when a journal is taken up again.
pub record Identity : Type 0 where
  pub namespace : String
  pub boot : String
  pub plan : Plan

pub record JournalRecord : Type 0 where
  pub version : ℕ
  pub identity : Identity
  pub owned : ℕ
  pub pending : Pending
  pub snapshot : String
  pub pending_proof : String

abbrev pub is_idle : Pending → Bool
is_idle idle = true
is_idle _ = false

-- The loop of `countsMatch` from index `i` on.
unfoldable pub match_from : ℕ → List ℕ → ℕ → Bool
match_from i [] owned = true
match_from i (n ∷ counts) owned =
    n == (if ltb i owned then 1 else 0) && match_from (suc i) counts owned

unfoldable pub counts_match : List ℕ → ℕ → Bool
unfolding match_from
counts_match counts owned = match_from 0 counts owned

is_hex : ℕ → Bool
is_hex c = (leb 48 c && leb c 57) || (leb 97 c && leb c 102) || (leb 65 c && leb c 70)

hex_count : ℕ → String → Option ℕ
hex_count n String.[] = some n
hex_count n (String.◌∷◌ c s) = if is_hex (code c) then hex_count (suc n) s else none

-- `hex.DecodeString` returns 32 bytes.
pub is_digest : String → Bool
unfolding hex_count is_hex
is_digest s = elim (hex_count 0 s) [ none ↦ false | some n ↦ n == 64 ]

abbrev valid_version : Bool → ℕ → Bool
valid_version scoped v = if scoped then v == 3 else v == 1 || v == 2

-- The intent lies within the plan.
abbrev in_bounds : Pending → ℕ → ℕ → Bool
in_bounds idle owned steps = true
in_bounds adding owned steps = not (owned == steps)
in_bounds removing owned steps = not (owned == 0)

-- The checks of `decodeJournalMode` on a decoded record, for a plan of `steps` steps.
unfoldable pub admissible : Bool → Identity → ℕ → JournalRecord → Bool
unfolding is_digest
admissible scoped id steps r =
    valid_version scoped r.version
    && str_eq r.identity.namespace id.namespace
    && str_eq r.identity.boot id.boot
    && plan_eq r.identity.plan id.plan
    && leb r.owned steps
    && in_bounds r.pending r.owned steps
    && is_digest r.snapshot
    && (str_eq r.pending_proof ""
        || (is_digest r.pending_proof
            && (r.version == 2 || r.version == 3)
            && not (is_idle r.pending)))
