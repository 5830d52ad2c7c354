-- ===== src/Redirect/Flows/Matching.antt =====
-- loader_linux.go: the flow that `Resolve` returns, and the calls on flow_map that it makes.
use kernel_su_tun2proxy.Prelude.{
  ℕ, zero, suc, ◌+◌, ◌<◌, ◌≤◌, false, List, [], ◌∷◌, some, ltb, ◌==◌, ◌≡◌, ◌≢◌, refl, ap, subst,
  or_false, not-false, ==_iff, true_ne, arith,
}
use kernel_su_tun2proxy.Prelude.Exec.{
  Result, continue, returned, failed, Ensures, guard_rule, then_rule, pure, ◌>>◌, ◌>>=◌,
}
use kernel_su_tun2proxy.Redirect.Abi.{FlowKey, FlowValue, abi_version, seconds, u64_minus}
use kernel_su_tun2proxy.Redirect.Flows.{
  Lookup, found, missing, lookup_failed, Call, looked_up, removed, clock, slept, FlowKernel,
  TcpAddr, FlowError, stale, unavailable, State, flow_key, read_clock, remove, mismatches,
  take_fresh, take_flow, answered, attempts, resolve,
}

-- Lookups that found nothing, each with a sleep after it.
abbrev pub misses : FlowKey → ℕ → List Call
misses key zero = []
misses key (suc n) = slept ∷ looked_up key missing ∷ misses key n

abbrev pub removals : List Call → ℕ
removals [] = 0
removals (removed key ∷ cs) = suc (removals cs)
removals (_ ∷ cs) = removals cs

-- A flow of the key, of this version, with a cookie, and no older than 30 s.
pub record IsCurrent (key : FlowKey) (v : FlowValue) (now : ℕ) : Type 0 where
  pub version : v.version ≡ abi_version
  pub cookie : v.cookie ≢ 0
  pub family : v.family ≡ key.family
  pub age : u64_minus now v.created_ns ≤ seconds 30

-- The calls that find a flow, after some misses, and then remove it.
pub record IsTaken (key : FlowKey) (tries : ℕ) (v : FlowValue) (calls : List Call) : Type 0 where
  pub missed : ℕ
  pub few : missed < tries
  pub now : ℕ
  pub made : calls ≡ removed key ∷ clock now ∷ looked_up key (found v) ∷ misses key missed
  pub current : IsCurrent key v now

removals-misses : (key : FlowKey) (n : ℕ) → removals (misses key n) ≡ 0
removals-misses key zero = refl
removals-misses key (suc n) = removals-misses key n

mismatches_lem :
    (key : FlowKey) (v : FlowValue)
    → mismatches key v ≡ false
    → (v.version ≡ abi_version) × (v.cookie ≢ 0) × (v.family ≡ key.family)
mismatches_lem key v e =
    let (a, f) = or_false _ _ e in
    let (ver, cookie) = or_false _ _ a in
    (
      (==_iff v.version abi_version).0 (not-false _ ver),
      λ z. true_ne (v.cookie == 0) ((==_iff v.cookie 0).1 z) cookie,
      (==_iff v.family key.family).0 (not-false _ f),
    )

module _ {W : Type 0} (k : FlowKernel W) where
  -- What a loop of `tries` attempts ends with.
  abbrev Ends : FlowKey → ℕ → State W × Result FlowError FlowValue → Type 0
  Ends key tries =
      Ensures (λ v t. IsTaken key tries v t.calls)
        (λ e t. (removals t.calls ≡ 0) × ((e ≡ unavailable) → t.calls ≡ misses key tries))

  take_flow_lem :
      (key : FlowKey) (v : FlowValue) (missed tries : ℕ) (s : State W)
      → missed < tries
      → s.calls ≡ looked_up key (found v) ∷ misses key missed
      → Ends key tries (take_flow k key v s)
  unfolding continue
  take_flow_lem key v missed tries s l c =
      guard_rule (mismatches key v) stale (λ _. read_clock k >>= take_fresh k key v) s
        (λ _. (rw c (removals-misses key missed), λ x. absurd (cc)))
        (λ good.
          guard_rule (ltb (seconds 30) (u64_minus now v.created_ns)) stale
            (λ _. remove k key >> pure v)
            (record { world = (k.monotonic_ns s.world).0; calls = clock now ∷ s.calls })
            (λ _. (rw c (removals-misses key missed), λ x. absurd (cc)))
            (λ young. then_rule tt _ (λ _. pure v) (returned (taken good young))))
    where
      now : ℕ
      now = (k.monotonic_ns s.world).1

      taken :
          mismatches key v ≡ false
          → ltb (seconds 30) (u64_minus now v.created_ns) ≡ false
          → IsTaken key tries v (removed key ∷ clock now ∷ s.calls)
      taken good young =
          let (a, b, d) = mismatches_lem key v good in
          record {
            missed = missed;
            few = l;
            now = now;
            made = ap (λ cs. removed key ∷ clock now ∷ cs) c;
            current = record { version = a; cookie = b; family = d; age = ground arith };
          }

  attempts_lem :
      (key : FlowKey) (n done : ℕ) (s : State W)
      → s.calls ≡ misses key done
      → Ends key (done + n) (attempts k key n s)
  unfolding attempts continue
  attempts_lem key zero done s c =
      failed (rw c (removals-misses key done), λ e. rw c (ap (misses key) (omega arith)))
  attempts_lem key (suc n) done s c =
      on_answer (k.lookup key s.world).1 (λ t e. attempts_lem key n (suc done) t e)
    where
      v : W
      v = (k.lookup key s.world).0

      on_answer :
          (a : Lookup)
          → ((t : State W)
              → t.calls ≡ misses key (suc done)
              → Ends key (suc done + n) (attempts k key n t))
          → Ends key (done + suc n) (
              answered k key
                (attempts k key n)
                a
                (record { world = v; calls = looked_up key a ∷ s.calls }))
      on_answer (found x) rest =
          take_flow_lem key x done (done + suc n) _ (omega arith)
            (ap (◌∷◌ (looked_up key (found x))) c)
      on_answer missing rest =
          subst
            (λ m. Ends key m (
              attempts k key n
                (record { world = k.sleep v; calls = slept ∷ looked_up key missing ∷ s.calls })))
            (omega arith) (rest _ (ap (λ cs. slept ∷ looked_up key missing ∷ cs) c))
      on_answer lookup_failed rest = failed (rw c (removals-misses key done), λ x. absurd (cc))

  -- With no call before it, `Resolve` of two TCP addresses either returns a flow that it found under
  -- their key after less than ten lookups, which is current at the clock it read, and removed from
  -- the map by its last call, or fails with no removal; it answers that there is none only after ten
  -- lookups found none.
  pub resolve_lem :
      (remote local : TcpAddr) (s : State W)
      → s.calls ≡ []
      → Ensures
          (λ v t. IsTaken (flow_key remote local) 10 v t.calls)
          (λ e t.
            (removals t.calls ≡ 0)
            × ((e ≡ unavailable) → t.calls ≡ misses (flow_key remote local) 10))
          (resolve k (some remote) (some local) s)
  unfolding resolve
  resolve_lem remote local s c = attempts_lem (flow_key remote local) 10 0 s c
