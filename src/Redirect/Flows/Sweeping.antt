-- ===== src/Redirect/Flows/Sweeping.antt =====
-- loader_linux.go: the flows that `Sweep` removes.
use kernel_su_tun2proxy.Prelude.{
  ℕ, suc, ◌<◌, true, List, [], ◌∷◌, some, get_elem?, ltb, ◌==◌, ◌≡◌, refl, ap, ==_iff, arith,
}
use kernel_su_tun2proxy.Prelude.Exec.{continue, returned, Ensures, sequence, if_exec_rule}
use kernel_su_tun2proxy.Redirect.Abi.{FlowKey, FlowValue, seconds, u64_minus}
use kernel_su_tun2proxy.Redirect.Flows.{
  Lookup, found, missing, lookup_failed, Call, looked_up, removed, clock, FlowKernel, State,
  remove_same, sweep_old, sweep_all, sweep,
}

-- A flow was given by the iterator, was older than 60 s at the clock read last, and a lookup of its
-- key then found the same cookie.
pub record IsOld (seen : List (FlowKey × FlowValue)) (key : FlowKey) (before : List Call)
    : Type 0 where
  pub index : ℕ
  pub value : FlowValue
  pub current : FlowValue
  pub now : ℕ
  pub earlier : List Call
  pub given : get_elem? seen index ≡ some (key, value)
  pub calls : before ≡ looked_up key (found current) ∷ clock now ∷ earlier
  pub cookie : current.cookie ≡ value.cookie
  pub age : seconds 60 < u64_minus now value.created_ns

-- Each removal among the calls is of such a flow.
abbrev pub RemovesOld : List (FlowKey × FlowValue) → List Call → Type 0
RemovesOld seen [] = Unit
RemovesOld seen (removed key ∷ before) = IsOld seen key before × RemovesOld seen before
RemovesOld seen (_ ∷ before) = RemovesOld seen before

module _ {W : Type 0} (k : FlowKernel W) (seen : List (FlowKey × FlowValue)) where
  abbrev Good : State W → Type 0
  Good s = RemovesOld seen s.calls

  sweep_old_lem :
      (i : ℕ) (key : FlowKey) (v : FlowValue) (now : ℕ) (earlier : List Call) (s : State W)
      → get_elem? seen i ≡ some (key, v)
      → s.calls ≡ clock now ∷ earlier
      → Good s
      → Ensures (λ _ t. Good t) (λ _ t. Good t) (sweep_old k key v now s)
  unfolding continue
  sweep_old_lem i key v now earlier s g c h =
      if_exec_rule (ltb (seconds 60) (u64_minus now v.created_ns)) _ _ s
        (λ old. on_answer (k.lookup key s.world).1 old) (λ young. returned h)
    where
      w : W
      w = (k.lookup key s.world).0

      on_answer :
          (a : Lookup)
          → ltb (seconds 60) (u64_minus now v.created_ns) ≡ true
          → Ensures
              (λ _ t. Good t)
              (λ _ t. Good t)
              (remove_same k key v a (record { world = w; calls = looked_up key a ∷ s.calls }))
      on_answer (found current) old =
          if_exec_rule (current.cookie == v.cookie) _ _ _
            (λ same. returned (
              record {
                index = i;
                value = v;
                current = current;
                now = now;
                earlier = earlier;
                given = g;
                calls = ap (◌∷◌ (looked_up key (found current))) c;
                cookie = (==_iff current.cookie v.cookie).0 same;
                age = ground arith;
              },
              h,
            ))
            (λ other. returned h)
      on_answer missing old = returned h
      on_answer lookup_failed old = returned h

  sweep_all_lem :
      (rest : List (FlowKey × FlowValue)) (s : State W)
      → ((i : ℕ) (e : FlowKey × FlowValue)
          → get_elem? rest i ≡ some e
          → (j : ℕ) × (get_elem? seen j ≡ some e))
      → Good s
      → Ensures (λ _ t. Good t) (λ _ t. Good t) (sweep_all k rest s)
  unfolding sweep_all continue
  sweep_all_lem [] s g h = returned h
  sweep_all_lem ((key, v) ∷ rest) s g h =
      let (j, e) = g 0 (key, v) refl in
      sequence {Q = λ _ t. Good t} _ _
        (sweep_old_lem j key v (k.monotonic_ns s.world).1 s.calls _ e refl h)
        (λ _ t q. sweep_all_lem rest t (λ i x e. g (suc i) x e) q)

module _ {W : Type 0} (k : FlowKernel W) where
  -- Of the flows that its iterator gave, a run of `Sweep` with no call before it removes only ones
  -- older than 60 s, each directly after a lookup that still found the cookie that the iterator gave.
  pub sweep_lem :
      (s : State W)
      → s.calls ≡ []
      → Ensures
          (λ _ t. RemovesOld (k.entries s.world).1 t.calls)
          (λ _ t. RemovesOld (k.entries s.world).1 t.calls)
          (sweep k s)
  unfolding sweep continue
  sweep_lem s c =
      sweep_all_lem k (k.entries s.world).1 (k.entries s.world).1 _ (λ i x e. (i, e)) (rw c tt)
