-- ===== src/Redirect/Manager/Links.antt =====
-- loader_linux.go: the maps, the policy and the links that the parts of `Load` and `Close` change.
use kernel_su_tun2proxy.Prelude.{
  ℕ, String, Bool, true, false, not, List, [], ◌∷◌, Option, none, some, ◌≡◌, refl, sym, ap, ◌∙◌,
  subst, if◌then◌else◌, str_refl,
}
use kernel_su_tun2proxy.Prelude.Exec.{
  ok, err, continue, returned, failed, Ensures, sequence, weaken, guard_rule, on_every_path,
}
use kernel_su_tun2proxy.Redirect.Abi.{Policy}
use kernel_su_tun2proxy.Redirect.Manager.{
  Kernel, State, Write, target_uid, bypass_uid, bypass_prefix, bypass_prefix6, config, put_map,
  set_written, checked, heartbeat, set_enabled, flag, close_links, detach, close, close_if, put_all,
  put_cidr, put_cidrs, attach_link, attach_all, prefix_write, put_failed, no_link, no_program,
  ParsedPrefix,
}

module _ {W : Type 0} (k : Kernel W) where
  -- The links, the programs attached and the collection stay.
  pub record Kept (s t : State W) : Type 0 where
    pub links : t.links ≡ s.links
    pub live : t.live ≡ s.live
    pub collection : t.collection ≡ s.collection

  pub Kept-refl : (s : State W) → Kept s s
  Kept-refl s = record { links = refl; live = refl; collection = refl }

  pub Kept-trans : {s t u : State W} → Kept s t → Kept t u → Kept s u
  Kept-trans h g = record {
    links = g.links ∙ h.links;
    live = g.live ∙ h.live;
    collection = g.collection ∙ h.collection;
  }

  put_checked :
      (w : Write) (b : Bool) (s : State W)
      → Ensures
          (λ _ t.
            Kept s t × (t.policy ≡ s.policy) × ((p : Policy) → w ≡ config p → t.written ≡ some p))
          (λ _ t. Kept s t)
          (checked k b put_failed (set_written k w b s))
  put_checked (config p) true s =
      returned (
        record { links = refl; live = refl; collection = refl },
        refl,
        λ q e. ap some (config_inj e),
      )
    where
      config_inj : {a b : Policy} → config a ≡ config b → a ≡ b
      config_inj e = cc
  put_checked (target_uid u) true s = returned (Kept-refl s, refl, λ q e. absurd (cc))
  put_checked (bypass_uid u) true s = returned (Kept-refl s, refl, λ q e. absurd (cc))
  put_checked (bypass_prefix u) true s = returned (Kept-refl s, refl, λ q e. absurd (cc))
  put_checked (bypass_prefix6 u) true s = returned (Kept-refl s, refl, λ q e. absurd (cc))
  put_checked (config p) false s = failed (Kept-refl s)
  put_checked (target_uid u) false s = failed (Kept-refl s)
  put_checked (bypass_uid u) false s = failed (Kept-refl s)
  put_checked (bypass_prefix u) false s = failed (Kept-refl s)
  put_checked (bypass_prefix6 u) false s = failed (Kept-refl s)

  -- A put into a map.
  put_map_lem :
      (w : Write) (s : State W)
      → Ensures
          (λ _ t.
            Kept s t × (t.policy ≡ s.policy) × ((p : Policy) → w ≡ config p → t.written ≡ some p))
          (λ _ t. Kept s t)
          (put_map k w s)
  unfolding put_map
  put_map_lem w s =
      weaken (put_checked w (k.put w s.world).1 (record s { world = (k.put w s.world).0 }))
        (λ _ t (h, p, c).
          (record { links = h.links; live = h.live; collection = h.collection }, p, c))
        (λ _ t h. record { links = h.links; live = h.live; collection = h.collection })

  pub heartbeat_lem :
      (s : State W)
      → Ensures
          (λ _ t.
            Kept s t
            × (t.written ≡ some t.policy)
            × ((n : ℕ) × (t.policy ≡ record s.policy { heartbeat_ns = n })))
          (λ _ t. Kept s t)
          (heartbeat k s)
  unfolding heartbeat continue
  heartbeat_lem s =
      let p : Policy = record s.policy { heartbeat_ns = (k.monotonic_ns s.world).1 } in
      weaken (put_map_lem (config p) (record s { world = (k.monotonic_ns s.world).0; policy = p }))
        (λ _ t (h, e, c). (
          record { links = h.links; live = h.live; collection = h.collection },
          c p refl ∙ ap some (sym e),
          ((k.monotonic_ns s.world).1, e),
        ))
        (λ _ t h. record { links = h.links; live = h.live; collection = h.collection })

  pub set_enabled_lem :
      (on : Bool) (s : State W)
      → Ensures
          (λ _ t.
            Kept s t
            × (t.written ≡ some t.policy)
            × ((n : ℕ) × (t.policy ≡ record s.policy { enabled = flag k on; heartbeat_ns = n })))
          (λ _ t. Kept s t)
          (set_enabled k on s)
  unfolding set_enabled continue
  set_enabled_lem on s =
      weaken (heartbeat_lem (record s { policy = record s.policy { enabled = flag k on } }))
        (λ _ t (h, e, c).
          (record { links = h.links; live = h.live; collection = h.collection }, e, c))
        (λ _ t h. record { links = h.links; live = h.live; collection = h.collection })

  pub put_all_lem :
      (ws : List Write) (s : State W)
      → Ensures (λ _ t. Kept s t × (t.policy ≡ s.policy)) (λ _ t. Kept s t) (put_all k ws s)
  unfolding put_all
  put_all_lem [] s = returned (Kept-refl s, refl)
  put_all_lem (w ∷ ws) s =
      sequence {Q = λ _ t. Kept s t × (t.policy ≡ s.policy)} _ _
        (weaken (put_map_lem w s) (λ _ t (h, e, _). (h, e)) (λ _ t h. h))
        (λ _ t (h, e).
          weaken (put_all_lem ws t) (λ _ u (g, f). (Kept-trans h g, f ∙ e))
            (λ _ u g. Kept-trans h g))

  put_cidr_lem :
      (o : Option ParsedPrefix) (s : State W)
      → Ensures (λ _ t. Kept s t × (t.policy ≡ s.policy)) (λ _ t. Kept s t) (put_cidr k o s)
  put_cidr_lem none s = failed (Kept-refl s)
  put_cidr_lem (some p) s =
      weaken (put_map_lem (prefix_write k p) s) (λ _ t (h, e, _). (h, e)) (λ _ t h. h)

  pub put_cidrs_lem :
      (cs : List String) (s : State W)
      → Ensures (λ _ t. Kept s t × (t.policy ≡ s.policy)) (λ _ t. Kept s t) (put_cidrs k cs s)
  unfolding put_cidrs
  put_cidrs_lem [] s = returned (Kept-refl s, refl)
  put_cidrs_lem (c ∷ cs) s = sequence _ _ (put_cidr_lem (k.parse_prefix c) s) (λ _ t (h, e).
      weaken (put_cidrs_lem cs t) (λ _ u (g, f). (Kept-trans h g, f ∙ e)) (λ _ u g. Kept-trans h g))

  abbrev pub pushed : List String → List String → List String
  pushed [] l = l
  pushed (n ∷ ns) l = pushed ns (n ∷ l)

  pub record Attached (ns : List String) (s t : State W) : Type 0 where
    pub live : t.live ≡ t.links
    pub links : t.links ≡ pushed ns s.links
    pub policy : t.policy ≡ s.policy
    pub written : t.written ≡ s.written
    pub collection : t.collection ≡ s.collection

  pub record Attaching (s t : State W) : Type 0 where
    pub live : t.live ≡ t.links
    pub collection : t.collection ≡ s.collection

  attach_link_lem :
      (n : String) (s : State W)
      → s.live ≡ s.links
      → Ensures (λ _ t. Attached (n ∷ []) s t) (λ _ t. Attaching s t) (attach_link k n s)
  attach_link_lem n s l = attached (k.attach n s.world).1 (k.attach n s.world).0
    where
      attached :
          (b : Bool) (v : W)
          → Ensures
              (λ _ t. Attached (n ∷ []) s t)
              (λ _ t. Attaching s t)
              (if b
                then (record s { world = v; live = n ∷ s.live; links = n ∷ s.links }, ok tt)
                else (record s { world = v }, err no_link))
      attached true v = returned (record {
        live = ap (◌∷◌ n) l;
        links = refl;
        policy = refl;
        written = refl;
        collection = refl;
      })
      attached false v = failed (record { live = l; collection = refl })

  pub attach_all_lem :
      (programs : String → Bool) (ns : List String) (s : State W)
      → s.live ≡ s.links
      → Ensures (λ _ t. Attached ns s t) (λ _ t. Attaching s t) (attach_all k programs ns s)
  unfolding attach_all continue
  attach_all_lem programs [] s l =
      returned (record { live = l; links = refl; policy = refl; written = refl; collection = refl })
  attach_all_lem programs (n ∷ ns) s l =
      sequence _ _
        (guard_rule {Q = λ _ t. Attached (n ∷ []) s t} {R = λ _ t. Attaching s t} (not (programs n))
          no_program (λ _. attach_link k n) s (λ _. record { live = l; collection = refl })
          (λ _. attach_link_lem n s l))
        (λ _ t h.
          weaken (attach_all_lem programs ns t h.live)
            (λ _ u g. record {
              live = g.live;
              links = g.links ∙ ap (pushed ns) h.links;
              policy = g.policy ∙ h.policy;
              written = g.written ∙ h.written;
              collection = g.collection ∙ h.collection;
            })
            (λ _ u g. record { live = g.live; collection = g.collection ∙ h.collection }))

  -- Closing all the links that are live.
  close_links_lem :
      (ns : List String) (s : State W)
      → s.live ≡ ns
      → ((close_links k ns s).live ≡ []) × ((close_links k ns s).collection ≡ s.collection)
  unfolding close_links
  close_links_lem [] s e = (e, refl)
  close_links_lem (n ∷ ns) s e = close_links_lem ns _ (rw (e, str_refl n) refl)

  pub detach_lem :
      (s : State W)
      → s.live ≡ s.links
      → ((detach k s).live ≡ [])
        × ((detach k s).links ≡ [])
        × ((detach k s).collection ≡ s.collection)
  unfolding detach
  detach_lem s e = let (l, c) = close_links_lem s.links s e in (l, refl, c)

  -- What holds once the manager is closed: nothing is attached, and the collection is closed.
  pub record IsClosed (t : State W) : Type 0 where
    pub live : t.live ≡ []
    pub links : t.links ≡ []
    pub collection : t.collection ≡ false

  pub close_lem : (s : State W) → s.live ≡ s.links → s.collection ≡ true → IsClosed (close k s)
  unfolding close
  close_lem s e c =
      let t = (set_enabled k false s).0 in
      let h : Kept s t =
        on_every_path (weaken (set_enabled_lem false s) (λ _ _ q. q.0) (λ _ _ q. q)) in
      let (l, m, _) = detach_lem t (h.live ∙ e ∙ sym h.links) in
      subst (λ b. IsClosed (close_if k b s)) (sym c)
        (record { live = l; links = m; collection = refl })

  close_if-close_if :
      (b : Bool) (s : State W) → s.collection ≡ b → close k (close_if k b s) ≡ close_if k b s
  unfolding close
  close_if-close_if true s e = refl
  close_if-close_if false s e = rw e refl

  -- Closing a manager again changes nothing.
  pub close-close : (s : State W) → close k (close k s) ≡ close k s
  unfolding close
  close-close s = close_if-close_if s.collection s refl
