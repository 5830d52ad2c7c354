-- ===== src/Web/Mounts/Applying.antt =====
-- cmd/tun2proxy-web/cert_mount.go: `verifyMount` and `applyTrust`. The loop of `rollback` goes from
-- the last plan to the first.
use kernel_su_tun2proxy.Prelude.{
  String, str_eq, Bool, true, false, not, ◌&&◌, List, [], ◌∷◌, Option, none, some, if◌then◌else◌,
}
use Prim.Native.String.{◌++◌ as join}
use kernel_su_tun2proxy.Prelude.Exec.{Result, ok, err, Exec, ◌>>=◌, ◌>>◌, pure, fail_if}
use kernel_su_tun2proxy.Web.Certificates.{Entry, Inventory}
use kernel_su_tun2proxy.Web.Mounts.{
  CertMount, MountState, TrustEnvironment, make_runtime, MountError, namespace_changed, not_visible,
  bad_name, bad_fingerprint, not_trusted, bad_journal, incomplete, Host, State, mount_root,
  journal_of, save_mounts, umount, bind_mount, detect_trust, remove_trust,
}
use kernel_su_tun2proxy.Web.Mounts.Planning.{file, plan_trust}

abbrev pub same_text : Option String → String → Bool
same_text none x = false
same_text (some y) x = str_eq y x

module _ {W : Type 0} (h : Host W) where
  abbrev pub M : Type 0 → Type 0
  M A = Exec (State W) MountError A

  abbrev pub is_mounted : CertMount → State W → Bool
  is_mounted m s = str_eq (mount_root h m.pid m.target s.world) m.source

  -- `filepath.Join` of a clean target and a name.
  abbrev pub verify_file : CertMount → String → String → M (Unit {0})
  verify_file m id name s =
      (fail_if (not (str_eq (h.base_name name) name)) bad_name
          >> fail_if
              (not (same_text (h.fingerprint m.pid (join m.target (join "/" name)) s.world) id))
              bad_fingerprint)
        s

  unfoldable pub verify_files : CertMount → List (String × String) → M (Unit {0})
  verify_files m [] = pure tt
  verify_files m ((id, name) ∷ rest) = verify_file m id name >> verify_files m rest

  abbrev pub check_namespace : CertMount → M (Unit {0})
  check_namespace m s =
      fail_if (not (same_text (h.namespace m.pid s.world) m.ns)) namespace_changed s

  abbrev pub check_visible : CertMount → M (Unit {0})
  check_visible m s = fail_if (not (is_mounted m s)) not_visible s

  unfoldable pub verify_mount : CertMount → M (Unit {0})
  verify_mount m = check_namespace m >> check_visible m >> verify_files m m.files

  abbrev pub mount_new : CertMount → M (Unit {0})
  mount_new m = bind_mount h m >> verify_mount m

  abbrev pub mount_plan : CertMount → M (Unit {0})
  mount_plan m s = if is_mounted m s then (s, ok tt) else mount_new m s

  unfoldable pub mount_plans : List CertMount → M (Unit {0})
  mount_plans [] = pure tt
  mount_plans (m ∷ ms) = mount_plan m >> mount_plans ms

  unfoldable pub verify_plans : List CertMount → M (Unit {0})
  verify_plans [] = pure tt
  verify_plans (m ∷ ms) = verify_mount m >> verify_plans ms

  unfoldable pub probe_all : List (String × Entry) → M (Unit {0})
  probe_all [] = pure tt
  probe_all (e ∷ es) =
      (λ s. fail_if (e.1.managed && not (h.trusted e.1.certificate.id s.world)) not_trusted s)
      >> probe_all es

  abbrev pub succeeded : Result MountError (Unit {0}) → Bool
  succeeded (ok u) = true
  succeeded (err e) = false

  abbrev pub undone : State W × Result MountError (Unit {0}) → State W × Bool
  undone (s, r) = (s, succeeded r)

  abbrev pub undo_if : Bool → CertMount → State W → State W × Bool
  undo_if true m s = undone (umount h m.pid m.target s)
  undo_if false m s = (s, true)

  -- The body of the loop of `rollback`; whether no umount failed.
  abbrev pub undo : CertMount → State W → State W × Bool
  undo m s = undo_if (is_mounted m s) m s

  unfoldable pub undo_all : List CertMount → State W → State W × Bool
  undo_all [] s = (s, true)
  undo_all (m ∷ ms) s = let (t, b) = undo_all ms s in let (u, c) = undo m t in (u, b && c)

  -- The end of `rollback`: the old journal is saved again if every umount worked.
  abbrev pub rolled :
      MountState → MountError → State W × Bool → State W × Result MountError (Unit {0})
  rolled old cause (s, true) = ((save_mounts h old s).0, err cause)
  rolled old cause (s, false) = (s, err (incomplete cause))

  abbrev pub rollback :
      List CertMount → MountState → MountError → State W → State W × Result MountError (Unit {0})
  rollback plans old cause s = rolled old cause (undo_all plans s)

  abbrev pub or_rollback :
      List CertMount
      → MountState
      → State W × Result MountError (Unit {0})
      → State W × Result MountError (Unit {0})
  or_rollback plans old (s, ok u) = (s, ok u)
  or_rollback plans old (s, err e) = rollback plans old e s

  abbrev pub install : Inventory → List CertMount → M (Unit {0})
  install v plans = mount_plans plans >> verify_plans plans >> probe_all v.entries

  abbrev pub save_next : List CertMount → M (Unit {0})
  save_next plans s = save_mounts h (record { boot = h.boot_id s.world; mounts = plans }) s

  -- What follows the planning, with the old journal.
  unfoldable pub apply_plans : Inventory → MountState → List CertMount → M (Unit {0})
  apply_plans v old [] = remove_trust h
  apply_plans v old (m ∷ ms) =
      save_next (m ∷ ms) >> λ s. or_rollback (m ∷ ms) old (install v (m ∷ ms) s)

  abbrev pub mount_state : M MountState
  mount_state s =
      if h.readable s.world then (s, ok (journal_of h s.journal s.world)) else (s, err bad_journal)

  abbrev pub apply_to : Inventory → TrustEnvironment → MountState → M (Unit {0})
  apply_to v d old = plan_trust h v d >>= apply_plans v old

  abbrev pub apply_in : Inventory → TrustEnvironment → M (Unit {0})
  apply_in v d = file h make_runtime >>= λ _. mount_state >>= apply_to v d

  unfoldable pub apply_trust : Inventory → M (Unit {0})
  apply_trust v = detect_trust h >>= apply_in v
