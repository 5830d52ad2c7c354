-- ===== src/Web/Mounts/Planning.antt =====
-- cmd/tun2proxy-web/cert_mount.go: `planTrust`, which makes a directory for each target with the
-- system's certificates and the managed ones, before anything is mounted.
use kernel_su_tun2proxy.Prelude.{
  ℕ, String, str_eq, Bool, false, not, ◌&&◌, ◌||◌, List, [], ◌∷◌, ◌++◌, Option, none, some, length,
  leb, if◌then◌else◌,
}
use Prim.Native.String.{◌++◌ as join}
use kernel_su_tun2proxy.Prelude.Exec.{ok, err, Exec, ◌>>=◌, ◌>>◌, pure, raise, fail_if}
use kernel_su_tun2proxy.Web.Certificates.{Certificate, Entry, Inventory, lookup, delete_key}
use kernel_su_tun2proxy.Web.Certificates.Names.{allocate_name}
use kernel_su_tun2proxy.Engine.Config.{contains}
use kernel_su_tun2proxy.Web.Mounts.{
  CertMount, TrustEnvironment, FileCall, make_temp, copy_directory, write, label_of, chcon, chmod,
  MountError, too_many_layers, foreign, no_file, no_certificate, gm_signature, no_label, Host,
  State, mount_root, owned_root,
}

abbrev pub Names : Type 0
Names = List (String × String)

abbrev pub set_name : String → String → Names → Names
set_name k x es = (k, x) ∷ delete_key k es

abbrev pub text_of : Option String → String
text_of none = ""
text_of (some s) = s

abbrev pub has_managed : List (String × Entry) → Bool
has_managed [] = false
has_managed (e ∷ es) = e.1.managed || has_managed es

module _ {W : Type 0} (h : Host W) where
  abbrev pub M : Type 0 → Type 0
  M A = Exec (State W) MountError A

  abbrev pub answer : Option String → M String
  answer none = raise no_file
  answer (some x) = pure x

  unfoldable pub file : FileCall → M String
  file c s = let (v, o) = h.file c s.world in answer o (record s { world = v })

  abbrev pub read_certificate : String → M (Certificate × Bool)
  read_certificate id s = elim (h.read_certificate id s.world) [
    | none ↦ (s, err no_certificate)
    | some c ↦ (s, ok c)
  ]

  abbrev pub bad_gm : Certificate × Bool → State W → Bool
  bad_gm c s = c.1 && not (h.signature_valid c.0.id s.world)

  -- A name is always found: the loop ends within the rounds that it is given.
  abbrev pub allocated : Option (String × Bool) → M String
  allocated none = raise no_file
  allocated (some r) = pure r.0

  abbrev pub put_certificate : String → Certificate → Names → M String
  put_certificate live c names = allocated (allocate_name h.numbered c names) >>= λ name.
      file (write (join live (join "/" name)) c.pem) >>= λ _. pure name

  abbrev pub check_gm : Certificate × Bool → M (Unit {0})
  check_gm c s = fail_if (bad_gm c s) gm_signature s

  -- The loop over the entries: the names taken, and the files made.
  unfoldable pub add_managed : String → List (String × Entry) → Names → Names → M Names
  add_managed live [] names files = pure files
  add_managed live (e ∷ es) names files =
      let skip = add_managed live es names files in
      let keep = λ (c : Certificate) (name : String).
        add_managed live es (set_name name c.id names) (set_name c.id name files) in
      if not e.1.managed
      then skip
      else read_certificate e.1.certificate.id >>= λ c.
          check_gm c >> (put_certificate live c.0 names >>= keep c.0)

  abbrev pub base_of : ℕ → String → String → String
  base_of pid target root =
      if owned_root h root then join (h.parent root) "/base" else h.namespace_path pid target

  abbrev pub relabel : String → String → M (Unit {0})
  relabel live label =
      fail_if (not (contains label ":object_r:")) no_label
      >> (file (chcon label live) >>= λ _. file (chmod live) >>= λ _. pure tt)

  abbrev pub names_in : String → M Names
  names_in live s = (s, ok (h.names live s.world))

  -- The files of a generation in a new directory.
  abbrev pub fill : Inventory → ℕ → String → String → String → M Names
  fill v pid target root dir =
      file (copy_directory (base_of pid target root) (join dir "/base")) >>= λ _.
      file (copy_directory (join dir "/base") (join dir "/live")) >>= λ _.
      names_in (join dir "/live") >>= λ names.
      add_managed (join dir "/live") (h.sorted v) names [] >>= λ files.
      file (label_of pid target) >>= λ label. relabel (join dir "/live") label >> pure files

  abbrev pub ns_now : ℕ → M String
  ns_now pid s = (s, ok (text_of (h.namespace pid s.world)))

  abbrev pub generated : ℕ → String → String → Names → M CertMount
  generated pid target dir files = ns_now pid >>= λ ns.
      pure
        (record { pid = pid; ns = ns; target = target; source = join dir "/live"; files = files })

  abbrev pub generation : Inventory → ℕ → String → String → String → M CertMount
  generation v pid target root dir = fill v pid target root dir >>= generated pid target dir

  unfoldable pub generate : Inventory → ℕ → String → String → M CertMount
  generate v pid target root = file make_temp >>= generation v pid target root

  abbrev pub Prepared : Type 0
  Prepared = List (String × CertMount)

  abbrev pub reused : ℕ → CertMount → M CertMount
  reused pid ready = ns_now pid >>= λ ns. pure (record ready { pid = pid; ns = ns })

  -- The plan of a place, and what is prepared after it.
  abbrev pub plan_from :
      Inventory → ℕ → String → Prepared → String → Option CertMount → M (CertMount × Prepared)
  plan_from v pid target prepared root (some ready) = reused pid ready >>= λ m. pure (m, prepared)
  plan_from v pid target prepared root none =
      generate v pid target root >>= λ m. pure (m, (target, m) ∷ prepared)

  abbrev pub is_foreign : String → Bool
  is_foreign root = not (str_eq root "") && not (owned_root h root)

  abbrev pub plan_at : Inventory → ℕ → String → Prepared → String → M (CertMount × Prepared)
  plan_at v pid target prepared root =
      fail_if (is_foreign root) foreign
      >> plan_from v pid target prepared root (lookup target prepared)

  unfoldable pub plan_place : Inventory → ℕ → String → Prepared → M (CertMount × Prepared)
  plan_place v pid target prepared s =
      (fail_if (leb 32 (length (h.roots pid target s.world))) too_many_layers
          >> plan_at v pid target prepared (mount_root h pid target s.world))
        s

  unfoldable pub plan_targets :
      Inventory → ℕ → List String → Prepared → M (List CertMount × Prepared)
  plan_targets v pid [] prepared = pure ([], prepared)
  plan_targets v pid (t ∷ ts) prepared =
      plan_place v pid t prepared >>= λ a. plan_targets v pid ts a.1 >>= λ b. pure (a.0 ∷ b.0, b.1)

  unfoldable pub plan_namespaces :
      Inventory → List ℕ → List String → Prepared → M (List CertMount × Prepared)
  plan_namespaces v [] targets prepared = pure ([], prepared)
  plan_namespaces v (p ∷ ps) targets prepared = plan_targets v p targets prepared >>= λ a.
      plan_namespaces v ps targets a.1 >>= λ b. pure (a.0 ++ b.0, b.1)

  unfoldable pub plan_trust : Inventory → TrustEnvironment → M (List CertMount)
  plan_trust v d =
      if has_managed v.entries
      then (plan_namespaces v d.namespaces d.targets [] >>= λ a. pure a.0)
      else pure []
