-- ===== src/Web/Mounts.antt =====
-- cmd/tun2proxy-web/cert_mount.go: the mounts that show added certificates in the trust store.
-- `roots` are the layers of a mount point as `mountRoot` reads them, the newest first. The reads,
-- the tools and the files are the fields of `Host`; `file` answers with text where it works.
pub mod Planning
pub mod Applying
pub mod Removal
pub mod Generations
pub mod Sources
pub mod Layers
pub mod Rollback
pub mod Outcome
use kernel_su_tun2proxy.Prelude.{
  ℕ, zero, suc, String, str_eq, Bool, true, false, not, ◌&&◌, ◌||◌, List, [], ◌∷◌, ◌++◌, Option,
  none, some, length, leb, ltb, ◌==◌, if◌then◌else◌, reverse,
}
use Prim.Native.String.{◌++◌ as join}
use text.Mathlib.Text.{find?}
use kernel_su_tun2proxy.Prelude.Exec.{
  Result, ok, err, Exec, ◌>>=◌, ◌>>◌, pure, raise, get, modify, fail_if, attempt, continue,
}
use kernel_su_tun2proxy.Web.Certificates.{Certificate, Entry, Inventory, lookup}
use kernel_su_tun2proxy.Web.Certificates.Names.{allocate_name}
use kernel_su_tun2proxy.Engine.Config.{contains}

pub record CertMount : Type 0 where
  pub pid : ℕ
  pub ns : String
  pub target : String
  pub source : String
  pub files : List (String × String)

pub record MountState : Type 0 where
  pub boot : String
  pub mounts : List CertMount

-- What `detectTrust` finds.
pub record TrustEnvironment : Type 0 where
  pub targets : List String
  pub namespaces : List ℕ

pub data FileCall : Type 0 where
  make_runtime make_temp : FileCall
  copy_directory : String → String → FileCall
  write : String → String → FileCall
  label_of : ℕ → String → FileCall  -- ls -Zd
  chcon : String → String → FileCall
  chmod : String → FileCall

pub data MountError : Type 0 where
  no_trust bad_journal too_many_layers foreign no_file no_certificate gm_signature no_label :
      MountError
  umount_failed mount_failed namespace_changed not_visible bad_name bad_fingerprint not_trusted
        not_saved :
      MountError
  incomplete : MountError → MountError

pub record Host (W : Type 0) : Type 0 where
  pub store_dir : String
  pub detect : W → Option TrustEnvironment
  pub boot_id : W → String
  pub namespace : ℕ → W → Option String
  pub roots : ℕ → String → W → List String
  pub umount : ℕ → String → W → W × Bool
  pub mount : ℕ → String → String → W → W × Bool  -- source, then target
  pub save : MountState → W → W × Bool
  pub file : FileCall → W → W × Option String
  pub names : String → W → List (String × String)
  pub read_certificate : String → W → Option (Certificate × Bool)  -- whether it is of type gm
  pub signature_valid : String → W → Bool
  pub trusted : String → W → Bool
  pub fingerprint : ℕ → String → W → Option String  -- of a file, seen from a process
  pub readable : W → Bool  -- mounts.json, where it exists
  pub namespace_path : ℕ → String → String
  pub base_name : String → String
  pub parent : String → String
  pub sorted : Inventory → List (String × Entry)
  pub numbered : String → ℕ → String

-- The world, and mounts.json.
pub record State (W : Type 0) : Type 0 where
  pub world : W
  pub journal : Option MountState

-- `strings.HasPrefix`
abbrev pub at_start : Option ℕ → Bool
at_start none = false
at_start (some n) = n == 0

abbrev pub has_prefix : String → String → Bool
has_prefix s p = at_start (find? s p)

-- `mountRoot`
abbrev pub newest : List String → String
newest [] = ""
newest (r ∷ rs) = r

module _ {W : Type 0} (h : Host W) where
  abbrev pub M : Type 0 → Type 0
  M A = Exec (State W) MountError A

  unfoldable pub owned_root : String → Bool
  owned_root root = has_prefix root (join h.store_dir "/runtime/")

  abbrev pub mount_root : ℕ → String → W → String
  mount_root pid target w = newest (h.roots pid target w)

  abbrev pub done : Bool → MountError → M (Unit {0})
  done true e s = (s, ok tt)
  done false e s = (s, err e)

  -- `mountState`
  abbrev pub journal_of : Option MountState → W → MountState
  journal_of none w = record { boot = h.boot_id w; mounts = [] }
  journal_of (some s) w =
      if str_eq s.boot (h.boot_id w) then s else record { boot = h.boot_id w; mounts = [] }

  abbrev pub saved : Bool → MountState → State W → State W
  saved true j s = record s { journal = some j }
  saved false j s = s

  -- `saveMounts`
  unfoldable pub save_mounts : MountState → M (Unit {0})
  save_mounts j s =
      let (v, b) = h.save j s.world in done b not_saved (saved b j (record s { world = v }))

  unfoldable pub umount : ℕ → String → M (Unit {0})
  umount pid target s =
      let (v, b) = h.umount pid target s.world in done b umount_failed (record s { world = v })

  unfoldable pub bind_mount : CertMount → M (Unit {0})
  bind_mount m s =
      let (v, b) = h.mount m.pid m.source m.target s.world in
      done b mount_failed (record s { world = v })

  abbrev pub found : Option TrustEnvironment → M TrustEnvironment
  found none = raise no_trust
  found (some d) = pure d

  abbrev pub detect_trust : M TrustEnvironment
  detect_trust s = found (h.detect s.world) s

  abbrev pub is_owned : ℕ → String → State W → Bool
  is_owned pid target s = owned_root (mount_root pid target s.world)

  -- The inner loop of `removeTrust`, by the layers that it may still take off.
  unfoldable pub remove_layers : ℕ → String → ℕ → M (Unit {0})
  remove_layers pid target zero s = fail_if (is_owned pid target s) too_many_layers s
  remove_layers pid target (suc n) s =
      let rest = umount pid target >> remove_layers pid target n in
      if is_owned pid target s then rest s else (s, ok tt)

  unfoldable pub remove_targets : ℕ → List String → M (Unit {0})
  remove_targets pid [] = pure tt
  remove_targets pid (t ∷ ts) = remove_layers pid t 64 >> remove_targets pid ts

  unfoldable pub remove_namespaces : List ℕ → List String → M (Unit {0})
  remove_namespaces [] targets = pure tt
  remove_namespaces (p ∷ ps) targets = remove_targets p targets >> remove_namespaces ps targets

  abbrev pub save_empty : M (Unit {0})
  save_empty s = save_mounts (record { boot = h.boot_id s.world; mounts = [] }) s

  abbrev pub remove_found : TrustEnvironment → M (Unit {0})
  remove_found d = remove_namespaces d.namespaces d.targets >> save_empty

  unfoldable pub remove_trust : M (Unit {0})
  remove_trust = detect_trust >>= remove_found
