-- ===== src/Redirect/Cgroup.antt =====
-- ebpf-proxy/internal/redirect/loader_linux.go: `CheckCgroup`. A clean absolute path is the list of
-- its elements, the last first, so that `filepath.Dir` drops the head; the root is empty.
pub mod Owners
use kernel_su_tun2proxy.Prelude.{
  ℕ, String, Bool, true, false, not, ◌&&◌, List, [], ◌∷◌, ◌++◌, Option, none, some, ◌==◌,
  if◌then◌else◌,
}

pub data AttachType : Type 0 where
  inet4_connect inet6_connect sock_ops : AttachType

-- `QueryCgroup`: the flags and the programs of a hook.
pub record Hook : Type 0 where
  pub flags : ℕ
  pub ids : List ℕ

-- What the file system and the kernel answer.
pub record CgroupFs : Type 0 where
  pub eval_symlinks : String → Option (List String)
  pub statfs : List String → Option Bool  -- whether it is a cgroup v2 file system
  pub open_dir : List String → Bool
  pub query : List String → AttachType → Option Hook

pub data CgroupError : Type 0 where
  no_path no_statfs not_cgroup cannot_open query_failed exclusive : CgroupError

abbrev pub hook_types : Bool → List AttachType
hook_types ipv6 = (inet4_connect ∷ sock_ops ∷ []) ++ (if ipv6 then inet6_connect ∷ [] else [])

abbrev pub is_empty : List ℕ → Bool
is_empty [] = true
is_empty _ = false

-- One hook: no error if nothing is attached, or all with BPF_F_ALLOW_MULTI.
abbrev pub check_hook : Option Hook → Option CgroupError
check_hook none = some query_failed
check_hook (some h) = if not (is_empty h.ids) && not (h.flags == 2) then some exclusive else none

-- `if e != nil { return e }`, then the rest.
abbrev pub first_error : Option CgroupError → Option CgroupError → Option CgroupError
first_error (some e) rest = some e
first_error none rest = rest

unfoldable pub check_hooks : (AttachType → Option Hook) → List AttachType → Option CgroupError
check_hooks query [] = none
check_hooks query (t ∷ ts) = first_error (check_hook (query t)) (check_hooks query ts)

-- The hooks of one directory.
abbrev pub check_directory : CgroupFs → Bool → List String → Option CgroupError
check_directory fs ipv6 path =
    if not (fs.open_dir path)
    then some cannot_open
    else check_hooks (fs.query path) (hook_types ipv6)

-- The answer of Statfs in the loop: another file system ends it.
abbrev pub within : Option Bool → Option CgroupError → Option CgroupError
within none rest = some no_statfs
within (some false) rest = none
within (some true) rest = rest

-- The loop: it ends at a directory of another file system, or after the root.
unfoldable pub check_up : CgroupFs → Bool → List String → Option CgroupError
check_up fs ipv6 [] = within (fs.statfs []) (check_directory fs ipv6 [])
check_up fs ipv6 (x ∷ xs) =
    within (fs.statfs (x ∷ xs))
      (first_error (check_directory fs ipv6 (x ∷ xs)) (check_up fs ipv6 xs))

-- What the first Statfs says.
abbrev pub check_start : Option Bool → Option CgroupError → Option CgroupError
check_start none rest = some no_statfs
check_start (some false) rest = some not_cgroup
check_start (some true) rest = rest

abbrev pub check_resolved : CgroupFs → Bool → Option (List String) → Option CgroupError
check_resolved fs ipv6 none = some no_path
check_resolved fs ipv6 (some path) = check_start (fs.statfs path) (check_up fs ipv6 path)

unfoldable pub check_cgroup : CgroupFs → Bool → String → Option CgroupError
check_cgroup fs ipv6 path = check_resolved fs ipv6 (fs.eval_symlinks path)
