-- ===== src/Redirect/Uids.antt =====
-- ebpf-proxy/internal/redirect/loader_linux.go: `UID` and `UIDs`, which change and list
-- target_uid_map. sort.Slice comes from outside.
pub mod Sets
use kernel_su_tun2proxy.Prelude.{ℕ, String, str_eq, Bool, true, false, List, [], ◌∷◌, if◌then◌else◌}
use kernel_su_tun2proxy.Prelude.Exec.{
  Result, ok, err, Exec, ◌>>=◌, ◌>>◌, pure, raise, get, modify, fail_if, continue,
}
use kernel_su_tun2proxy.Redirect.Manager.{
  Kernel, State, Write, target_uid, Deletion, deleted, no_key, delete_failed, LoadError, bad_action,
  uid_failed, put_map,
}

module _ {W : Type 0} (k : Kernel W) (sort : List ℕ → List ℕ) where
  abbrev pub M : Type 0 → Type 0
  M A = Exec (State W) LoadError A

  -- An error of the iterator is ignored: the list is then short.
  unfoldable pub uids : M (List ℕ)
  uids s = let (v, (ks, complete)) = k.uid_keys s.world in (record s { world = v }, ok (sort ks))

  -- `Delete`
  unfoldable pub delete : ℕ → M Deletion
  delete u s = let (v, d) = k.delete_uid u s.world in (record s { world = v }, ok d)

  abbrev pub unless_missing : Deletion → M (Unit {0})
  unless_missing deleted = pure tt
  unless_missing no_key = pure tt
  unless_missing delete_failed = raise uid_failed

  abbrev pub must_be_deleted : Deletion → M (Unit {0})
  must_be_deleted deleted = pure tt
  must_be_deleted no_key = raise uid_failed
  must_be_deleted delete_failed = raise uid_failed

  -- The loop of "clear".
  unfoldable pub clear : List ℕ → M (Unit {0})
  clear [] = pure tt
  clear (u ∷ us) = (delete u >>= must_be_deleted) >> clear us

  abbrev pub uid_del : ℕ → M (Unit {0})
  uid_del u = delete u >>= unless_missing

  abbrev pub uid_clear : M (Unit {0})
  uid_clear = uids >>= clear

  unfoldable pub uid : String → ℕ → M (Unit {0})
  uid action u =
      if str_eq action "add"
      then put_map k (target_uid u)
      else if str_eq action "del"
      then uid_del u
      else if str_eq action "clear"
      then uid_clear
      else raise bad_action
