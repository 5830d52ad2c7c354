-- ===== src/Web/Certificates.antt =====
-- cmd/tun2proxy-web/certificate: the store of certificates, an inventory file and one object file
-- for each certificate.
-- An `Atomic` write that fails leaves the file as it was. `fails` says which change of the disk fails.
-- An entry and a remote keep the fields that the store reads; times and audit texts are left out.
pub mod Dangling
pub mod Names
use kernel_su_tun2proxy.Prelude.{
  ℕ, zero, suc, String, str_eq, Bool, true, false, not, ◌&&◌, ◌||◌, List, [], ◌∷◌, ◌++◌, Option,
  none, some, map, length, leb, ◌==◌, if◌then◌else◌,
}
use Prim.Native.Char.{code}
use kernel_su_tun2proxy.Prelude.Exec.{
  Result, ok, err, Exec, ◌>>=◌, ◌>>◌, pure, raise, get, modify, fail_if, continue,
}

pub record Certificate : Type 0 where
  pub id : String
  pub subject_hash : String
  pub pem : String

pub record Entry : Type 0 where
  pub certificate : Certificate
  pub source : String
  pub managed : Bool

pub record Remote : Type 0 where
  pub local_id : String
  pub remote_id : String
  pub history : List String

-- The maps of the inventory, as lists of their entries.
pub record Inventory : Type 0 where
  pub entries : List (String × Entry)
  pub yakit : List (String × Remote)

pub data CertError : Type 0 where
  invalid_id not_found still_managed disk unreadable mismatch no_object : CertError

-- The directory: the inventory file, if there is one, the objects, and the changes made.
pub record Dir : Type 0 where
  pub inventory : Option Inventory
  pub objects : List (String × String)
  pub changes : ℕ

abbrev pub M : Type 0 → Type 0
M A = Exec Dir CertError A

lower_hex : ℕ → Bool
lower_hex c = (leb 48 c && leb c 57) || (leb 97 c && leb c 102)

lower_hex_count : ℕ → String → Option ℕ
lower_hex_count n String.[] = some n
lower_hex_count n (String.◌∷◌ c s) = if lower_hex (code c) then lower_hex_count (suc n) s else none

-- `ValidID`: `^[a-f0-9]{64}$`
pub valid_id : String → Bool
unfolding lower_hex lower_hex_count
valid_id s = elim (lower_hex_count 0 s) [ none ↦ false | some n ↦ n == 64 ]

abbrev pub lookup {ℓ} : {A : Type ℓ} → String → List (String × A) → Option A
lookup k [] = none
lookup k (e ∷ es) = if str_eq e.0 k then some e.1 else lookup k es

-- `delete(m, k)`
abbrev pub delete_key {ℓ} : {A : Type ℓ} → String → List (String × A) → List (String × A)
delete_key k [] = []
delete_key k (e ∷ es) = if str_eq e.0 k then delete_key k es else e ∷ delete_key k es

abbrev pub drop_string : String → List String → List String
drop_string s [] = []
drop_string s (t ∷ ts) = if str_eq t s then drop_string s ts else t ∷ drop_string s ts

-- The body of the loop over `v.Yakit` in `Delete`.
abbrev pub forget : String → Remote → Remote
forget i r = record {
  local_id = if str_eq r.local_id i then "" else r.local_id;
  remote_id = r.remote_id;
  history = drop_string i r.history;
}

abbrev pub forget_all : String → List (String × Remote) → List (String × Remote)
forget_all i [] = []
forget_all i (e ∷ es) = (e.0, forget i e.1) ∷ forget_all i es

abbrev pub ids_ok : List (String × Entry) → Bool
ids_ok [] = true
ids_ok (e ∷ es) = valid_id e.0 && str_eq e.1.certificate.id e.0 && ids_ok es

-- `Load` of a file that decodes.
unfoldable pub load : M Inventory
load d = elim d.inventory [
  | none ↦ (d, ok (record { entries = []; yakit = [] }))
  | some v ↦ (d, if ids_ok v.entries then ok v else err invalid_id)
]

abbrev pub with_entry : Inventory → Certificate → String → Inventory
with_entry v c source = record v {
  entries = (c.id, record { certificate = c; source = source; managed = false }) ∷ v.entries;
}

abbrev pub without : Inventory → String → Inventory
without v i = record { entries = delete_key i v.entries; yakit = forget_all i v.yakit }

module _ (fails : ℕ → Bool) where
  -- `Save`
  unfoldable pub save : Inventory → M (Unit {0})
  save v d =
      if fails d.changes
      then (record d { changes = suc d.changes }, err disk)
      else (record d { inventory = some v; changes = suc d.changes }, ok tt)

  -- `Atomic` on an object.
  unfoldable pub write_object : String → String → M (Unit {0})
  write_object i pem d =
      if fails d.changes then (record d { changes = suc d.changes }, err disk) else (
        record d { objects = (i, pem) ∷ delete_key i d.objects; changes = suc d.changes },
        ok tt,
      )

  abbrev pub remove_found : String → Option String → M (Unit {0})
  remove_found i none d = (d, err no_object)
  remove_found i (some pem) d =
      (record d { objects = delete_key i d.objects; changes = suc d.changes }, ok tt)

  -- `os.Remove` of an object.
  unfoldable pub remove_object : String → M (Unit {0})
  remove_object i d =
      if fails d.changes
      then (record d { changes = suc d.changes }, err disk)
      else remove_found i (lookup i d.objects) d

  abbrev pub put_entry : Inventory → Certificate → String → Option Entry → M Inventory
  put_entry v c source (some e) = pure v
  put_entry v c source none = write_object c.id c.pem >>= λ _. pure (with_entry v c source)

  -- `Put`: the inventory in memory with the certificate in it.
  unfoldable pub put : Inventory → Certificate → String → M Inventory
  put v c source = do
    fail_if (not (valid_id c.id)) invalid_id
    put_entry v c source (lookup c.id v.entries)

  unfoldable pub delete_entry : Inventory → String → Option Entry → M (Unit {0})
  delete_entry v i none = raise not_found
  delete_entry v i (some e) = do
    fail_if e.managed still_managed
    save (without v i)
    remove_object i

  -- `Delete`: the inventory is saved before the object goes.
  unfoldable pub delete : Inventory → String → M (Unit {0})
  delete v i = do fail_if (not (valid_id i)) invalid_id; delete_entry v i (lookup i v.entries)
