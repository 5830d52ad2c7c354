-- ===== src/Web/MountTests.antt =====
-- One certificate to add, in one namespace with one target, and names that are taken.
use kernel_su_tun2proxy.Prelude.{
  ℕ, zero, suc, String, str_eq, Bool, true, false, List, [], ◌∷◌, Option, none, some, ◌≡◌, inl, inr,
  refl, ap, ◌∙◌, sym, some_eq, Bool-cases, true_ne, subst, and_true, eq_iff, ◌==◌, ◌&&◌, ◌||◌,
}
use Prim.Native.String.{◌++◌ as join}
use kernel_su_tun2proxy.Prelude.Exec.{Ensures}
use kernel_su_tun2proxy.Web.Certificates.{Certificate, Inventory}
use kernel_su_tun2proxy.Web.Certificates.Names.{allocate_name, IsAllocated, allocate_name_lem}
use kernel_su_tun2proxy.Web.Mounts.{
  FileCall, make_runtime, make_temp, copy_directory, write, label_of, chcon, chmod, Host, State,
  newest, remove_trust,
}
use kernel_su_tun2proxy.Web.Mounts.Removal.{
  Cleaner, AllFree, Umounts, Unmounted, Follows, remove_trust_lem,
}
use kernel_su_tun2proxy.Web.Mounts.Generations.{Files}
use kernel_su_tun2proxy.Web.Mounts.Layers.{Mounts, Bound, shown}

-- A name for each number: a stroke for each unit.
abbrev strokes : ℕ → String
strokes zero = ""
strokes (suc n) = String.◌∷◌ "1" (strokes n)

count : String → ℕ
count String.[] = 0
count (String.◌∷◌ c s) = suc (count s)

count-strokes : (n : ℕ) → count (strokes n) ≡ n
unfolding count
count-strokes zero = refl
count-strokes (suc n) = ap suc (count-strokes n)

abbrev ca : Certificate
ca = record { id = "c1"; subject_hash = "9d66eef0"; pem = "PEM" }

allocate_name_example :
    (r : String × Bool) × (allocate_name (λ s n. strokes n) ca (("", "c0") ∷ ("1", "reserved") ∷ [])
      ≡ some r)
    × IsAllocated ca (("", "c0") ∷ ("1", "reserved") ∷ []) r
allocate_name_example =
    allocate_name_lem (λ s n. strokes n) ca (("", "c0") ∷ ("1", "reserved") ∷ [])
      (λ m n e. sym (count-strokes m) ∙ ap count e ∙ count-strokes n) (refl, (refl, tt))

-- The layers of one mount point, in a namespace that processes 1 and 2 share.
abbrev here : ℕ → String → Bool
here p a = ((p == 1) || (p == 2)) && str_eq a "/t"

abbrev flag : Bool → ℕ
flag true = 1
flag false = 0

abbrev layers : Bool → List String → List String
layers true w = w
layers false w = []

abbrev take_off : Bool → List String → List String × Bool
take_off true (r ∷ w) = (w, true)
take_off _ w = (w, false)

abbrev put_on : Bool → String → List String → List String × Bool
put_on true r w = (r ∷ w, true)
put_on false r w = (w, false)

abbrev temp : Bool → Option String
temp true = none
temp false = some "/d/runtime/gen-1"

abbrev answer : FileCall → List String → Option String
answer make_temp w = temp (str_eq (newest w) "/d/runtime/gen-1/live")
answer (label_of p a) w = some "u:object_r:system_security_cacerts_file:s0"
answer make_runtime w = some ""
answer (copy_directory a b) w = some ""
answer (write a b) w = some ""
answer (chcon a b) w = some ""
answer (chmod a) w = some ""

abbrev host : Host (List String)
host = record {
  store_dir = "/d";
  detect = λ w. some (record { targets = "/t" ∷ []; namespaces = 1 ∷ [] });
  boot_id = λ w. "boot";
  namespace = λ p w. some "mnt:[1]";
  roots = λ p a w. layers (here p a) w;
  umount = λ p a w. take_off (here p a) w;
  mount = λ p r a w. put_on (here p a) r w;
  save = λ j w. (w, true);
  file = λ c w. (w, answer c w);
  names = λ d w. ("9d66eef0.0", "reserved") ∷ [];
  read_certificate = λ i w. some (ca, false);
  signature_valid = λ i w. true;
  trusted = λ i w. false;
  fingerprint = λ p f w. some "c1";
  readable = λ w. true;
  namespace_path = λ p a. join "/proc/1/root" a;
  base_name = λ n. n;
  parent = λ d. "/d/runtime/gen-0";
  sorted = λ v. v.entries;
  numbered = λ s n. strokes n;
}

abbrev group : ℕ → String → ℕ
group p a = flag (here p a)

at_target : (p : ℕ) (a : String) → here p a ≡ true → str_eq a "/t" ≡ true
at_target p a e = (and_true ((p == 1) || (p == 2)) (str_eq a "/t") e).1

apart : (p q : ℕ) (a b : String) → shown group q b p a ≡ false → here p a ≡ true → here q b ≡ false
apart p q a b e f = elim (Bool-cases (here q b)) [
  | inr n ↦ n
  | inl y ↦
      let b_path = (eq_iff b "/t").0 (at_target q b y) in
      let a_path = (eq_iff a "/t").0 (at_target p a f) in
      absurd (true_ne _ (both (here q b) (here p a) y f (b_path ∙ sym a_path)) e)
]
  where
    both : (x z : Bool) → x ≡ true → z ≡ true → b ≡ a → ((flag x == flag z) && str_eq b a) ≡ true
    both true true u v w = (eq_iff b a).1 w
    both true false u v w = absurd (cc)
    both false z u v w = absurd (cc)

together : (b c : Bool) (w : List String) → flag b ≡ flag c → layers b w ≡ layers c w
together true true w e = refl
together true false w e = absurd (cc)
together false true w e = absurd (cc)
together false false w e = refl

follow :
    (b c : Bool) (w : List String)
    → Follows (take_off b w).1 (newest (layers b w)) (layers c w) (layers c (take_off b w).0)
follow false c w = inl refl
follow true c [] = inl refl
follow true false (r ∷ w) = inl refl
follow true true (r ∷ w) = inr (refl, refl)

take_off-apart :
    (b c : Bool) (w : List String) → (b ≡ true → c ≡ false) → layers c (take_off b w).0 ≡ layers c w
take_off-apart false c w f = refl
take_off-apart true c [] f = refl
take_off-apart true c (r ∷ w) f = rw (f refl) refl

put_on-apart :
    (b c : Bool) (r : String) (w : List String)
    → (b ≡ true → c ≡ false)
    → layers c (put_on b r w).0 ≡ layers c w
put_on-apart false c r w f = refl
put_on-apart true c r w f = rw (f refl) refl

off :
    (b : Bool) (w : List String)
    → Unmounted (take_off b w).1 (layers b w) (layers b (take_off b w).0)
off true [] = refl
off true (r ∷ w) = (r, refl)
off false w = refl

on :
    (b : Bool) (r : String) (w : List String)
    → Bound (put_on b r w).1 r (layers b w) (layers b (put_on b r w).0)
on true r w = refl
on false r w = refl

umounts : Umounts host
umounts = record {
  there = λ p a w. off (here p a) w;
  elsewhere = λ p a w q b e. follow (here p a) (here q b) w;
  save = λ j w p a. refl;
}

not_shown :
    (b c : Bool) (w : List String) (dir : String)
    → str_eq (newest w) "/d/runtime/gen-1/live" ≡ b
    → temp b ≡ some dir
    → str_eq (newest (layers c w)) (join dir "/live") ≡ false
not_shown true c w dir e f = absurd (cc)
not_shown false true w dir e f =
    subst (λ d. str_eq (newest w) (join d "/live") ≡ false) (some_eq f) e
not_shown false false w dir e f = subst (λ d. str_eq "" (join d "/live") ≡ false) (some_eq f) refl

files : Files host
files = record {
  roots = λ c w p a. refl;
  detect = λ c w. refl;
  fresh =
      λ w dir e p a. not_shown (str_eq (newest w) "/d/runtime/gen-1/live") (here p a) w dir refl e;
}

mounts : Mounts host
mounts = record {
  umounts = umounts;
  files = files;
  group = group;
  agree = λ p q a w e. together (here p a) (here q a) w e;
  umounts_apart = λ p a w q b e. take_off-apart (here p a) (here q b) w (apart p q a b e);
  there = λ m w. on (here m.pid m.target) m.source w;
  elsewhere = λ m w p a e.
      put_on-apart (here m.pid m.target) (here p a) m.source w (apart m.pid p m.target a e);
}

abbrev start : State (List String)
start = record { world = "/d/runtime/gen-0/live" ∷ "" ∷ []; journal = none }

remove_trust_example :
    Ensures
      (λ _ t.
        Cleaner host start t
        × AllFree host (1 ∷ []) ("/t" ∷ []) t
        × ((boot : String) × (t.journal ≡ some (record { boot = boot; mounts = [] }))))
      (λ _ t. Cleaner host start t)
      (remove_trust host start)
remove_trust_example =
    remove_trust_lem host umounts (record { targets = "/t" ∷ []; namespaces = 1 ∷ [] }) start refl

abbrev inventory : Inventory
inventory = record {
  entries = ("c1", record { certificate = ca; source = "local"; managed = true }) ∷ [];
  yakit = [];
}
