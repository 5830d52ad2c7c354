-- ===== src/Web/Routes.antt =====
-- cmd/tun2proxy-web/routes.go: the policy routes of the TUN backend and their journal on disk.
-- From outside: what the n-th command prints and whether it fails, which file operation fails, the
-- process table, net's parsers, the system's decimal numerals, and blank output.
pub mod Cleanup
use kernel_su_tun2proxy.Prelude.{
  ℕ, zero, suc, ℤ, pos, negsuc, String, str_eq, Bool, true, false, not, ◌&&◌, ◌||◌, List, [], ◌∷◌,
  ◌++◌, Option, none, some, map, length, reverse, ltb, leb, ◌==◌, if◌then◌else◌,
}
use Prim.Native.String.{◌++◌ as join}
use kernel_su_tun2proxy.Prelude.Exec.{
  Result, ok, err, Exec, ◌>>=◌, ◌>>◌, pure, raise, get, modify, fail_if, attempt, continue,
}
use kernel_su_tun2proxy.Engine.Config.{contains}
use kernel_su_tun2proxy.Web.Config.{Config, Url}
use kernel_su_tun2proxy.Web.Backend.{AppEntry, known_uid}

abbrev pub Argv : Type 0
Argv = List String

pub record RouteState : Type 0 where
  pub boot : String
  pub mode : String
  pub uids : List ℤ
  pub pid : ℤ
  pub identity : String
  pub undo : List Argv

-- The journal file, the `state` that `startRoutes` builds, and the commands that ran.
pub record Machine : Type 0 where
  pub journal : Option RouteState
  pub state : RouteState
  pub ran : List Argv
  pub changes : ℕ

pub data RouteError : Type 0 where
  not_exist incomplete disk command_failed no_config invalid_mode invalid_address dns_mode no_link
        no_engine :
      RouteError
  no_apps app_unavailable no_selection table_in_use chain_exists invalid_bypass no_log no_watcher :
      RouteError

pub record Process : Type 0 where
  pub running : Bool
  pub pid : ℤ
  pub identity : String

pub record RouteEnv : Type 0 where
  pub run : ℕ → Argv → Bool × String
  pub change_fails : ℕ → Bool
  pub boot_id : String
  pub config : Option Config
  pub parse_url : String → Option Url
  pub ipv4_of : String → Option String
  pub network4_of : String → Option String
  pub link_up : String → Bool
  pub process : Process
  pub apps : Option (List AppEntry)
  pub decimal : ℤ → String
  pub blank : String → Bool
  pub log_opens : Bool
  pub watcher_starts : Bool

abbrev pub M : Type 0 → Type 0
M A = Exec Machine RouteError A

abbrev pub empty_state : RouteState
empty_state = record { boot = ""; mode = ""; uids = []; pid = pos 0; identity = ""; undo = [] }

-- `readRoutes`: no file is the empty journal.
abbrev pub read_routes : Machine → RouteState
read_routes m = elim m.journal [ none ↦ empty_state | some s ↦ s ]

-- `routeAlreadyAbsent`
abbrev pub already_absent : String → Bool
already_absent out =
    contains out "No such"
    || contains out "Bad rule"
    || contains out "Cannot find device"
    || contains out "does not exist"
    || contains out "No chain/target/match"
    || contains out "Couldn't find target `T2P_CAPTURE'"

abbrev pub elem_int : ℤ → List ℤ → Bool
elem_int i [] = false
elem_int i (j ∷ js) = same i j || elem_int i js
  where
    same : ℤ → ℤ → Bool
    same (pos a) (pos b) = a == b
    same (negsuc a) (negsuc b) = a == b
    same _ _ = false

abbrev pub leq_int : ℤ → ℤ → Bool
leq_int (pos a) (pos b) = leb a b
leq_int (negsuc a) (negsuc b) = leb b a
leq_int (pos a) (negsuc b) = false
leq_int (negsuc a) (pos b) = true

abbrev pub insert : ℤ → List ℤ → List ℤ
insert i [] = i ∷ []
insert i (j ∷ js) = if leq_int i j then i ∷ j ∷ js else j ∷ insert i js

-- `sort.Ints`
abbrev pub sort_ints : List ℤ → List ℤ
sort_ints [] = []
sort_ints (i ∷ is) = insert i (sort_ints is)

-- The loop over the selected packages.
abbrev pub collect_uids : List AppEntry → List ℤ → List String → Option (List ℤ)
collect_uids apps uids [] = some uids
collect_uids apps uids (pkg ∷ pkgs) = elim (known_uid pkg apps) [
  | none ↦ none
  | some uid ↦ collect_uids apps (if elem_int uid uids then uids else uids ++ uid ∷ []) pkgs
]

abbrev pub selected : Config → List AppEntry → M (List ℤ)
selected c apps m = elim (collect_uids apps [] c.app_packages) [
  | none ↦ (m, err app_unavailable)
  | some uids ↦ if length uids == 0 then (m, err no_selection) else (m, ok (sort_ints uids))
]

abbrev pub require : {A : Type 0} → Option A → RouteError → M A
require none e m = (m, err e)
require (some a) e m = (m, ok a)

abbrev pub chain : String → Argv → Argv
chain tool rest = tool ∷ "-w" ∷ "5" ∷ rest

abbrev pub with_mask : String → String
with_mask cidr = if contains cidr "/" then cidr else join cidr "/32"

abbrev pub elem : String → List String → Bool
elem s [] = false
elem s (t ∷ ts) = str_eq s t || elem s ts

module _ (env : RouteEnv) where
  -- `routeCmd`: the output, and whether it failed.
  unfoldable pub route_cmd : Argv → M (Bool × String)
  route_cmd argv m = (record m { ran = m.ran ++ argv ∷ [] }, ok (env.run (length m.ran) argv))

  unfoldable pub must : Argv → M (Unit {0})
  must argv = do r ← route_cmd argv; fail_if r.0 command_failed

  -- `writeRoutes`: the new file is renamed over the old one.
  unfoldable pub write_routes : M (Unit {0})
  write_routes m =
      if env.change_fails m.changes
      then (record m { changes = suc m.changes }, err disk)
      else (record m { journal = some m.state; changes = suc m.changes }, ok tt)

  -- `os.Remove(routeStatePath())`
  unfoldable pub remove_journal : M (Unit {0})
  remove_journal m = elim m.journal [
    | none ↦ (m, err not_exist)
    | some s ↦
        if env.change_fails m.changes
        then (record m { changes = suc m.changes }, err disk)
        else (record m { journal = none; changes = suc m.changes }, ok tt)
  ]

  -- Undo commands run one after the other: how many failed for another reason than that there is
  -- nothing to undo.
  unfoldable pub undo_all : List Argv → M ℕ
  undo_all [] = pure 0
  undo_all (u ∷ us) = do
    r ← route_cmd u
    n ← undo_all us
    pure (if r.0 && not (already_absent r.1) then suc n else n)

  -- `cleanupRoutes`
  unfoldable pub cleanup_routes : M (Unit {0})
  cleanup_routes = do
    m ← get
    if not (str_eq (read_routes m).boot "") && not (str_eq (read_routes m).boot env.boot_id)
        then remove_journal
        else (do
          failures ← undo_all (reverse (read_routes m).undo)
          fail_if (not (failures == 0)) incomplete
          remove_journal)

  unfoldable pub record_undo : Argv → M (Unit {0})
  record_undo undo = do
    modify (λ m. record m { state = record m.state { undo = m.state.undo ++ undo ∷ [] } })
    write_routes

  -- `add`: the undo command is on disk before the command runs.
  unfoldable pub add : (do' undo : Argv) → M (Unit {0})
  add do' undo = do record_undo undo; must do'

  -- The rules of one tool's chain.
  unfoldable pub install_chain : String → M (Unit {0})
  install_chain tool = do
    add (chain tool ("-N" ∷ "T2P_CAPTURE" ∷ [])) (chain tool ("-X" ∷ "T2P_CAPTURE" ∷ []))
    record_undo (chain tool ("-F" ∷ "T2P_CAPTURE" ∷ []))
    if str_eq tool "iptables"
        then must (
            chain tool (
              "-A" ∷ "T2P_CAPTURE" ∷ "-p" ∷ "udp" ∷ "!" ∷ "--dport" ∷ "53" ∷ "-j" ∷ "REJECT"
              ∷ "--reject-with" ∷ "icmp-port-unreachable" ∷ []))
        else (do
          must (chain tool ("-A" ∷ "T2P_CAPTURE" ∷ "-d" ∷ "::1/128" ∷ "-j" ∷ "RETURN" ∷ []))
          must (
              chain tool (
                "-A" ∷ "T2P_CAPTURE" ∷ "-j" ∷ "REJECT" ∷ "--reject-with" ∷ "icmp6-adm-prohibited"
                ∷ [])))

  unfoldable pub bypass_network : String → M (Unit {0})
  bypass_network cidr = do
    must (chain "iptables" ("-I" ∷ "T2P_CAPTURE" ∷ "1" ∷ "-d" ∷ cidr ∷ "-j" ∷ "RETURN" ∷ []))
    add ("ip" ∷ "route" ∷ "add" ∷ "throw" ∷ cidr ∷ "table" ∷ "38765" ∷ [])
        ("ip" ∷ "route" ∷ "del" ∷ "throw" ∷ cidr ∷ "table" ∷ "38765" ∷ [])

  -- The loop over the networks to bypass, with those seen.
  unfoldable pub bypass_all : List String → List String → M (Unit {0})
  bypass_all seen [] = pure tt
  bypass_all seen (v ∷ vs) = do
    cidr ← require (env.network4_of (with_mask v)) invalid_bypass
    (if elem cidr seen then pure tt else bypass_network cidr)
    bypass_all (if elem cidr seen then seen else cidr ∷ seen) vs

  unfoldable pub capture : String × String → String → M (Unit {0})
  capture r tool =
      let owner = join r.0 (join ":" r.1) in
      add
        (chain tool (
          "-I" ∷ "OUTPUT" ∷ "1" ∷ "-m" ∷ "owner" ∷ "--uid-owner" ∷ owner ∷ "-j" ∷ "T2P_CAPTURE"
          ∷ []))
        (chain tool
          ("-D" ∷ "OUTPUT" ∷ "-m" ∷ "owner" ∷ "--uid-owner" ∷ owner ∷ "-j" ∷ "T2P_CAPTURE" ∷ []))

  -- The loop over the ranges of UIDs.
  unfoldable pub capture_all : List (String × String) → M (Unit {0})
  capture_all [] = pure tt
  capture_all (r ∷ rs) = do
    capture r "iptables"
    capture r "ip6tables"
    add
        ("ip"
          ∷ "rule"
          ∷ "add"
          ∷ "priority"
          ∷ "9000"
          ∷ "uidrange"
          ∷ join r.0 (join "-" r.1)
          ∷ "lookup"
          ∷ "38765"
          ∷ [])
        ("ip"
          ∷ "rule"
          ∷ "del"
          ∷ "priority"
          ∷ "9000"
          ∷ "uidrange"
          ∷ join r.0 (join "-" r.1)
          ∷ "lookup"
          ∷ "38765"
          ∷ [])
    capture_all rs

  abbrev pub ranges_of : String → List ℤ → List (String × String)
  ranges_of mode uids =
      if str_eq mode "all"
      then ("1", "4294967294") ∷ []
      else map (λ uid. (env.decimal uid, env.decimal uid)) uids

  -- Everything after the first journal was written.
  unfoldable pub install : Config → String → String → List ℤ → M (Unit {0})
  install c ip tun uids = do
    install_chain "iptables"
    install_chain "ip6tables"
    add ("ip" ∷ "route" ∷ "add" ∷ "default" ∷ "dev" ∷ tun ∷ "table" ∷ "38765" ∷ [])
        ("ip" ∷ "route" ∷ "del" ∷ "default" ∷ "dev" ∷ tun ∷ "table" ∷ "38765" ∷ [])
    bypass_all []
        (join ip "/32" ∷ "127.0.0.0/8" ∷ "224.0.0.0/4" ∷ "255.255.255.255/32" ∷ c.bypass_ips)
    capture_all (ranges_of c.route_mode uids)
    fail_if (not env.log_opens) no_log
    fail_if (not env.watcher_starts) no_watcher

  -- The deferred cleanup.
  unfoldable pub cleanup_on_error : Result RouteError (Unit {0}) → M (Unit {0})
  cleanup_on_error (ok u) = pure tt
  cleanup_on_error (err e) = attempt cleanup_routes >>= λ r. raise e

  -- No table or chain of another service.
  unfoldable pub check_unused : M (Unit {0})
  check_unused = do
    table ← route_cmd ("ip" ∷ "route" ∷ "show" ∷ "table" ∷ "38765" ∷ [])
    fail_if (not (env.blank table.1)) table_in_use
    four ← route_cmd (chain "iptables" ("-S" ∷ "T2P_CAPTURE" ∷ []))
    fail_if (not four.0) chain_exists
    six ← route_cmd (chain "ip6tables" ("-S" ∷ "T2P_CAPTURE" ∷ []))
    fail_if (not six.0) chain_exists

  unfoldable pub tolerate : Result RouteError (Unit {0}) → M (Unit {0})
  tolerate (err not_exist) = pure tt
  tolerate (err e) = raise e
  tolerate (ok u) = pure tt

  -- `startRoutes` for a mode other than "off".
  unfoldable pub start_mode : Config → M (Unit {0})
  start_mode c = do
    fail_if (not (str_eq c.route_mode "selected") && not (str_eq c.route_mode "all")) invalid_mode
    url ← require (env.parse_url c.proxy_url) invalid_address
    ip ← require (env.ipv4_of url.hostname) invalid_address
    fail_if (not (str_eq c.dns_mode "virtual")) dns_mode
    fail_if (not (env.link_up (if str_eq c.tun_name "" then "tun0" else c.tun_name))) no_link
    fail_if (not env.process.running || str_eq env.process.identity "") no_engine
    apps ← require env.apps no_apps
    uids ← (if str_eq c.route_mode "selected" then selected c apps else pure [])
    check_unused
    modify (λ m. record m {
      state = record {
        boot = env.boot_id;
        mode = c.route_mode;
        uids = uids;
        pid = env.process.pid;
        identity = env.process.identity;
        undo = [];
      };
    })
    write_routes
    r ← attempt (install c ip (if str_eq c.tun_name "" then "tun0" else c.tun_name) uids)
    cleanup_on_error r

  -- `startRoutes`, under the lock.
  unfoldable pub start_routes : M (Unit {0})
  start_routes = do
    old ← attempt cleanup_routes
    tolerate old
    c ← require env.config no_config
    if str_eq c.route_mode "" || str_eq c.route_mode "off" then pure tt else start_mode c

  -- One round of the watchdog: whether it is finished.
  unfoldable pub watch : (pid : ℤ) (identity : String) → String → M Bool
  watch pid identity now = do
    m ← get
    if not (elem_int pid ((read_routes m).pid ∷ []))
          || not (str_eq (read_routes m).identity identity)
        then pure true
        else (if str_eq now identity then pure false else (cleanup_routes >> pure true))
