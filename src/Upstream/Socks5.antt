-- ===== src/Upstream/Socks5.antt =====
-- ebpf-proxy/internal/upstream/socks5.go: the SOCKS5 client.
-- A connection holds the bytes that the server will send before it closes, and those sent to it.
-- `accept` says how many bytes the n-th `Write` takes (as io.Writer demands, no more than it was
-- given), or that it fails. The destination is taken as net.SplitHostPort and net.ParseIP split it.
pub mod Request
mod Tests
use kernel_su_tun2proxy.Prelude.{
  ℕ, zero, suc, ◌+◌, ◌/◌, ◌%◌, Bool, true, false, not, ◌&&◌, ◌||◌, List, [], ◌∷◌, ◌++◌, Option,
  none, some, length, take, drop, ltb, leb, ◌==◌, if◌then◌else◌,
}
use kernel_su_tun2proxy.Prelude.Exec.{
  Result, ok, err, Exec, ◌>>=◌, ◌>>◌, pure, raise, fail_if, continue,
}

pub data Error : Type 0 where
  write_failed short_write greeting_failed method_rejected auth_too_long auth_failed : Error
  invalid_port invalid_host response_incomplete response_invalid invalid_bound bound_incomplete :
      Error
  rejected : ℕ → Error

pub data Destination : Type 0 where
  ipv4 ipv6 domain : List ℕ → Destination

pub record Conn : Type 0 where
  pub inbox : List ℕ
  pub outbox : List ℕ
  pub writes : ℕ
  pub closed : Bool

pub record Socks5 : Type 0 where
  pub username : List ℕ
  pub password : List ℕ

abbrev pub M : Type 0 → Type 0
M A = Exec Conn Error A

-- What one `Write` of `b` takes.
abbrev taken : (ℕ → Option ℕ) → List ℕ → Conn → Option ℕ
taken accept b c = elim (accept c.writes) [
  | none ↦ none
  | some n ↦ some (if leb n (length b) then n else length b)
]

-- `writeAll`; a round sends at least one byte, so that there are at most as many as bytes.
unfoldable pub write_all : (ℕ → Option ℕ) → ℕ → List ℕ → M (Unit {0})
write_all accept fuel [] c = (c, ok tt)
write_all accept zero (x ∷ b) c = (c, err write_failed)
write_all accept (suc fuel) (x ∷ b) c = elim (taken accept (x ∷ b) c) [
  | none ↦ (record c { writes = suc c.writes }, err write_failed)
  | some zero ↦ (record c { writes = suc c.writes }, err short_write)
  | some (suc n) ↦
      write_all accept fuel (drop n b)
        (record c { outbox = c.outbox ++ take (suc n) (x ∷ b); writes = suc c.writes })
]

unfoldable pub send : (ℕ → Option ℕ) → List ℕ → M (Unit {0})
send accept b = write_all accept (length b) b

-- `io.ReadFull`: all of `n` bytes, or an error.
unfoldable pub read_full : ℕ → Error → M (List ℕ)
read_full n e c =
    if leb n (length c.inbox)
    then (record c { inbox = drop n c.inbox }, ok (take n c.inbox))
    else (record c { inbox = [] }, err e)

abbrev pub byte_at : List ℕ → ℕ → ℕ
byte_at [] i = 0
byte_at (x ∷ xs) zero = x
byte_at (x ∷ xs) (suc i) = byte_at xs i

abbrev pub auth_method : Socks5 → ℕ
auth_method s = if length s.username == 0 then 0 else 2

abbrev pub greeting : Socks5 → List ℕ
greeting s = 5 ∷ 1 ∷ auth_method s ∷ []

abbrev pub credentials : Socks5 → List ℕ
credentials s = 1 ∷ length s.username % 256 ∷ (s.username ++ length s.password % 256 ∷ s.password)

-- The user name and password sub-negotiation.
unfoldable pub authenticate : (ℕ → Option ℕ) → Socks5 → M (Unit {0})
authenticate accept s = do
  fail_if (ltb 255 (length s.username) || ltb 255 (length s.password)) auth_too_long
  send accept (credentials s)
  r ← read_full 2 auth_failed
  fail_if (not (byte_at r 0 == 1) || not (byte_at r 1 == 0)) auth_failed

-- `negotiate` on a connection that was opened.
unfoldable pub negotiate : (ℕ → Option ℕ) → Socks5 → M (Unit {0})
negotiate accept s = do
  send accept (greeting s)
  r ← read_full 2 greeting_failed
  fail_if (not (byte_at r 0 == 5) || not (byte_at r 1 == auth_method s)) method_rejected
  if auth_method s == 2 then authenticate accept s else pure tt

-- Address type and address of a request.
abbrev pub address : Destination → List ℕ
address (ipv4 a) = 1 ∷ a
address (ipv6 a) = 4 ∷ a
address (domain h) = 3 ∷ length h % 256 ∷ h

abbrev pub request : Destination → ℕ → List ℕ
request d port = 5 ∷ 1 ∷ 0 ∷ (address d ++ port / 256 % 256 ∷ port % 256 ∷ [])

abbrev bad_host : Destination → Bool
bad_host (domain h) = ltb (length h) 1 || ltb 255 (length h)
bad_host _ = false

-- The size of the bound address, by its type; that of a domain name is read first.
unfoldable pub bound_size : ℕ → M ℕ
bound_size kind c =
    if kind == 1
    then (c, ok 4)
    else if kind == 4
    then (c, ok 16)
    else if kind == 3
    then continue (read_full 1 bound_incomplete c) (λ b. pure (byte_at b 0))
    else (c, err invalid_bound)

-- The reply to a request.
unfoldable pub read_reply : M (Unit {0})
read_reply = do
  head ← read_full 4 response_incomplete
  fail_if (not (byte_at head 0 == 5) || not (byte_at head 2 == 0)) response_invalid
  fail_if (not (byte_at head 1 == 0)) (rejected (byte_at head 1))
  size ← bound_size (byte_at head 3)
  rest ← read_full (size + 2) bound_incomplete
  pure tt

unfoldable pub exchange : (ℕ → Option ℕ) → Socks5 → Destination → ℕ → M (Unit {0})
exchange accept s d port = do negotiate accept s; send accept (request d port); read_reply

-- `defer func() { if !success { c.Close() } }()`
abbrev pub close_on_error : Conn × Result Error (Unit {0}) → Conn × Result Error (Unit {0})
close_on_error p = elim p.1 [ ok u ↦ p | err e ↦ (record p.0 { closed = true }, err e) ]

-- `Connect`: the port and the host are checked before the connection is opened.
unfoldable pub connect :
    (ℕ → Option ℕ) → Socks5 → Destination → ℕ → Conn → Option Conn × Result Error (Unit {0})
connect accept s d port c =
    let p = close_on_error (exchange accept s d port c) in
    if ltb port 1 || ltb 65535 port
    then (none, err invalid_port)
    else if bad_host d
    then (none, err invalid_host)
    else (some p.0, p.1)
