-- ===== src/Upstream/Socks5/Request.antt =====
-- ebpf-proxy/internal/upstream/socks5.go: the request of `Connect`, and a reader of RFC 1928 requests.
use kernel_su_tun2proxy.Prelude.{
  ℕ, ◌+◌, ◌*◌, ◌/◌, ◌%◌, ◌≤◌, ◌≡◌, refl, sym, ap, List, [], ◌∷◌, ◌++◌, Option, none, some, length,
  take, drop, leb, ◌==◌, ◌&&◌, if◌then◌else◌, arith, length-append,
}
use mathlib.Core.List.{append_assoc}
use kernel_su_tun2proxy.Upstream.Socks5.{Destination, ipv4, ipv6, domain, request}

-- `n` bytes, and what follows.
abbrev pub split_at : ℕ → List ℕ → Option (List ℕ × List ℕ)
split_at n b = if leb n (length b) then some (take n b, drop n b) else none

abbrev pub read_port : Destination → List ℕ → Option (Destination × ℕ × List ℕ)
read_port d (hi ∷ lo ∷ rest) = some (d, hi * 256 + lo, rest)
read_port d _ = none

abbrev pub then_port :
    (List ℕ → Destination) → Option (List ℕ × List ℕ) → Option (Destination × ℕ × List ℕ)
then_port f none = none
then_port f (some (a, rest)) = read_port (f a) rest

abbrev read_name : List ℕ → Option (List ℕ × List ℕ)
read_name [] = none
read_name (n ∷ b) = split_at n b

-- VER CMD RSV ATYP DST.ADDR DST.PORT
pub read_request : List ℕ → Option (Destination × ℕ × List ℕ)
read_request (ver ∷ cmd ∷ rsv ∷ kind ∷ b) =
    if ver == 5 && cmd == 1 && rsv == 0
    then (if kind == 1
        then then_port ipv4 (split_at 4 b)
        else if kind == 4
        then then_port ipv6 (split_at 16 b)
        else if kind == 3
        then then_port domain (read_name b)
        else none)
    else none
read_request _ = none

-- The lengths that `Connect` makes sure of: those of net.IP, and the test on host names.
abbrev pub IsWellFormed : Destination → Type 0
IsWellFormed (ipv4 a) = length a ≡ 4
IsWellFormed (ipv6 a) = length a ≡ 16
IsWellFormed (domain h) = (1 ≤ length h) × (length h ≤ 255)

take-append : (a rest : List ℕ) → take (length a) (a ++ rest) ≡ a
take-append [] rest = refl
take-append (x ∷ a) rest = ap (◌∷◌ x) (take-append a rest)

drop-append : (a rest : List ℕ) → drop (length a) (a ++ rest) ≡ rest
drop-append [] rest = refl
drop-append (x ∷ a) rest = drop-append a rest

split_at_lem : (n : ℕ) (b : List ℕ) → n ≤ length b → split_at n b ≡ some (take n b, drop n b)
split_at_lem n b h = ground arith

split_at-append : (n : ℕ) (a rest : List ℕ) → length a ≡ n → split_at n (a ++ rest) ≡ some (a, rest)
split_at-append n a rest h =
    rw
      (
        sym h,
        split_at_lem (length a) (a ++ rest) (omega (arith, length-append a rest)),
        take-append,
        drop-append,
      )
      refl

port_lem :
    (d : Destination) (port : ℕ) (rest : List ℕ)
    → port ≤ 65535
    → read_port d (port / 256 % 256 ∷ port % 256 ∷ rest) ≡ some (d, port, rest)
port_lem d port rest h = ap (λ n. some (d, n, rest)) (omega arith)

-- A reader of the protocol gets back the destination, the port and what follows the request.
pub read-request :
    (d : Destination) (port : ℕ) (rest : List ℕ)
    → IsWellFormed d
    → port ≤ 65535
    → read_request (request d port ++ rest) ≡ some (d, port, rest)
unfolding read_request
read-request (ipv4 a) port rest h p =
    rw (append_assoc, split_at-append 4 a _ h) (port_lem (ipv4 a) port rest p)
read-request (ipv6 a) port rest h p =
    rw (append_assoc, split_at-append 16 a _ h) (port_lem (ipv6 a) port rest p)
read-request (domain a) port rest h p =
    let e : length a ≡ length a % 256 = omega arith in
    rw (append_assoc, split_at-append (length a % 256) a _ e) (port_lem (domain a) port rest p)
