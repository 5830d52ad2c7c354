-- ===== src/Upstream/Socks5/Tests.antt =====
-- One request.
use kernel_su_tun2proxy.Prelude.{[], ◌∷◌, ◌++◌, some, ◌≡◌, arith}
use kernel_su_tun2proxy.Upstream.Socks5.{domain, request}
use kernel_su_tun2proxy.Upstream.Socks5.Request.{read_request, read-request}

read-request_example :
    read_request (request (domain (97 ∷ 46 ∷ 98 ∷ [])) 443 ++ (22 ∷ []))
    ≡ some (domain (97 ∷ 46 ∷ 98 ∷ []), 443, 22 ∷ [])
read-request_example =
    read-request (domain (97 ∷ 46 ∷ 98 ∷ [])) 443 (22 ∷ []) (omega arith, omega arith) (omega arith)
