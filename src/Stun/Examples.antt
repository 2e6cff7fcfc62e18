-- ===== src/Stun/Examples.antt =====
-- Two responses, and the theorems on stun.go applied to them.
use eliaukvpn.Base.{ℕ, ◌≡◌, refl, none, some, [], ◌∷◌, arith, replicate}
use eliaukvpn.Base.BigEndian.{be_put}
use eliaukvpn.Base.Result.{ok}
use eliaukvpn.Base.Net.{UdpAddr}
use eliaukvpn.Stun.Detect.{Response}
use eliaukvpn.Stun.{attr_loop, parse_xor_mapped_address}
use eliaukvpn.Stun.Response.{response, parse-response, short_ipv6_never_ends}

parse-response_example :
    parse_xor_mapped_address 1 (response (replicate 12 7) 3405803777 40000) (replicate 12 7)
    ≡ some (ok (record { ip = be_put 4 3405803777; port = 40000 }))
parse-response_example =
    parse-response 0 (replicate 12 7) 3405803777 40000 refl (omega arith) (omega arith)

short_ipv6_never_ends_example :
    attr_loop 1000 (replicate 12 7) (0 ∷ 32 ∷ 0 ∷ 8 ∷ 0 ∷ 2 ∷ replicate 6 0) ≡ none
short_ipv6_never_ends_example =
    short_ipv6_never_ends 1000 6 0 (replicate 12 7) (replicate 6 0) (omega arith) (omega arith)
      (omega arith)

abbrev server : UdpAddr
server = record { ip = 9 ∷ 9 ∷ 9 ∷ 9 ∷ []; port = 3478 }

abbrev seen_at : ℕ → Response
seen_at port = record { mapped = record { ip = 1 ∷ 2 ∷ 3 ∷ 4 ∷ []; port = port }; src = server }
