-- ===== src/Stun/Response.antt =====
-- The answers to parseXORMappedAddress of stun.go.
use Prim.Native.Nat.{bit_xor}
use eliaukvpn.Base.{
  ℕ, zero, suc, ◌+◌, ◌^◌, ◌≤◌, ◌<◌, ◌≡◌, refl, ap, ap₂, ◌∙◌, true, false, none, some, [], ◌∷◌, ◌++◌,
  arith, length, take, drop, get_or, ltb, length-append, take_exact, drop_exact,
}
use eliaukvpn.Base.Str.{Bytes, str_eq_refl}
use eliaukvpn.Base.BigEndian.{be_put, be_get, be_get-be_put, be_get_two, be_from}
use eliaukvpn.Base.Xor.{bit_xor_twice, bit_xor-lt}
use eliaukvpn.Base.Result.{ok}
use eliaukvpn.Stun.{
  magic_cookie, again, mapped_round, attr_round, attr_loop, parse_xor_mapped_address,
}

-- A round that comes back to its own attributes never ends.
stuck_loop :
    (fuel : ℕ) (tx_id attrs : Bytes)
    → attr_round tx_id attrs ≡ again attrs
    → attr_loop fuel tx_id attrs ≡ none
unfolding attr_loop
stuck_loop zero tx_id attrs h = refl
stuck_loop (suc fuel) tx_id attrs h = rw (attr_loop, h) (stuck_loop fuel tx_id attrs h)

mapped_again :
    (tx_id attrs value : Bytes) (alen : ℕ)
    → ltb alen 8 ≡ false
    → ltb alen 20 ≡ true
    → get_or value 1 0 ≡ 2
    → mapped_round tx_id alen value attrs ≡ again attrs
unfolding mapped_round
mapped_again tx_id attrs value alen enough short family = rw (enough, family, short) refl

-- An IPv6 XOR-MAPPED-ADDRESS attribute of 8 to 19 bytes (here its length is k + 2) makes the loop
-- run for ever: no amount of fuel gives a result.
pub short_ipv6_never_ends :
    (fuel k first : ℕ) (tx_id rest : Bytes)
    → 6 ≤ k
    → k < 18
    → k ≤ length rest
    → attr_loop fuel tx_id (0 ∷ 32 ∷ 0 ∷ suc (suc k) ∷ first ∷ 2 ∷ rest) ≡ none
unfolding attr_round
short_ipv6_never_ends fuel k first tx_id rest enough short fits =
    stuck_loop fuel tx_id attrs (rw (attr_round, alen, long, whole, kind) stays)
  where
    attrs : Bytes
    attrs = 0 ∷ 32 ∷ 0 ∷ suc (suc k) ∷ first ∷ 2 ∷ rest

    long : ltb (length attrs) 4 ≡ false
    long = ground arith

    whole : ltb (length attrs) (4 + suc (suc k)) ≡ false
    whole = ground arith

    alen : be_get (0 ∷ suc (suc k) ∷ []) ≡ suc (suc k)
    alen = omega (arith, be_get_two 0 (suc (suc k)))

    kind : be_get (0 ∷ 32 ∷ []) ≡ 32
    kind = omega (arith, be_get_two 0 32)

    stays : mapped_round tx_id (suc (suc k)) (take (suc (suc k)) (drop 4 attrs)) attrs ≡ again attrs
    stays =
        mapped_again tx_id attrs (first ∷ 2 ∷ take k rest) (suc (suc k)) (ground arith)
          (ground arith) refl

-- The attribute that a server sends for an IPv4 address (a 32-bit number) and a port, and its
-- response to a transaction.
abbrev pub mapped_attribute : ℕ → ℕ → Bytes
mapped_attribute ip port =
    0 ∷ 32 ∷ 0 ∷ 8 ∷ 0 ∷ 1 ∷ (be_put 2 (bit_xor port 8466) ++ be_put 4 (bit_xor ip magic_cookie))

abbrev pub response : Bytes → ℕ → ℕ → Bytes
response tx_id ip port = 1 ∷ 1 ∷ 0 ∷ 12 ∷ 33 ∷ 18 ∷ 164 ∷ 66 ∷ (tx_id ++ mapped_attribute ip port)

-- The read of a mapped address from the two numbers in it.
loop_decodes :
    (fuel : ℕ) (tx_id : Bytes) (p i : ℕ)
    → attr_loop (suc fuel) tx_id (0 ∷ 32 ∷ 0 ∷ 8 ∷ 0 ∷ 1 ∷ (be_put 2 p ++ be_put 4 i))
      ≡ some (
          ok (record {
            ip = be_put 4 (bit_xor (be_get (be_put 4 i)) magic_cookie);
            port = bit_xor (be_get (be_put 2 p)) 8466;
          }))
unfolding attr_loop attr_round mapped_round be_put be_get be_from
loop_decodes fuel tx_id p i = refl

loop_reads :
    (fuel : ℕ) (tx_id : Bytes) (ip port : ℕ)
    → ip < 2 ^ 32
    → port < 2 ^ 16
    → attr_loop (suc fuel) tx_id (mapped_attribute ip port)
      ≡ some (ok (record { ip = be_put 4 ip; port = port }))
loop_reads fuel tx_id ip port small_ip small_port =
    loop_decodes fuel tx_id (bit_xor port 8466) (bit_xor ip magic_cookie)
    ∙ ap₂ (λ i p. some (ok (record { ip = be_put 4 i; port = p })))
        (ap (λ z. bit_xor z magic_cookie)
            (be_get-be_put 4 (bit_xor ip magic_cookie)
              (bit_xor-lt 32 ip magic_cookie small_ip (omega arith)))
          ∙ bit_xor_twice ip magic_cookie)
        (ap (λ z. bit_xor z 8466)
            (be_get-be_put 2 (bit_xor port 8466) (bit_xor-lt 16 port 8466 small_port (omega arith)))
          ∙ bit_xor_twice port 8466)

length-attribute : (ip port : ℕ) → length (mapped_attribute ip port) ≡ 12
unfolding be_put
length-attribute ip port = refl

take_all : (ip port : ℕ) → take 12 (mapped_attribute ip port) ≡ mapped_attribute ip port
unfolding be_put
take_all ip port = refl

-- In a response to our transaction whose only attribute is the XOR-MAPPED-ADDRESS of an IPv4
-- address and a port, the address and the port are read as they were sent. (The transaction id has
-- its 12 bytes, and the two numbers fit 32 and 16 bits.)
pub parse-response :
    (fuel : ℕ) (tx_id : Bytes) (ip port : ℕ)
    → length tx_id ≡ 12
    → ip < 2 ^ 32
    → port < 2 ^ 16
    → parse_xor_mapped_address (suc fuel) (response tx_id ip port) tx_id
      ≡ some (ok (record { ip = be_put 4 ip; port = port }))
unfolding parse_xor_mapped_address be_get be_from
parse-response fuel tx_id ip port twelve small_ip small_port =
    rw
      (
        long,
        take_exact 12 tx_id (mapped_attribute ip port) twelve,
        str_eq_refl tx_id,
        whole,
        drop_exact 12 tx_id (mapped_attribute ip port) twelve,
        take_all ip port,
      )
      (loop_reads fuel tx_id ip port small_ip small_port)
  where
    long : ltb (length (response tx_id ip port)) 20 ≡ false
    long = ground (arith, length-append tx_id (mapped_attribute ip port), length-attribute ip port)

    whole : ltb (length (response tx_id ip port)) 32 ≡ false
    whole = ground (arith, length-append tx_id (mapped_attribute ip port), length-attribute ip port)
