-- ===== src/Stun.antt =====
-- internal/stun/stun.go: the binding request and the response's mapped address. The loop over the
-- attributes has fuel; `none` says that it ran out.
pub mod Response
pub mod Detect
mod Examples
use Prim.Native.Nat.{bit_xor, bit_or}
use eliaukvpn.Base.{
  ℕ, zero, suc, ◌+◌, ◌/◌, ◌^◌, Bool, true, false, not, ◌||◌, Option, none, some, List, [], ◌∷◌,
  ◌++◌, length, take, drop, get_or, replicate, ltb, ◌==◌, if◌then◌else◌,
}
use eliaukvpn.Base.Str.{Bytes, str_eq}
use eliaukvpn.Base.BigEndian.{be_put, be_get}
use eliaukvpn.Base.Result.{Result, ok, err}

abbrev pub magic_cookie : ℕ
magic_cookie = 554869826

abbrev pub attr_change_request : ℕ
attr_change_request = 3

abbrev pub attr_xor_mapped_address : ℕ
attr_xor_mapped_address = 32

pub record MappedAddress : Type 0 where
  pub ip : Bytes
  pub port : ℕ

pub data StunError : Type 0 where
  too_short binding_error bad_cookie other_transaction truncated short_mapped no_mapped : StunError

-- buildBindingRequest
unfoldable pub build_binding_request : Bytes → Bool → Bool → Bytes
build_binding_request tx_id change_ip change_port =
    let flags = bit_or (if change_ip then 4 else 0) (if change_port then 2 else 0) in
    let body =
      if change_ip || change_port
      then be_put 2 attr_change_request ++ be_put 2 4 ++ be_put 4 flags
      else [] in
    be_put 2 1 ++ be_put 2 (length body) ++ be_put 4 magic_cookie ++ tx_id ++ body

-- What one round of the attribute loop comes to.
pub data Round : Type 0 where
  done : Result StunError MappedAddress → Round
  again : Bytes → Round

-- ip[i] = value[4+i] ^ xor[i]
unfoldable pub xor_bytes : Bytes → Bytes → Bytes
xor_bytes [] ys = []
xor_bytes (x ∷ xs) [] = x ∷ xs
xor_bytes (x ∷ xs) (y ∷ ys) = bit_xor x y ∷ xor_bytes xs ys

abbrev pub mapped_port : Bytes → ℕ
mapped_port value = bit_xor (be_get (take 2 (drop 2 value))) 8466

-- An XOR-MAPPED-ADDRESS attribute. A short IPv6 one goes on without leaving the attribute behind.
unfoldable pub mapped_round : Bytes → ℕ → Bytes → Bytes → Round
mapped_round tx_id alen value attrs =
    if ltb alen 8
    then done (err short_mapped)
    else if get_or value 1 0 == 1
    then done (
        ok (record {
          ip = be_put 4 (bit_xor (be_get (take 4 (drop 4 value))) magic_cookie);
          port = mapped_port value;
        }))
    else if get_or value 1 0 == 2
    then (if ltb alen 20
        then again attrs
        else done (
            ok (record {
              ip = xor_bytes (take 16 (drop 4 value)) (replicate 4 0 ++ tx_id);
              port = mapped_port value;
            })))
    else again (drop (4 + alen) attrs)

-- One round
unfoldable pub attr_round : Bytes → Bytes → Round
unfolding mapped_round
attr_round tx_id attrs =
    let alen = be_get (take 2 (drop 2 attrs)) in
    if ltb (length attrs) 4
    then done (err no_mapped)
    else if ltb (length attrs) (4 + alen)
    then done (err no_mapped)
    else if be_get (take 2 attrs) == attr_xor_mapped_address
    then mapped_round tx_id alen (take alen (drop 4 attrs)) attrs
    else again (drop (4 + alen) attrs)

unfoldable pub attr_loop : ℕ → Bytes → Bytes → Option (Result StunError MappedAddress)
attr_loop zero tx_id attrs = none
attr_loop (suc fuel) tx_id attrs = elim (attr_round tx_id attrs) [
  | done r ↦ some r
  | again rest ↦ attr_loop fuel tx_id rest
]

-- parseXORMappedAddress
unfoldable pub parse_xor_mapped_address :
    ℕ → Bytes → Bytes → Option (Result StunError MappedAddress)
parse_xor_mapped_address fuel bytes tx_id =
    let len = be_get (take 2 (drop 2 bytes)) in
    if ltb (length bytes) 20
    then some (err too_short)
    else if be_get (take 2 bytes) == 273
    then some (err binding_error)
    else if not (be_get (take 4 (drop 4 bytes)) == magic_cookie)
    then some (err bad_cookie)
    else if not (str_eq (take 12 (drop 8 bytes)) tx_id)
    then some (err other_transaction)
    else if ltb (length bytes) (20 + len)
    then some (err truncated)
    else attr_loop fuel tx_id (take len (drop 20 bytes))
