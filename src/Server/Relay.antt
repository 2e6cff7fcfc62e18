-- ===== src/Server/Relay.antt =====
-- internal/server/relay.go: the relay's handling of one packet. Addr, Close, NewRelay and the
-- read loop are the socket's.
pub mod Delivery
mod Examples
use eliaukvpn.Base.{
  ◌≡◌, Bool, true, false, not, ◌||◌, Option, none, some, [], ltb, length, take, drop, if◌then◌else◌,
  ℕ,
}
use eliaukvpn.Base.Str.{Str, Bytes, text, str_eq}
use eliaukvpn.Base.Net.{UdpAddr}
use eliaukvpn.Base.Hex.{hex_encode}
use eliaukvpn.Base.Result.{Result, ok, err}
use eliaukvpn.Server.State.{Registry}
use eliaukvpn.Server.Registry.{set_relay_addr, relay_addr_of}

abbrev pub relay_magic : Str
relay_magic = text "ELKR"

abbrev pub relay_hdr_size : ℕ
relay_hdr_size = 20

abbrev pub zero_id : Str
zero_id = text "0000000000000000"

pub data RelayError : Type 0 where
  bad_relay_packet : RelayError
  not_learned : Str → RelayError

-- The rest of `handle` after the header is read.
unfoldable pub forward :
    Str → Str → Bytes → UdpAddr → Registry → Result RelayError (Option (Bytes × UdpAddr)) × Registry
forward sender target payload src r =
    let r' = set_relay_addr sender src r in
    if str_eq target zero_id then (ok none, r') else elim (relay_addr_of target r') [
      | none ↦ (err (not_learned target), r')
      | some dst ↦ (ok (some (payload, dst)), r')
    ]

-- (r *Relay) handle: the payload it writes and where to, `none` for an announce.
unfoldable pub handle :
    Bytes → UdpAddr → Registry → Result RelayError (Option (Bytes × UdpAddr)) × Registry
handle pkt src r =
    if ltb (length pkt) relay_hdr_size || not (str_eq (take 4 pkt) relay_magic)
    then (err bad_relay_packet, r)
    else forward (hex_encode (take 8 (drop 4 pkt))) (hex_encode (take 8 (drop 12 pkt)))
        (drop relay_hdr_size pkt) src r
