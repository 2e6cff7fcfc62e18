-- ===== src/Server/Relay/Delivery.antt =====
-- The relay of relay.go together with the envelopes of tunnel.go.
use eliaukvpn.Base.{◌≡◌, refl, false, ◌++◌, length, ltb, arith}
use eliaukvpn.Base.Str.{Str, Bytes, str_eq}
use eliaukvpn.Base.Net.{UdpAddr}
use eliaukvpn.Base.Hex.{hex_encode}
use eliaukvpn.P2p.Frame.RoundTrip.{take_first, take_second, drop_both, length-fields}
use eliaukvpn.Server.State.{Registry}
use eliaukvpn.Server.Relay.{handle, forward, relay_magic}

-- What the relay does with an envelope between two ids.
pub handle_envelope :
    (me peer : Str) (x y frame : Bytes) (src : UdpAddr) (r : Registry)
    → length x ≡ 8
    → length y ≡ 8
    → me ≡ hex_encode x
    → peer ≡ hex_encode y
    → handle (relay_magic ++ x ++ y ++ frame) src r ≡ forward me peer frame src r
unfolding handle str_eq
handle_envelope me peer x y frame src r ex ey sx sy =
    rw
      (
        sx,
        sy,
        long,
        take_first x y frame ex ey,
        take_second x y frame ex ey,
        drop_both x y frame ex ey,
      )
      refl
  where
    long : ltb (length (relay_magic ++ x ++ y ++ frame)) 20 ≡ false
    long = ground (arith, length-fields x y frame ex ey)
