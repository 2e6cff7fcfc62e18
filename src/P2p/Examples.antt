-- ===== src/P2p/Examples.antt =====
-- Two tunnels of tunnel.go, and the theorems applied to them.
use eliaukvpn.Base.{ℕ, ◌<◌, ◌≡◌, refl, inl, inr, true, false, some, [], ◌∷◌, arith, replicate}
use eliaukvpn.Base.Str.{Str, Bytes, AllBytes, text, str_eq, str_le}
use eliaukvpn.Base.Net.{UdpAddr}
use eliaukvpn.Base.GoMap.{get, put, delete}
use eliaukvpn.Base.Hex.{hex_encode, hex_decode}
use eliaukvpn.Base.BigEndian.{be_put, be_get}
use eliaukvpn.Base.Sort.{sort, insert}
use eliaukvpn.Base.Result.{ok, err}
use eliaukvpn.Crypto.{Session, fresh_session, unseal, seal, accept, admit, mask, slide}
use eliaukvpn.Crypto.Examples.{toy_aead}
use eliaukvpn.Crypto.Handshake.{
  Handshake, marshal, unmarshal, new_session, new_public_key, key_material, transcript,
}
use eliaukvpn.Crypto.Handshake.Examples.{toy_kex}
use eliaukvpn.P2p.Frame.{Frame, build_frame, parse_frame, id_bytes}
use eliaukvpn.P2p.Frame.RoundTrip.{IsId, parse_frame-build_frame}
use eliaukvpn.P2p.State.{
  Peer, Tunnel, send_to, deliver, connected, new_tunnel, begin_connect, new_peer,
}
use eliaukvpn.P2p.Send.{peer_aad, send_data, send_locked, encrypt}
use eliaukvpn.P2p.Tunnel.{
  handle_frame, receive, react, on_data, open_data, to_sink, touch, establish, check_peer_static,
  on_hello_ack, first_ack, finish_ack,
}
use eliaukvpn.P2p.Tunnel.Gate.{delivered_authentic}
use eliaukvpn.P2p.Tunnel.Sessions.{Establishes, session_born}
use eliaukvpn.P2p.Tunnel.EndToEnd.{data_round_trip}
use eliaukvpn.P2p.Tunnel.Connecting.{both_connect, Holds}
use eliaukvpn.P2p.Punch.{new_punch, hello_payload, send_hellos, with_peer, punch_run}
use eliaukvpn.P2p.Punch.Steps.{Ended}
use eliaukvpn.P2p.Punch.Fallen.{relay_hello, StillTrying, Failed}
use eliaukvpn.P2p.Punch.Outcome.{punch_ends}

abbrev id_a : Str
id_a = text "0101010101010101"

abbrev id_b : Str
id_b = text "0202020202020202"

eight_bytes : (b : ℕ) → b < 256 → AllBytes (replicate 8 b)
eight_bytes b h = (h, (h, (h, (h, (h, (h, (h, (h, tt))))))))

IsId-a : IsId id_a
unfolding hex_encode
IsId-a = (replicate 8 1, eight_bytes 1 (omega arith), refl, refl)

IsId-b : IsId id_b
unfolding hex_encode
IsId-b = (replicate 8 2, eight_bytes 2 (omega arith), refl, refl)

parse_frame-build_frame_example :
    (bytes : Bytes) × (build_frame 5 id_a id_b (1 ∷ 2 ∷ []) ≡ ok bytes)
    × (parse_frame bytes
        ≡ ok (record { typ = 5; sender = id_a; target = id_b; payload = 1 ∷ 2 ∷ [] }))
parse_frame-build_frame_example = parse_frame-build_frame 5 id_a id_b (1 ∷ 2 ∷ []) IsId-a IsId-b

abbrev addr_a : UdpAddr
addr_a = record { ip = 1 ∷ 2 ∷ 3 ∷ 4 ∷ []; port = 1000 }

abbrev relay : UdpAddr
relay = record { ip = 9 ∷ 9 ∷ 9 ∷ 9 ∷ []; port = 51820 }

abbrev base64 : Bytes → Str
base64 x = x

-- A tunnel with an identity that began to connect to a peer.
abbrev begun : Str → Str → Bytes → Bytes → Tunnel
begun mine theirs identity eph =
    begin_connect toy_kex theirs (text "peer") (addr_a ∷ []) (some eph) (record (new_tunnel mine) {
      identity = some identity;
      relay_addr = some relay;
      has_sink = true;
    })

abbrev tunnel_a : Tunnel
tunnel_a = begun id_a id_b (3 ∷ []) (4 ∷ [])

abbrev tunnel_b : Tunnel
tunnel_b = begun id_b id_a (5 ∷ []) (6 ∷ [])

abbrev peer_of_a : Peer
peer_of_a =
    new_peer toy_kex id_b (text "peer") (addr_a ∷ []) (some (4 ∷ []))
      (record (new_tunnel id_a) { identity = some (3 ∷ []) })

abbrev peer_of_b : Peer
peer_of_b =
    new_peer toy_kex id_a (text "peer") (addr_a ∷ []) (some (6 ∷ []))
      (record (new_tunnel id_b) { identity = some (5 ∷ []) })

abbrev the_session : Session
the_session =
    elim (new_session toy_kex (3 ∷ []) (4 ∷ []) (toy_kex.public_of (6 ∷ []))
      (toy_kex.public_of (5 ∷ []))) [ ok s ↦ s | err e ↦ fresh_session [] ]

abbrev message_of_b : Handshake
message_of_b = record { eph = toy_kex.public_of (6 ∷ []); stat = toy_kex.public_of (5 ∷ []) }

abbrev ack_b : Frame
ack_b = record { typ = 2; sender = id_b; target = id_a; payload = marshal message_of_b }

abbrev message_of_a : Handshake
message_of_a = record { eph = toy_kex.public_of (4 ∷ []); stat = toy_kex.public_of (3 ∷ []) }

abbrev hello_a : Frame
hello_a = record { typ = 1; sender = id_a; target = id_b; payload = marshal message_of_a }

both_connect_example :
    Holds toy_kex toy_aead base64 id_b the_session
      (handle_frame toy_kex toy_aead base64 50 ack_b addr_a tunnel_a).1
    × Holds toy_kex toy_aead base64 id_a the_session
        (handle_frame toy_kex toy_aead base64 50 hello_a addr_a tunnel_b).1
unfolding begin_connect new_tunnel new_peer get put delete str_eq new_session new_public_key sort
    insert str_le key_material transcript fresh_session
both_connect_example =
    both_connect toy_kex toy_aead base64 50 1 2 addr_a addr_a tunnel_a tunnel_b peer_of_a peer_of_b
      (3 ∷ []) (4 ∷ []) (5 ∷ []) (6 ∷ []) the_session (inl refl) (inr refl) refl refl refl refl refl
      refl refl refl (inl refl) (inl refl) refl

abbrev fallen_a : Peer
fallen_a = record peer_of_a { relayed = true }

punch_ends_example :
    (punch_run (0 ∷ 6100 ∷ []) (some (new_punch 0 id_b)) tunnel_a ≡ (
      send_hellos id_b (hello_payload peer_of_a.handshake) tunnel_a (addr_a ∷ []),
      some (new_punch 0 id_b),
      with_peer id_b fallen_a tunnel_a,
    ))
    × ((punch_run (6200 ∷ []) (some (new_punch 0 id_b)) (with_peer id_b fallen_a tunnel_a)).0
        ≡ relay_hello (some relay) peer_of_a (with_peer id_b fallen_a tunnel_a))
    × StillTrying
        (some relay)
        id_b
        peer_of_a
        (punch_run (0 ∷ 6100 ∷ 6200 ∷ 6300 ∷ []) (some (new_punch 0 id_b)) tunnel_a)
    × Ended id_b
        (punch_run (0 ∷ 6100 ∷ 6200 ∷ 6300 ∷ 12300 ∷ 12400 ∷ []) (some (new_punch 0 id_b)) tunnel_a)
    × Failed id_b true
        (punch_run
          (0 ∷ 6100 ∷ 6200 ∷ 6300 ∷ 12300 ∷ 12400 ∷ [])
          (some (new_punch 0 id_b))
          tunnel_a).2
unfolding begin_connect new_tunnel new_peer get put delete str_eq
punch_ends_example =
    punch_ends (new_punch 0 id_b) tunnel_a peer_of_a 0 6100 6200 (6300 ∷ []) (6300 ∷ []) 12300 12400
      refl refl refl refl refl (omega arith) (omega arith, tt) (omega arith) (omega arith)

session_born_example :
    (identity : Bytes) × (tunnel_a.identity ≡ some identity)
    × Establishes toy_kex toy_aead base64 tunnel_a identity peer_of_a.eph ack_b.payload the_session
unfolding begin_connect new_tunnel new_peer get put delete str_eq new_session new_public_key sort
    insert str_le key_material transcript fresh_session handle_frame react on_hello_ack first_ack
    establish check_peer_static unmarshal marshal finish_ack send_locked encrypt touch build_frame
    id_bytes hex_decode
session_born_example =
    session_born toy_kex toy_aead base64 50 ack_b addr_a tunnel_a peer_of_a
      (record peer_of_a {
        remote = some addr_a;
        relayed = false;
        state = connected;
        last_ping = 50;
        session = some the_session;
      })
      the_session refl refl refl refl

-- The two tunnels once they are connected.
abbrev joined_a : Tunnel
joined_a = record tunnel_a {
  peers =
      (
        id_b,
        record peer_of_a {
          remote = some addr_a;
          state = connected;
          session = some (fresh_session (7 ∷ []));
        },
      )
      ∷ [];
}

abbrev joined_b : Tunnel
joined_b = record tunnel_b {
  peers =
      (
        id_a,
        record peer_of_b {
          remote = some addr_a;
          state = connected;
          session = some (fresh_session (7 ∷ []));
        },
      )
      ∷ [];
}

data_round_trip_example :
    (bytes : Bytes) × ((send_data toy_aead id_b (42 ∷ []) joined_a).0
      ≡ ok (send_to addr_a bytes ∷ []))
    × ((receive toy_kex toy_aead base64 60 bytes addr_a joined_b).0 ≡ deliver (42 ∷ []) ∷ [])
unfolding begin_connect new_tunnel new_peer get put delete str_eq fresh_session
data_round_trip_example =
    data_round_trip toy_kex toy_aead base64 60 (42 ∷ []) joined_a joined_b
      (record peer_of_a {
        remote = some addr_a;
        state = connected;
        session = some (fresh_session (7 ∷ []));
      })
      (record peer_of_b {
        remote = some addr_a;
        state = connected;
        session = some (fresh_session (7 ∷ []));
      })
      (fresh_session (7 ∷ [])) (fresh_session (7 ∷ [])) addr_a addr_a IsId-a IsId-b refl refl refl
      refl refl refl refl refl refl (omega arith) refl (omega arith) (inr (refl, refl, refl))

-- The first data frame of that session.
abbrev data_frame : Frame
data_frame = record {
  typ = 5;
  sender = id_a;
  target = id_b;
  payload = (seal toy_aead (peer_aad id_a id_b) (42 ∷ []) (fresh_session (7 ∷ []))).0;
}

delivered_authentic_example :
    (p : Peer) × (s : Session) × (get id_a joined_b.peers ≡ some p)
    × (p.session ≡ some s)
    × (data_frame.typ ≡ 5)
    × ((unseal toy_aead (peer_aad id_a id_b) data_frame.payload s).0 ≡ ok (42 ∷ []))
unfolding begin_connect new_tunnel new_peer get put delete str_eq fresh_session handle_frame react
    on_data open_data to_sink touch unseal seal admit accept mask slide be_put be_get peer_aad
    str_le
delivered_authentic_example =
    delivered_authentic toy_kex toy_aead base64 60 data_frame addr_a joined_b (5 ∷ []) (42 ∷ [])
      refl (inl refl)
