-- ===== src/P2p/Send.antt =====
-- internal/p2p/tunnel.go: how frames leave the tunnel, directly or through the relay.
use eliaukvpn.Base.{ℕ, Option, none, some, List, [], ◌∷◌, ◌++◌, ◌==◌, if◌then◌else◌}
use eliaukvpn.Base.Str.{Str, Bytes, text, str_le}
use eliaukvpn.Base.Net.{UdpAddr}
use eliaukvpn.Base.GoMap.{GoMap, get, put}
use eliaukvpn.Base.Result.{Result, ok, err}
use eliaukvpn.Crypto.{Aead, seal}
use eliaukvpn.P2p.Frame.{frame_data, zero_id, build_frame, build_relay, FrameError}
use eliaukvpn.P2p.State.{is_connected, Peer, Tunnel, Effect, send_to}

-- peerAAD: the two ids in order.
unfoldable pub peer_aad : Str → Str → Bytes
peer_aad a b =
    if str_le a b then text "ELK1|" ++ a ++ text "|" ++ b else text "ELK1|" ++ b ++ text "|" ++ a

-- A write of the bytes that were built, if they were.
abbrev pub write_to : UdpAddr → Result FrameError Bytes → List Effect
write_to addr (ok bytes) = send_to addr bytes ∷ []
write_to addr (err e) = []

-- sendLocked, once the frame is built
unfoldable pub route : Str → Option UdpAddr → Peer → Bytes → List Effect
route my_id relay_addr p bytes =
    if p.relayed
    then (elim relay_addr [ none ↦ [] | some ra ↦ write_to ra (build_relay my_id p.id bytes) ])
    else (elim p.remote [ none ↦ [] | some addr ↦ send_to addr bytes ∷ [] ])

-- The payload of a frame, and the peer after it was sealed: only data is encrypted.
unfoldable pub encrypt : Aead → Str → ℕ → Peer → Bytes → Bytes × Peer
encrypt a my_id typ p payload =
    if typ == frame_data
    then (elim p.session [
      | none ↦ (payload, p)
      | some s ↦
          let (sealed, s') = seal a (peer_aad my_id p.id) payload s in
          (sealed, record p { session = some s' })
    ])
    else (payload, p)

-- sendLocked and sendFrameLocked
unfoldable pub send_locked : Aead → ℕ → Peer → Bytes → Tunnel → List Effect × Peer
send_locked a typ p payload t =
    let (body, p') = encrypt a t.my_id typ p payload in
    elim (build_frame typ t.my_id p.id body) [
      | err e ↦ ([], p')
      | ok bytes ↦ (route t.my_id t.relay_addr p' bytes, p')
    ]

-- sendFrame
unfoldable pub send_frame : ℕ → Str → UdpAddr → Bytes → Tunnel → List Effect
send_frame typ peer_id addr payload t = write_to addr (build_frame typ t.my_id peer_id payload)

-- sendRelayFrame
unfoldable pub send_relay_frame : ℕ → Str → Bytes → Tunnel → List Effect
send_relay_frame typ peer_id payload t = elim (build_frame typ t.my_id peer_id payload) [
  | err e ↦ []
  | ok bytes ↦ elim t.relay_addr [
    | none ↦ []
    | some ra ↦ write_to ra (build_relay t.my_id peer_id bytes)
  ]
]

-- Announce
unfoldable pub announce : Tunnel → List Effect
announce t = elim t.relay_addr [
  | none ↦ []
  | some ra ↦ write_to ra (build_relay t.my_id zero_id [])
]

pub data SendError : Type 0 where
  unknown_peer not_connected : Str → SendError

-- SendData
unfoldable pub send_data : Aead → Str → Bytes → Tunnel → Result SendError (List Effect) × Tunnel
send_data a peer_id payload t = elim (get peer_id t.peers) [
  | none ↦ (err (unknown_peer peer_id), t)
  | some p ↦
      let (es, p') = send_locked a frame_data p payload t in
      if is_connected p.state
      then (ok es, record t { peers = put peer_id p' t.peers })
      else (err (not_connected peer_id), t)
]

-- The loop of SendDataBroadcast: what is sent, and the peers after it.
unfoldable pub broadcast_from : Aead → Bytes → Tunnel → GoMap Peer → List Effect × GoMap Peer
broadcast_from a payload t [] = ([], [])
broadcast_from a payload t ((id, p) ∷ peers) =
    let (later, peers') = broadcast_from a payload t peers in
    let (es, p') = send_locked a frame_data p payload t in
    if is_connected p.state then (es ++ later, (id, p') ∷ peers') else (later, (id, p) ∷ peers')

-- SendDataBroadcast
unfoldable pub send_data_broadcast : Aead → Bytes → Tunnel → List Effect × Tunnel
send_data_broadcast a payload t =
    let (es, peers) = broadcast_from a payload t t.peers in (es, record t { peers = peers })
