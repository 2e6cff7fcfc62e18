-- ===== src/P2p/Tunnel.antt =====
-- internal/p2p/tunnel.go: what the tunnel does with a frame that arrives.
pub mod Effects
pub mod Gate
pub mod Sessions
pub mod EndToEnd
pub mod Connecting
use eliaukvpn.Base.{
  ℕ, ◌&&◌, Bool, true, false, not, Option, none, some, List, [], ◌∷◌, ◌++◌, length, take, ◌==◌,
  if◌then◌else◌, is_empty,
}
use eliaukvpn.Base.Str.{Str, Bytes, str_eq}
use eliaukvpn.Base.Net.{UdpAddr, addr_eq}
use eliaukvpn.Base.GoMap.{GoMap, get, put}
use eliaukvpn.Base.Result.{Result, ok, err, ◌>>=◌}
use eliaukvpn.Crypto.{Aead, Session, unseal}
use eliaukvpn.Crypto.Handshake.{
  Kex, Handshake, HandshakeError, bad_static, marshal, unmarshal, new_public_key, new_session,
}
use eliaukvpn.P2p.Frame.{
  Frame, parse_frame, frame_hello, frame_hello_ack, frame_ping, frame_pong, frame_data,
}
use eliaukvpn.P2p.State.{PeerState, connected, is_connected, Peer, Tunnel, Effect, deliver}
use eliaukvpn.P2p.Send.{peer_aad, send_locked}

pub data TunnelError : Type 0 where
  no_ephemeral not_a_friend : TunnelError
  handshake_failed : HandshakeError → TunnelError

abbrev pub lift {ℓ} : {A : Type ℓ} → Result HandshakeError A → Result TunnelError A
lift (ok a) = ok a
lift (err e) = err (handshake_failed e)

-- m[k], the zero value where there is no entry
abbrev pub flag : Str → GoMap Bool → Bool
flag k m = elim (get k m) [ none ↦ false | some b ↦ b ]

-- A frame from the relay's address came through the relay, any other one directly.
unfoldable pub touch : UdpAddr → Option UdpAddr → Peer → Peer
touch addr none p = record p { relayed = false; remote = some addr }
touch addr (some ra) p =
    if addr_eq addr ra
    then record p { relayed = true }
    else record p { relayed = false; remote = some addr }

-- The buffer of Run
abbrev pub read_size : ℕ
read_size = 2048

module _ (k : Kex) (a : Aead) (base64 : Bytes → Str) where
  -- checkPeerStatic
  unfoldable pub check_peer_static : Bytes → Tunnel → Result TunnelError (Unit {0})
  check_peer_static stat t = do
    _ ← lift (new_public_key stat bad_static)
    if is_empty t.friends
        then ok tt
        else if flag (base64 stat) t.friends
        then ok tt
        else err not_a_friend

  -- initiatorHandshake; responderHandshake where there is no session yet
  unfoldable pub establish : Bytes → Bytes → Peer → Tunnel → Result TunnelError Peer
  establish identity payload p t = elim p.eph [
    | none ↦ err no_ephemeral
    | some eph ↦ do
      hs ← lift (unmarshal payload)
      _ ← check_peer_static hs.stat t
      s ← lift (new_session k identity eph hs.eph hs.stat)
      ok (record p { session = some s })
  ]

  -- responderHandshake
  unfoldable pub responder_handshake : Bytes → Bytes → Peer → Tunnel → Result TunnelError Peer
  responder_handshake identity payload p t = elim p.session [
    | some _ ↦ ok p
    | none ↦ establish identity payload p t
  ]

  -- The ack's payload
  abbrev pub ack_payload : Option Handshake → Bytes
  ack_payload none = []
  ack_payload (some h) = marshal h

  -- A hello that was not rejected: connected, the ack, then a ping.
  unfoldable pub answer_hello : ℕ → Bytes → Peer → Tunnel → List Effect × Peer
  answer_hello now ack p t =
      let (acked, p') = send_locked a frame_hello_ack (record p { state = connected }) ack t in
      let (pinged, p'') = send_locked a frame_ping (record p' { last_ping = now }) [] t in
      (acked ++ pinged, p'')

  unfoldable pub on_hello : ℕ → Frame → Peer → Tunnel → List Effect × Peer
  on_hello now f p t = elim t.identity [
    | none ↦ answer_hello now [] p t
    | some identity ↦ elim (responder_handshake identity f.payload p t) [
      | err e ↦ ([], p)
      | ok p' ↦ answer_hello now (ack_payload p'.handshake) p' t
    ]
  ]

  -- An ack that was not rejected.
  unfoldable pub finish_ack : ℕ → Peer → Tunnel → List Effect × Peer
  finish_ack now p t =
      if is_connected p.state
      then ([], p)
      else send_locked a frame_ping (record p { state = connected; last_ping = now }) [] t

  -- The acks of an encrypted connection with no session yet
  unfoldable pub first_ack : ℕ → Bytes → Frame → Peer → Tunnel → List Effect × Peer
  first_ack now identity f p t = elim (establish identity f.payload p t) [
    | err e ↦ ([], p)
    | ok p' ↦ finish_ack now p' t
  ]

  unfoldable pub on_hello_ack : ℕ → Frame → Peer → Tunnel → List Effect × Peer
  on_hello_ack now f p t = elim t.identity [
    | none ↦ finish_ack now p t
    | some identity ↦ elim p.session [
      | some _ ↦ finish_ack now p t
      | none ↦ first_ack now identity f p t
    ]
  ]

  -- dataSink, where one is installed
  unfoldable pub to_sink : Tunnel → Bytes → List Effect
  to_sink t pkt = if t.has_sink then deliver pkt ∷ [] else []

  -- The data of a peer with a session
  unfoldable pub open_data : Session → Frame → Peer → Tunnel → List Effect × Peer
  open_data s f p t =
      let (r, s') = unseal a (peer_aad f.sender f.target) f.payload s in
      (elim r [ err e ↦ [] | ok pkt ↦ to_sink t pkt ], record p { session = some s' })

  unfoldable pub on_data : Frame → Peer → Tunnel → List Effect × Peer
  on_data f p t = elim p.session [
    | none ↦ elim t.identity [ some _ ↦ ([], p) | none ↦ (to_sink t f.payload, p) ]
    | some s ↦ open_data s f p t
  ]

  -- The switch of handleFrame. A pong is only logged.
  unfoldable pub react : ℕ → Frame → Peer → Tunnel → List Effect × Peer
  react now f p t =
      if f.typ == frame_hello
      then on_hello now f p t
      else if f.typ == frame_hello_ack
      then on_hello_ack now f p t
      else if f.typ == frame_ping
      then send_locked a frame_pong p [] t
      else if f.typ == frame_data
      then on_data f p t
      else ([], p)

  -- handleFrame
  unfoldable pub handle_frame : ℕ → Frame → UdpAddr → Tunnel → List Effect × Tunnel
  handle_frame now f addr t = elim (get f.sender t.peers) [
    | none ↦ ([], t)
    | some p ↦
        let (es, p') = react now f (touch addr t.relay_addr p) t in
        (es, record t { peers = put f.sender p' t.peers })
  ]

  -- Run, for one datagram: what does not fit the buffer of the read is lost.
  unfoldable pub receive : ℕ → Bytes → UdpAddr → Tunnel → List Effect × Tunnel
  receive now datagram addr t = elim (parse_frame (take read_size datagram)) [
    | err e ↦ ([], t)
    | ok f ↦ if str_eq f.target t.my_id then handle_frame now f addr t else ([], t)
  ]
