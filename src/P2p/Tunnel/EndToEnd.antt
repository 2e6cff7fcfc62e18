-- ===== src/P2p/Tunnel/EndToEnd.antt =====
-- A packet from one tunnel of tunnel.go to another.
use eliaukvpn.Base.{
  ◌≤◌, arith, length, length-append, take, take_short, ℕ, ◌+◌, ◌<◌, ◌^◌, ◌≡◌, refl, sym, ap, subst,
  ◌∙◌, true, false, Option, some, [], ◌∷◌,
}
use eliaukvpn.Base.Str.{Str, Bytes, str_eq_refl}
use eliaukvpn.Base.Net.{UdpAddr}
use eliaukvpn.Base.BigEndian.{be_put, length-be_put}
use eliaukvpn.Base.GoMap.{get}
use eliaukvpn.Base.Result.{ok}
use eliaukvpn.Crypto.{Aead, Session, nonce_of, unseal, seal}
use eliaukvpn.Crypto.Handshake.{Kex}
use eliaukvpn.Crypto.Stream.{Follows, unseal-seal}
use eliaukvpn.P2p.Frame.{Frame, build_frame}
use eliaukvpn.P2p.Frame.RoundTrip.{length-build_frame, IsId, parse_frame-build_frame}
use eliaukvpn.P2p.State.{Peer, Tunnel, send_to, deliver, connected, is_connected}
use eliaukvpn.P2p.Send.{peer_aad, send_locked, send_data, encrypt, route}
use eliaukvpn.P2p.Tunnel.{
  to_sink, open_data, on_data, react, touch, handle_frame, read_size, receive,
}
use eliaukvpn.P2p.Tunnel.Gate.{touch-session}

length-seal_session :
    (a : Aead) (aad payload : Bytes) (s : Session)
    → length (seal a aad payload s).0 ≡ 24 + length payload
unfolding seal
length-seal_session a aad payload s = omega (
  arith,
  length-append (be_put 8 s.send) (a.aead_seal s.key (nonce_of s.send) payload aad),
  length-be_put 8 s.send,
  a.length-seal s.key (nonce_of s.send) payload aad,
)

encrypt_data :
    (a : Aead) (my_id : Str) (p : Peer) (payload : Bytes) (s : Session)
    → p.session ≡ some s
    → encrypt a my_id 5 p payload ≡ (
      (seal a (peer_aad my_id p.id) payload s).0,
      record p { session = some (seal a (peer_aad my_id p.id) payload s).1 },
    )
unfolding encrypt
encrypt_data a my_id p payload s session = rw (session, encrypt) refl

send_locked-route :
    (a : Aead) (typ : ℕ) (payload bytes : Bytes) (t : Tunnel) (p : Peer)
    → build_frame typ t.my_id p.id (encrypt a t.my_id typ p payload).0 ≡ ok bytes
    → (send_locked a typ p payload t).0
      ≡ route t.my_id t.relay_addr (encrypt a t.my_id typ p payload).1 bytes
unfolding send_locked
send_locked-route a typ payload bytes t p built = rw (send_locked, built) refl

route_direct :
    (my_id : Str) (ra : Option UdpAddr) (p : Peer) (bytes : Bytes) (addr : UdpAddr)
    → p.relayed ≡ false
    → p.remote ≡ some addr
    → route my_id ra p bytes ≡ send_to addr bytes ∷ []
unfolding route
route_direct my_id ra p bytes addr direct at = rw (direct, route, at) refl

send_locked-direct :
    (a : Aead) (payload bytes : Bytes) (t : Tunnel) (p : Peer) (s : Session) (addr : UdpAddr)
    → p.relayed ≡ false
    → p.remote ≡ some addr
    → p.session ≡ some s
    → build_frame 5 t.my_id p.id (seal a (peer_aad t.my_id p.id) payload s).0 ≡ ok bytes
    → (send_locked a 5 p payload t).0 ≡ send_to addr bytes ∷ []
send_locked-direct a payload bytes t p s addr direct at session built =
    let e = encrypt_data a t.my_id p payload s session in
    send_locked-route a 5 payload bytes t p (ap (λ z. build_frame 5 t.my_id p.id z.0) e ∙ built)
    ∙ route_direct t.my_id t.relay_addr (encrypt a t.my_id 5 p payload).1 bytes addr
        (ap (λ z. z.1.relayed) e ∙ direct) (ap (λ z. z.1.remote) e ∙ at)

-- SendData on a direct connection with a session.
send_data-direct :
    (a : Aead) (id : Str) (payload bytes : Bytes) (t : Tunnel) (p : Peer) (s : Session)
    (addr : UdpAddr)
    → get id t.peers ≡ some p
    → p.id ≡ id
    → is_connected p.state ≡ true
    → p.relayed ≡ false
    → p.remote ≡ some addr
    → p.session ≡ some s
    → build_frame 5 t.my_id id (seal a (peer_aad t.my_id id) payload s).0 ≡ ok bytes
    → (send_data a id payload t).0 ≡ ok (send_to addr bytes ∷ [])
unfolding send_data
send_data-direct a id payload bytes t p s addr known same state direct at session built =
    rw (known, send_data, state)
      (ap ok (
        send_locked-direct a payload bytes t p s addr direct at session (
          subst (λ i. build_frame 5 t.my_id i (seal a (peer_aad t.my_id i) payload s).0 ≡ ok bytes)
            (sym same) built)))

module _ (k : Kex) (a : Aead) (base64 : Bytes → Str) where
  on_data-opened :
      (payload : Bytes) (f : Frame) (t : Tunnel) (q : Peer) (s : Session)
      → q.session ≡ some s
      → t.has_sink ≡ true
      → (unseal a (peer_aad f.sender f.target) f.payload s).0 ≡ ok payload
      → (on_data k a base64 f q t).0 ≡ deliver payload ∷ []
  unfolding on_data open_data to_sink
  on_data-opened payload f t q s session sink opened =
      rw (session, on_data, open_data, opened, to_sink, sink) refl

  handle_data :
      (now : ℕ) (payload : Bytes) (f : Frame) (src : UdpAddr) (t : Tunnel) (q : Peer) (s : Session)
      → f.typ ≡ 5
      → get f.sender t.peers ≡ some q
      → q.session ≡ some s
      → t.has_sink ≡ true
      → (unseal a (peer_aad f.sender f.target) f.payload s).0 ≡ ok payload
      → (handle_frame k a base64 now f src t).0 ≡ deliver payload ∷ []
  unfolding handle_frame react on_data open_data
  handle_data now payload f src t q s typ known session sink opened =
      rw (known, handle_frame, react, typ)
        (on_data-opened payload f t (touch src t.relay_addr q) s
          ((touch-session src t.relay_addr q).0 ∙ session) sink opened)

  -- What SendData sends over a direct connection reaches the other end's sink as it was, when it has
  -- at most 2003 bytes, so that its frame fits the buffer of Run, the receiver has a sink, the two
  -- ends hold the same key, the receiver has seen only earlier counters, and the counter stays 64
  -- below 2 ^ 64.
  pub data_round_trip :
      (now : ℕ) (payload : Bytes) (ta tb : Tunnel) (p q : Peer) (sa sb : Session)
      (addr src : UdpAddr)
      → IsId ta.my_id
      → IsId tb.my_id
      → get tb.my_id ta.peers ≡ some p
      → p.id ≡ tb.my_id
      → p.state ≡ connected
      → p.relayed ≡ false
      → p.remote ≡ some addr
      → p.session ≡ some sa
      → get ta.my_id tb.peers ≡ some q
      → q.session ≡ some sb
      → tb.has_sink ≡ true
      → length payload ≤ 2003
      → sa.key ≡ sb.key
      → sa.send + 64 < 2 ^ 64
      → Follows sa sb
      → (bytes : Bytes) × ((send_data a tb.my_id payload ta).0 ≡ ok (send_to addr bytes ∷ []))
        × ((receive k a base64 now bytes src tb).0 ≡ deliver payload ∷ [])
  unfolding receive
  data_round_trip now payload ta tb p q sa sb addr src ia ib knows same state direct at sending
        known receiving sink fits key small follows =
      let aad : Bytes = peer_aad ta.my_id tb.my_id in
      let sealed : Bytes = (seal a aad payload sa).0 in
      let (bytes, built, parsed) = parse_frame-build_frame 5 ta.my_id tb.my_id sealed ia ib in
      let f : Frame = record { typ = 5; sender = ta.my_id; target = tb.my_id; payload = sealed } in
      let whole : take read_size bytes ≡ bytes = take_short read_size bytes (
        omega (
          arith,
          fits,
          length-build_frame 5 ta.my_id tb.my_id sealed bytes ia ib built,
          length-seal_session a aad payload sa,
        )) in
      (
        bytes,
        send_data-direct a tb.my_id payload bytes ta p sa addr knows same (ap is_connected state)
            direct at sending built,
        rw (receive, whole, parsed, str_eq_refl tb.my_id)
            (handle_data now payload f src tb q sb refl known receiving sink
              (unseal-seal a aad payload sa sb key small follows)),
      )
