-- ===== src/P2p/Tunnel/Connecting.antt =====
-- Two tunnels of tunnel.go that connect to each other.
use eliaukvpn.Base.{
  is_empty, ℕ, ◌≡◌, refl, ap, ◌∙◌, ◌⊎◌, inl, inr, true, false, none, some, [], arith, ◌==◌,
  Bool-cases,
}
use eliaukvpn.Base.Str.{Str, Bytes}
use eliaukvpn.Base.Net.{UdpAddr}
use eliaukvpn.Base.GoMap.{get, get-put_self}
use eliaukvpn.Base.Result.{ok}
use eliaukvpn.Crypto.{Aead, Session}
use eliaukvpn.Crypto.Handshake.{Kex, Handshake, marshal, new_session, new_public_key}
use eliaukvpn.Crypto.Handshake.Agreement.{unmarshal-marshal, new_session_agrees}
use eliaukvpn.P2p.Frame.{Frame, frame_hello, frame_hello_ack}
use eliaukvpn.P2p.State.{PeerState, idle, connecting, connected, failed, Peer, Tunnel, is_connected}
use eliaukvpn.P2p.Tunnel.{
  check_peer_static, establish, responder_handshake, answer_hello, on_hello, finish_ack, first_ack,
  on_hello_ack, react, touch, handle_frame, flag,
}
use eliaukvpn.P2p.Tunnel.Effects.{send_locked-peer}
use eliaukvpn.P2p.Tunnel.Gate.{touch-session}

role :
    (typ : ℕ)
    → (typ ≡ frame_hello) ⊎ (typ ≡ frame_hello_ack)
    → ((typ == 1) ≡ true) ⊎ (((typ == 1) ≡ false) × ((typ == 2) ≡ true))
role typ (inl e) = inl (ground arith)
role typ (inr e) = inr (ground arith, ground arith)

module _ (k : Kex) (a : Aead) (base64 : Bytes → Str) where
  -- The public message of a connection key and an identity.
  abbrev pub message : Bytes → Bytes → Handshake
  message eph identity = record { eph = k.public_of eph; stat = k.public_of identity }

  -- A key that the friends list lets in.
  abbrev pub Admits : Tunnel → Bytes → Type 0
  Admits t stat = (is_empty t.friends ≡ true) ⊎ (flag (base64 stat) t.friends ≡ true)

  check_ok :
      (t : Tunnel) (identity : Bytes)
      → Admits t (k.public_of identity)
      → check_peer_static k a base64 (k.public_of identity) t ≡ ok tt
  unfolding check_peer_static new_public_key
  check_ok t identity admits = ground (arith, k.length-public_of identity)

  establish_ok :
      (identity eph their_eph their_identity : Bytes) (p : Peer) (t : Tunnel) (s : Session)
      → p.eph ≡ some eph
      → Admits t (k.public_of their_identity)
      → new_session k identity eph (k.public_of their_eph) (k.public_of their_identity) ≡ ok s
      → establish k a base64 identity (marshal (message their_eph their_identity)) p t
        ≡ ok (record p { session = some s })
  unfolding establish
  establish_ok identity eph their_eph their_identity p t s own admits made =
      rw
        (
          own,
          establish,
          unmarshal-marshal (message their_eph their_identity) (k.length-public_of their_eph)
              (k.length-public_of their_identity),
          check_ok t their_identity admits,
          made,
        )
        (ap (λ e. ok (record p { eph = e; session = some s })) own)

  -- Connected, with that session.
  abbrev pub Holds : Str → Session → Tunnel → Type 0
  Holds id s t =
      (q : Peer) × (get id t.peers ≡ some q) × (q.state ≡ connected) × (q.session ≡ some s)

  answer_hello-peer :
      (now : ℕ) (ack : Bytes) (p : Peer) (t : Tunnel)
      → (answer_hello k a base64 now ack p t).1 ≡ record p { state = connected; last_ping = now }
  unfolding answer_hello
  answer_hello-peer now ack p t =
      rw (send_locked-peer a 3 _ [] t refl, send_locked-peer a 2 _ ack t refl) refl

  is_connected-connected : (st : PeerState) → is_connected st ≡ true → st ≡ connected
  is_connected-connected idle h = cc
  is_connected-connected connecting h = cc
  is_connected-connected connected h = refl
  is_connected-connected failed h = cc

  finish_ack-connected :
      (now : ℕ) (p : Peer) (t : Tunnel)
      → ((finish_ack k a base64 now p t).1.state ≡ connected)
        × ((finish_ack k a base64 now p t).1.session ≡ p.session)
  unfolding finish_ack
  finish_ack-connected now p t = elim (Bool-cases (is_connected p.state)) [
    | inl already ↦ rw (already, finish_ack) (is_connected-connected p.state already, refl)
    | inr first ↦ rw (first, finish_ack, send_locked-peer a 3 _ [] t refl) (refl, refl)
  ]

  -- A hello or an ack whose payload gives a session.
  react_connects :
      (now : ℕ) (f : Frame) (p : Peer) (t : Tunnel) (identity : Bytes) (s : Session)
      → ((f.typ == 1) ≡ true) ⊎ (((f.typ == 1) ≡ false) × ((f.typ == 2) ≡ true))
      → t.identity ≡ some identity
      → p.session ≡ none
      → establish k a base64 identity f.payload p t ≡ ok (record p { session = some s })
      → ((react k a base64 now f p t).1.state ≡ connected)
        × ((react k a base64 now f p t).1.session ≡ some s)
  unfolding react on_hello on_hello_ack first_ack responder_handshake
  react_connects now f p t identity s (inl hello) secret new made =
      rw
        (
          hello,
          react,
          on_hello,
          secret,
          responder_handshake,
          new,
          made,
          answer_hello-peer now _ _ t,
        )
        (refl, refl)
  react_connects now f p t identity s (inr (other, ack)) secret new made =
      rw (other, react, ack, on_hello_ack, secret, new, first_ack, made)
        (finish_ack-connected now (record p { session = some s }) t)

  -- One end gets the other's message.
  message-Holds :
      (now typ : ℕ) (addr : UdpAddr) (t : Tunnel) (p : Peer) (sender target : Str)
      (identity eph their_eph their_identity : Bytes) (s : Session)
      → ((typ == 1) ≡ true) ⊎ (((typ == 1) ≡ false) × ((typ == 2) ≡ true))
      → t.identity ≡ some identity
      → get sender t.peers ≡ some p
      → p.eph ≡ some eph
      → p.session ≡ none
      → Admits t (k.public_of their_identity)
      → new_session k identity eph (k.public_of their_eph) (k.public_of their_identity) ≡ ok s
      → Holds sender s
          (handle_frame k a base64 now
            (record {
              typ = typ;
              sender = sender;
              target = target;
              payload = marshal (message their_eph their_identity);
            })
            addr
            t).1
  unfolding handle_frame
  message-Holds now typ addr t p sender target identity eph their_eph their_identity s which secret
        known own new admits made =
      let f : Frame = record {
        typ = typ;
        sender = sender;
        target = target;
        payload = marshal (message their_eph their_identity);
      } in
      let p' : Peer = touch addr t.relay_addr p in
      let (same_session, same_eph) = touch-session addr t.relay_addr p in
      let (state, session) =
        react_connects now f p' t identity s which secret (same_session ∙ new) (
          establish_ok identity eph their_eph their_identity p' t s (same_eph ∙ own) admits made) in
      rw (known, handle_frame)
        (
          (react k a base64 now f p' t).1,
          get-put_self sender (react k a base64 now f p' t).1 t.peers,
          state,
          session,
        )

  -- Two tunnels that each began a connection to the other, let each other's identity key in and
  -- exchange their messages as hello and ack, in either role, both end up connected with one and
  -- the same session.
  pub both_connect :
      (now typ_a typ_b : ℕ) (at_a at_b : UdpAddr) (ta tb : Tunnel) (p q : Peer)
      (id_a eph_a id_b eph_b : Bytes) (s : Session)
      → (typ_a ≡ frame_hello) ⊎ (typ_a ≡ frame_hello_ack)
      → (typ_b ≡ frame_hello) ⊎ (typ_b ≡ frame_hello_ack)
      → ta.identity ≡ some id_a
      → tb.identity ≡ some id_b
      → get tb.my_id ta.peers ≡ some p
      → get ta.my_id tb.peers ≡ some q
      → p.eph ≡ some eph_a
      → q.eph ≡ some eph_b
      → p.session ≡ none
      → q.session ≡ none
      → Admits ta (k.public_of id_b)
      → Admits tb (k.public_of id_a)
      → new_session k id_a eph_a (k.public_of eph_b) (k.public_of id_b) ≡ ok s
      → Holds tb.my_id s
          (handle_frame k a base64 now
            (record {
              typ = typ_b;
              sender = tb.my_id;
              target = ta.my_id;
              payload = marshal (message eph_b id_b);
            })
            at_b
            ta).1
        × Holds ta.my_id s
            (handle_frame k a base64 now
              (record {
                typ = typ_a;
                sender = ta.my_id;
                target = tb.my_id;
                payload = marshal (message eph_a id_a);
              })
              at_a
              tb).1
  both_connect now typ_a typ_b at_a at_b ta tb p q id_a eph_a id_b eph_b s wa wb sa sb ka kb ea eb
        na nb aa ab made =
      (
        message-Holds now typ_b at_b ta p tb.my_id ta.my_id id_a eph_a eph_b id_b s (role typ_b wb)
            sa ka ea na aa made,
        message-Holds now typ_a at_a tb q ta.my_id tb.my_id id_b eph_b eph_a id_a s (role typ_a wa)
            sb kb eb nb ab (new_session_agrees k id_a eph_a id_b eph_b s made),
      )
