-- ===== src/P2p/Tunnel/Gate.antt =====
-- Which packets of tunnel.go reach the virtual network, and which peers get a session.
use eliaukvpn.Base.{
  ℕ, ◌≡◌, refl, sym, ap, ◌∙◌, ◌⊎◌, inl, inr, Option, none, some, [], arith, Bool-cases,
  Option-cases, ◌==◌, In,
}
use eliaukvpn.Base.Str.{Str, Bytes}
use eliaukvpn.Base.Net.{UdpAddr}
use eliaukvpn.Base.GoMap.{get}
use eliaukvpn.Base.Result.{Result, ok, err}
use eliaukvpn.Crypto.{Aead, Session, unseal}
use eliaukvpn.Crypto.Handshake.{Kex}
use eliaukvpn.P2p.Frame.{Frame, frame_data}
use eliaukvpn.P2p.State.{Peer, Tunnel, connected}
use eliaukvpn.P2p.Send.{peer_aad}
use eliaukvpn.P2p.Tunnel.{
  establish, responder_handshake, answer_hello, on_hello, finish_ack, first_ack, on_hello_ack,
  to_sink, open_data, on_data, react, touch, handle_frame, ack_payload,
}
use eliaukvpn.P2p.Tunnel.Effects.{deliveries, deliveries-append, send_locked-none}

-- A result with its equation.
pub Result-cases :
    {E A : Type 0} (r : Result E A) → ((e : E) × (r ≡ err e)) ⊎ ((x : A) × (r ≡ ok x))
Result-cases (err e) = inl (e, refl)
Result-cases (ok x) = inr (x, refl)

pub touch-session :
    (addr : UdpAddr) (ra : Option UdpAddr) (p : Peer)
    → ((touch addr ra p).session ≡ p.session) × ((touch addr ra p).eph ≡ p.eph)
unfolding touch
touch-session addr none p = (refl, refl)
touch-session addr (some ra) p = ground arith

module _ (k : Kex) (a : Aead) (base64 : Bytes → Str) where
  answer_hello-none :
      (now : ℕ) (ack : Bytes) (p : Peer) (t : Tunnel)
      → deliveries (answer_hello k a base64 now ack p t).0 ≡ []
  unfolding answer_hello
  answer_hello-none now ack p t = rw (deliveries-append, send_locked-none, send_locked-none) refl

  on_hello-none :
      (now : ℕ) (f : Frame) (p : Peer) (t : Tunnel)
      → deliveries (on_hello k a base64 now f p t).0 ≡ []
  unfolding on_hello
  on_hello-none now f p t = elim (Option-cases t.identity) [
    | inl clear ↦ rw (clear, on_hello) (answer_hello-none now [] p t)
    | inr (identity, e) ↦
        elim (Result-cases (responder_handshake k a base64 identity f.payload p t)) [
          | inl (x, bad) ↦ rw (e, on_hello, bad) refl
          | inr (p', good) ↦
              rw (e, on_hello, good)
                (answer_hello-none now (ack_payload k a base64 p'.handshake) p' t)
        ]
  ]

  finish_ack-none :
      (now : ℕ) (p : Peer) (t : Tunnel) → deliveries (finish_ack k a base64 now p t).0 ≡ []
  unfolding finish_ack
  finish_ack-none now p t =
      ground (arith, send_locked-none a 3 (record p { state = connected; last_ping = now }) [] t)

  on_hello_ack-none :
      (now : ℕ) (f : Frame) (p : Peer) (t : Tunnel)
      → deliveries (on_hello_ack k a base64 now f p t).0 ≡ []
  unfolding on_hello_ack first_ack
  on_hello_ack-none now f p t = elim (Option-cases t.identity) [
    | inl clear ↦ rw (clear, on_hello_ack) (finish_ack-none now p t)
    | inr (identity, e) ↦ elim (Option-cases p.session) [
      | inr (s, old) ↦ rw (e, on_hello_ack, old) (finish_ack-none now p t)
      | inl new ↦ elim (Result-cases (establish k a base64 identity f.payload p t)) [
        | inl (x, bad) ↦ rw (e, on_hello_ack, new, first_ack, bad) refl
        | inr (p', good) ↦ rw (e, on_hello_ack, new, first_ack, good) (finish_ack-none now p' t)
      ]
    ]
  ]

  -- Data of an encrypted connection.
  on_data-authentic :
      (f : Frame) (p : Peer) (t : Tunnel) (identity x : Bytes)
      → t.identity ≡ some identity
      → In x (deliveries (on_data k a base64 f p t).0)
      → (s : Session) × (p.session ≡ some s)
        × ((unseal a (peer_aad f.sender f.target) f.payload s).0 ≡ ok x)
  unfolding on_data open_data to_sink
  on_data-authentic f p t identity x secret i = elim (Option-cases p.session) [
    | inl none' ↦ absurd (rw (none', on_data, secret) at i).1
    | inr (s, e) ↦ elim (Result-cases (unseal a (peer_aad f.sender f.target) f.payload s).0) [
      | inl (why, bad) ↦ absurd (rw (e, on_data, open_data, bad) at i).1
      | inr (pkt, good) ↦ elim (Bool-cases t.has_sink) [
        | inl sink ↦ elim (rw (e, on_data, open_data, good, to_sink, sink) at i) [
          | inl same ↦ (s, e, good ∙ ap ok (sym same))
          | inr later ↦ absurd later.1
        ]
        | inr no_sink ↦ absurd (rw (e, on_data, open_data, good, to_sink, no_sink) at i).1
      ]
    ]
  ]

  react-authentic :
      (now : ℕ) (f : Frame) (p : Peer) (t : Tunnel) (identity x : Bytes)
      → t.identity ≡ some identity
      → In x (deliveries (react k a base64 now f p t).0)
      → (s : Session) × (p.session ≡ some s)
        × (f.typ ≡ frame_data)
        × ((unseal a (peer_aad f.sender f.target) f.payload s).0 ≡ ok x)
  unfolding react
  react-authentic now f p t identity x secret i = elim (Bool-cases (f.typ == 1)) [
    | inl hello ↦ absurd (rw (hello, react, on_hello-none now f p t) at i).1
    | inr h1 ↦ elim (Bool-cases (f.typ == 2)) [
      | inl ack ↦ absurd (rw (h1, react, ack, on_hello_ack-none now f p t) at i).1
      | inr h2 ↦ elim (Bool-cases (f.typ == 3)) [
        | inl ping ↦ absurd (rw (h1, react, h2, ping, send_locked-none) at i).1
        | inr h3 ↦ elim (Bool-cases (f.typ == 5)) [
          | inl data' ↦
              let (s, e, opened) =
                on_data-authentic f p t identity x secret (rw (h1, react, h2, h3, data') at i) in
              (s, e, ground arith, opened)
          | inr h5 ↦ absurd (rw (h1, react, h2, h3, h5) at i).1
        ]
      ]
    ]
  ]

  -- With an identity installed, a packet reaches the virtual network only out of a data frame
  -- from a known peer with a session, and only as what that session's `Open` returned.
  pub delivered_authentic :
      (now : ℕ) (f : Frame) (addr : UdpAddr) (t : Tunnel) (identity x : Bytes)
      → t.identity ≡ some identity
      → In x (deliveries (handle_frame k a base64 now f addr t).0)
      → (p : Peer) × (s : Session) × (get f.sender t.peers ≡ some p)
        × (p.session ≡ some s)
        × (f.typ ≡ frame_data)
        × ((unseal a (peer_aad f.sender f.target) f.payload s).0 ≡ ok x)
  unfolding handle_frame
  delivered_authentic now f addr t identity x secret i =
      elim (Option-cases (get f.sender t.peers)) [
        | inl stray ↦ absurd (rw (stray, handle_frame) at i).1
        | inr (p, known) ↦
            let (s, e, typ, opened) =
              react-authentic now f (touch addr t.relay_addr p) t identity x secret
                (rw (known, handle_frame) at i) in
            (p, s, known, sym (touch-session addr t.relay_addr p).0 ∙ e, typ, opened)
      ]
