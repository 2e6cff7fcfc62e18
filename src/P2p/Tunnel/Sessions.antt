-- ===== src/P2p/Tunnel/Sessions.antt =====
-- How a peer of tunnel.go gets its session.
use eliaukvpn.Base.{
  is_empty, ℕ, ◌≡◌, refl, sym, ap, subst, ◌∙◌, ◌⊎◌, inl, inr, true, Option, none, some, [],
  Bool-cases, Option-cases, ◌==◌,
}
use eliaukvpn.Base.Str.{Str, Bytes}
use eliaukvpn.Base.Net.{UdpAddr}
use eliaukvpn.Base.GoMap.{get, get-put_self}
use eliaukvpn.Base.Result.{ok}
use eliaukvpn.Crypto.{Aead, Session}
use eliaukvpn.Crypto.Handshake.{Kex, Handshake, unmarshal, new_session, new_public_key, bad_static}
use eliaukvpn.P2p.Frame.{Frame}
use eliaukvpn.P2p.State.{Peer, Tunnel, is_connected}
use eliaukvpn.P2p.Tunnel.{
  check_peer_static, establish, responder_handshake, answer_hello, on_hello, finish_ack, first_ack,
  on_hello_ack, on_data, react, touch, handle_frame, flag, ack_payload,
}
use eliaukvpn.P2p.Tunnel.Effects.{send_locked-peer}
use eliaukvpn.P2p.Tunnel.Gate.{Result-cases, touch-session}

module _ (k : Kex) (a : Aead) (base64 : Bytes → Str) where
  -- What a handshake payload must be for the session `s` to come out of it.
  abbrev pub Establishes : Tunnel → Bytes → Option Bytes → Bytes → Session → Type 0
  Establishes t identity eph payload s =
      (key : Bytes) × (hs : Handshake) × (eph ≡ some key)
      × (unmarshal payload ≡ ok hs)
      × ((is_empty t.friends ≡ true) ⊎ (flag (base64 hs.stat) t.friends ≡ true))
      × (new_session k identity key hs.eph hs.stat ≡ ok s)

  allowed :
      (stat : Bytes) (t : Tunnel) (u : Unit {0})
      → check_peer_static k a base64 stat t ≡ ok u
      → (is_empty t.friends ≡ true) ⊎ (flag (base64 stat) t.friends ≡ true)
  unfolding check_peer_static
  allowed stat t u h = elim (Bool-cases (is_empty t.friends)) [
    | inl open' ↦ inl open'
    | inr closed ↦ elim (Bool-cases (flag (base64 stat) t.friends)) [
      | inl friend ↦ inr friend
      | inr stranger ↦ elim (Result-cases (new_public_key stat bad_static)) [
        | inl (e, bad) ↦ cc (rw (bad, check_peer_static) at h)
        | inr (x, good) ↦ cc (rw (good, check_peer_static, closed, stranger) at h)
      ]
    ]
  ]

  establish_cases :
      (identity payload : Bytes) (p q : Peer) (t : Tunnel)
      → establish k a base64 identity payload p t ≡ ok q
      → (s : Session) × (q ≡ record p { session = some s }) × Establishes t identity p.eph payload s
  unfolding establish
  establish_cases identity payload p q t h = elim (Option-cases p.eph) [
    | inl absent ↦ cc (rw (absent, establish) at h)
    | inr (key, e) ↦ elim (Result-cases (unmarshal payload)) [
      | inl (x, bad) ↦ cc (rw (e, establish, bad) at h)
      | inr (hs, good) ↦ elim (Result-cases (check_peer_static k a base64 hs.stat t)) [
        | inl (x, bad) ↦ cc (rw (e, establish, good, bad) at h)
        | inr (u, checked) ↦ elim (Result-cases (new_session k identity key hs.eph hs.stat)) [
          | inl (x, bad) ↦ cc (rw (e, establish, good, checked, bad) at h)
          | inr (s, made) ↦ (
            s,
            cc (rw (e, establish, good, checked, made) at h),
            (key, hs, e, good, allowed hs.stat t u checked, made),
          )
        ]
      ]
    ]
  ]

  answer_hello-session :
      (now : ℕ) (ack : Bytes) (p : Peer) (t : Tunnel)
      → (answer_hello k a base64 now ack p t).1.session ≡ p.session
  unfolding answer_hello
  answer_hello-session now ack p t =
      rw (send_locked-peer a 3 _ [] t refl, send_locked-peer a 2 _ ack t refl) refl

  finish_ack-session :
      (now : ℕ) (p : Peer) (t : Tunnel) → (finish_ack k a base64 now p t).1.session ≡ p.session
  unfolding finish_ack
  finish_ack-session now p t = elim (Bool-cases (is_connected p.state)) [
    | inl already ↦ rw (already, finish_ack) refl
    | inr first ↦ rw (first, finish_ack, send_locked-peer a 3 _ [] t refl) refl
  ]

  -- The session that a frame leaves a peer without one with.
  abbrev Born : Tunnel → Frame → Peer → Session → Type 0
  Born t f p s =
      (identity : Bytes) × (t.identity ≡ some identity) × Establishes t identity p.eph f.payload s

  made_session :
      (f : Frame) (p q : Peer) (t : Tunnel) (identity : Bytes) (s : Session)
      → t.identity ≡ some identity
      → establish k a base64 identity f.payload p t ≡ ok q
      → q.session ≡ some s
      → Born t f p s
  made_session f p q t identity s secret made h =
      let (s', same, how) = establish_cases identity f.payload p q t made in
      (
        identity,
        secret,
        subst (λ z. Establishes t identity p.eph f.payload z) (cc (ap (λ z. z.session) same, h))
            how,
      )

  on_hello-Born :
      (now : ℕ) (f : Frame) (p : Peer) (t : Tunnel) (s : Session)
      → p.session ≡ none
      → (on_hello k a base64 now f p t).1.session ≡ some s
      → Born t f p s
  unfolding on_hello responder_handshake
  on_hello-Born now f p t s new h = elim (Option-cases t.identity) [
    | inl clear ↦ cc (rw (clear, on_hello) at h, answer_hello-session now [] p t, new)
    | inr (identity, e) ↦ elim (Result-cases (establish k a base64 identity f.payload p t)) [
      | inl (x, bad) ↦ cc (rw (e, on_hello, responder_handshake, new, bad) at h, new)
      | inr (q, good) ↦ made_session f p q t identity s e good (
          sym (answer_hello-session now (ack_payload k a base64 q.handshake) q t)
          ∙ rw (e, on_hello, responder_handshake, new, good) at h)
    ]
  ]

  on_hello_ack-Born :
      (now : ℕ) (f : Frame) (p : Peer) (t : Tunnel) (s : Session)
      → p.session ≡ none
      → (on_hello_ack k a base64 now f p t).1.session ≡ some s
      → Born t f p s
  unfolding on_hello_ack first_ack
  on_hello_ack-Born now f p t s new h = elim (Option-cases t.identity) [
    | inl clear ↦ cc (rw (clear, on_hello_ack) at h, finish_ack-session now p t, new)
    | inr (identity, e) ↦ elim (Result-cases (establish k a base64 identity f.payload p t)) [
      | inl (x, bad) ↦ cc (rw (e, on_hello_ack, new, first_ack, bad) at h, new)
      | inr (q, good) ↦
          made_session f p q t identity s e good
            (sym (finish_ack-session now q t) ∙ rw (e, on_hello_ack, new, first_ack, good) at h)
    ]
  ]

  on_data-session :
      (f : Frame) (p : Peer) (t : Tunnel)
      → p.session ≡ none
      → (on_data k a base64 f p t).1.session ≡ none
  unfolding on_data
  on_data-session f p t new = elim (Option-cases t.identity) [
    | inl clear ↦ rw (new, on_data, clear) new
    | inr (identity, e) ↦ rw (new, on_data, e) new
  ]

  react-Born :
      (now : ℕ) (f : Frame) (p : Peer) (t : Tunnel) (s : Session)
      → p.session ≡ none
      → (react k a base64 now f p t).1.session ≡ some s
      → Born t f p s
  unfolding react
  react-Born now f p t s new h = elim (Bool-cases (f.typ == 1)) [
    | inl hello ↦ on_hello-Born now f p t s new (rw (hello, react) at h)
    | inr h1 ↦ elim (Bool-cases (f.typ == 2)) [
      | inl ack ↦ on_hello_ack-Born now f p t s new (rw (h1, react, ack) at h)
      | inr h2 ↦ elim (Bool-cases (f.typ == 3)) [
        | inl ping ↦ cc (rw (h1, react, h2, ping, send_locked-peer a 4 p [] t refl) at h, new)
        | inr h3 ↦ elim (Bool-cases (f.typ == 5)) [
          | inl data' ↦ cc (rw (h1, react, h2, h3, data') at h, on_data-session f p t new)
          | inr h5 ↦ cc (rw (h1, react, h2, h3, h5) at h, new)
        ]
      ]
    ]
  ]

  -- A peer without a session gets one only in encrypted mode, from a handshake message of two
  -- 32-byte keys whose static key is a friend's (or nobody is listed), and the session is the one
  -- that NewSession derives from the connection's own ephemeral key and that message.
  pub session_born :
      (now : ℕ) (f : Frame) (addr : UdpAddr) (t : Tunnel) (p q : Peer) (s : Session)
      → get f.sender t.peers ≡ some p
      → p.session ≡ none
      → get f.sender (handle_frame k a base64 now f addr t).1.peers ≡ some q
      → q.session ≡ some s
      → (identity : Bytes) × (t.identity ≡ some identity) × Establishes t identity p.eph f.payload s
  unfolding handle_frame
  session_born now f addr t p q s known new after h =
      let (same_session, same_eph) = touch-session addr t.relay_addr p in
      let p' : Peer = touch addr t.relay_addr p in
      let r : Peer = (react k a base64 now f p' t).1 in
      let stored : some r ≡ some q =
        sym (get-put_self f.sender r t.peers) ∙ rw (known, handle_frame) at after in
      let (identity, secret, how) = react-Born now f p' t s (same_session ∙ new) (
        cc (
          ap
              (λ (o : Option Peer). elim o as (λ _. Option Session) [
                | none ↦ none
                | some z ↦ z.session
              ])
              stored,
          h,
        )) in
      (identity, secret, subst (λ z. Establishes t identity z f.payload s) same_eph how)
