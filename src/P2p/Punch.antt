-- ===== src/P2p/Punch.antt =====
-- internal/p2p/tunnel.go: punchLoop. Times are milliseconds. The loop takes the lock twice per
-- round, so a round is two steps and frames may arrive between them: `top` reads the peer and
-- sends the hellos, the other two phases test a deadline.
pub mod Steps
pub mod Fallback
pub mod Relayed
pub mod Fallen
pub mod Outcome
use eliaukvpn.Base.{
  ℕ, ◌+◌, Bool, true, false, not, ◌&&◌, Option, none, some, List, [], ◌∷◌, ◌++◌, ltb, if◌then◌else◌,
}
use eliaukvpn.Base.Str.{Str, Bytes}
use eliaukvpn.Base.Net.{UdpAddr}
use eliaukvpn.Base.GoMap.{get, put}
use eliaukvpn.Crypto.Handshake.{Handshake, marshal}
use eliaukvpn.P2p.Frame.{frame_hello}
use eliaukvpn.P2p.State.{PeerState, failed, is_connecting, Peer, Tunnel, Effect}
use eliaukvpn.P2p.Send.{send_frame, send_relay_frame}

abbrev pub punch_timeout : ℕ
punch_timeout = 6000

pub data Phase : Type 0 where
  top relay_deadline_test direct_deadline_test : Phase

-- The loop's variables. `relay_deadline` is `none` until the loop is in relay mode (inRelay).
pub record Punch : Type 0 where
  pub id : Str
  pub direct_deadline : ℕ
  pub relay_deadline : Option ℕ
  pub phase : Phase

-- BeginConnect's `go t.punchLoop(p)`
abbrev pub new_punch : ℕ → Str → Punch
new_punch now id = record {
  id = id;
  direct_deadline = now + punch_timeout;
  relay_deadline = none;
  phase = top;
}

abbrev pub hello_payload : Option Handshake → Bytes
hello_payload none = []
hello_payload (some h) = marshal h

-- The hellos to every candidate
unfoldable pub send_hellos : Str → Bytes → Tunnel → List UdpAddr → List Effect
send_hellos id payload t [] = []
send_hellos id payload t (c ∷ cands) =
    send_frame frame_hello id c payload t ++ send_hellos id payload t cands

-- inRelay and relayDeadline, set in the first round of relay mode
abbrev pub enter_relay : ℕ → Option ℕ → ℕ
enter_relay now none = now + punch_timeout
enter_relay now (some d) = d

-- The part of a round up to the deadline's test; `none` ends the loop.
unfoldable pub punch_top : ℕ → Punch → Peer → Tunnel → List Effect × Option Punch
punch_top now l p t =
    if is_connecting p.state
    then (if p.relayed
        then (
          send_relay_frame frame_hello p.id (hello_payload p.handshake) t,
          some (record l {
            relay_deadline = some (enter_relay now l.relay_deadline);
            phase = relay_deadline_test;
          }),
        )
        else (
          send_hellos p.id (hello_payload p.handshake) t p.candidates,
          some (record l { phase = direct_deadline_test }),
        ))
    else ([], none)

-- Relay mode: past the deadline, a peer that is still connecting has failed, and the loop ends.
unfoldable pub punch_relay : ℕ → Punch → Peer → Option Punch × Peer
punch_relay now l p =
    if ltb (enter_relay now l.relay_deadline) now
    then (none, if is_connecting p.state then record p { state = failed } else p)
    else (some (record l { phase = top }), p)

-- Past the direct deadline: the relay where there is one, else failure. The loop goes on.
unfoldable pub give_up_direct : Option UdpAddr → Peer → Peer
give_up_direct relay_addr p =
    if is_connecting p.state && not p.relayed
    then (elim relay_addr [
      | none ↦ record p { state = failed }
      | some _ ↦ record p { relayed = true }
    ])
    else p

unfoldable pub punch_direct : ℕ → Punch → Peer → Tunnel → Option Punch × Peer
punch_direct now l p t = (
  some (record l { phase = top }),
  if ltb l.direct_deadline now then give_up_direct t.relay_addr p else p,
)

unfoldable pub with_peer : Str → Peer → Tunnel → Tunnel
with_peer id p t = record t { peers = put id p t.peers }

-- One step of punchLoop on the peer that it was started with, which is never removed.
unfoldable pub punch_step : ℕ → Punch → Tunnel → List Effect × Option Punch × Tunnel
punch_step now l t = elim (get l.id t.peers) [
  | none ↦ ([], none, t)
  | some p ↦ elim l.phase [
    | top ↦ let (es, next) = punch_top now l p t in (es, next, t)
    | relay_deadline_test ↦ let (next, p') = punch_relay now l p in ([], next, with_peer l.id p' t)
    | direct_deadline_test ↦
        let (next, p') = punch_direct now l p t in ([], next, with_peer l.id p' t)
  ]
]

-- The steps at the given times, while the loop runs and nothing else happens.
unfoldable pub punch_run : List ℕ → Option Punch → Tunnel → List Effect × Option Punch × Tunnel
punch_run times none t = ([], none, t)
punch_run [] (some l) t = ([], some l, t)
punch_run (now ∷ times) (some l) t =
    let (es, next, t') = punch_step now l t in
    let (later, last, t'') = punch_run times next t' in (es ++ later, last, t'')
