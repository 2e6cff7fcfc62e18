-- ===== src/P2p/Punch/Steps.antt =====
-- The steps of punchLoop in tunnel.go, each with what it makes of the loop and of the peer.
use eliaukvpn.Base.{
  ℕ, ◌<◌, ◌≡◌, refl, inl, inr, true, false, not, ◌&&◌, Option, none, some, List, [], ◌∷◌, ltb,
  Bool-cases, lt→ltb,
}
use eliaukvpn.Base.Str.{Str}
use eliaukvpn.Base.Net.{UdpAddr}
use eliaukvpn.Base.GoMap.{get, get-put_self}
use eliaukvpn.P2p.State.{is_connecting, Peer, Tunnel, Effect}
use eliaukvpn.P2p.Punch.{
  top, relay_deadline_test, direct_deadline_test, Punch, enter_relay, punch_top, punch_relay,
  give_up_direct, punch_direct, with_peer, punch_step, punch_run,
}

-- The loop is over and the peer is not connecting any more.
abbrev pub Ended : Str → List Effect × Option Punch × Tunnel → Type 0
Ended id r =
    (r.1 ≡ none) × ((q : Peer) × (get id r.2.peers ≡ some q) × (is_connecting q.state ≡ false))

-- A step that ends the loop, then nothing more.
pub ends_here :
    (now : ℕ) (times : List ℕ) (l : Punch) (t t' : Tunnel) (es : List Effect) (q : Peer)
    → punch_step now l t ≡ (es, none, t')
    → get l.id t'.peers ≡ some q
    → is_connecting q.state ≡ false
    → Ended l.id (punch_run (now ∷ times) (some l) t)
unfolding punch_run
ends_here now times l t t' es q stepped known over =
    rw (punch_run, stepped) (refl, (q, known, over))

pub goes_on :
    (now : ℕ) (times : List ℕ) (l l' : Punch) (t t' : Tunnel) (es : List Effect)
    → punch_step now l t ≡ (es, some l', t')
    → Ended l.id (punch_run times (some l') t')
    → Ended l.id (punch_run (now ∷ times) (some l) t)
unfolding punch_run
goes_on now times l l' t t' es stepped rest = rw (punch_run, stepped) rest

-- The first part of a round.
pub step_over :
    (now : ℕ) (l : Punch) (t : Tunnel) (p : Peer)
    → get l.id t.peers ≡ some p
    → l.phase ≡ top
    → is_connecting p.state ≡ false
    → punch_step now l t ≡ ([], none, t)
unfolding punch_step punch_top
step_over now l t p known at_top over = rw (known, punch_step, at_top, punch_top, over) refl

pub step_top :
    (now : ℕ) (l : Punch) (t : Tunnel) (p : Peer)
    → get l.id t.peers ≡ some p
    → l.phase ≡ top
    → punch_step now l t ≡ ((punch_top now l p t).0, (punch_top now l p t).1, t)
unfolding punch_step punch_top
step_top now l t p known at_top = rw (known, punch_step, at_top) refl

pub top_relay :
    (now : ℕ) (l : Punch) (t : Tunnel) (p : Peer)
    → is_connecting p.state ≡ true
    → p.relayed ≡ true
    → (punch_top now l p t).1
      ≡ some (record l {
        relay_deadline = some (enter_relay now l.relay_deadline);
        phase = relay_deadline_test;
      })
unfolding punch_top
top_relay now l t p trying relayed = rw (trying, punch_top, relayed) refl

pub top_direct :
    (now : ℕ) (l : Punch) (t : Tunnel) (p : Peer)
    → is_connecting p.state ≡ true
    → p.relayed ≡ false
    → (punch_top now l p t).1 ≡ some (record l { phase = direct_deadline_test })
unfolding punch_top
top_direct now l t p trying direct = rw (trying, punch_top, direct) refl

pub step_direct :
    (now : ℕ) (l : Punch) (t : Tunnel) (p : Peer)
    → get l.id t.peers ≡ some p
    → l.phase ≡ direct_deadline_test
    → l.direct_deadline < now
    → punch_step now l t
      ≡ ([], some (record l { phase = top }), with_peer l.id (give_up_direct t.relay_addr p) t)
unfolding punch_step punch_direct
step_direct now l t p known testing late =
    rw (known, punch_step, testing, punch_direct, lt→ltb l.direct_deadline now late) refl

-- The deadline test of relay mode.
pub step_relay :
    (now : ℕ) (l : Punch) (t : Tunnel) (p : Peer)
    → get l.id t.peers ≡ some p
    → l.phase ≡ relay_deadline_test
    → punch_step now l t ≡ ([], (punch_relay now l p).0, with_peer l.id (punch_relay now l p).1 t)
unfolding punch_step punch_relay
step_relay now l t p known testing = rw (known, punch_step, testing) refl

pub relay_early :
    (now : ℕ) (l : Punch) (p : Peer)
    → ltb (enter_relay now l.relay_deadline) now ≡ false
    → punch_relay now l p ≡ (some (record l { phase = top }), p)
unfolding punch_relay
relay_early now l p early = rw (early, punch_relay) refl

pub relay_late :
    (now : ℕ) (l : Punch) (p : Peer)
    → ltb (enter_relay now l.relay_deadline) now ≡ true
    → ((punch_relay now l p).0 ≡ none) × (is_connecting (punch_relay now l p).1.state ≡ false)
unfolding punch_relay
relay_late now l p late = elim (Bool-cases (is_connecting p.state)) [
  | inl trying ↦ rw (late, punch_relay, trying) (refl, refl)
  | inr over ↦ rw (late, punch_relay, over) (refl, over)
]

-- The peer is stored, so the next step finds it.
pub with_peer_lem : (id : Str) (p : Peer) (t : Tunnel) → get id (with_peer id p t).peers ≡ some p
unfolding with_peer
with_peer_lem id p t = get-put_self id p t.peers

pub relay_taken :
    (ra : UdpAddr) (p : Peer)
    → is_connecting p.state ≡ true
    → p.relayed ≡ false
    → give_up_direct (some ra) p ≡ record p { relayed = true }
unfolding give_up_direct
relay_taken ra p trying direct = rw (both, give_up_direct) refl
  where
    both : (is_connecting p.state && not p.relayed) ≡ true
    both = rw (trying, direct) refl

pub no_relay :
    (p : Peer)
    → is_connecting p.state ≡ true
    → p.relayed ≡ false
    → is_connecting (give_up_direct none p).state ≡ false
unfolding give_up_direct
no_relay p trying direct = rw (trying, give_up_direct, direct) refl
