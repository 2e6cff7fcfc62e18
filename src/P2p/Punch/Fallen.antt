-- ===== src/P2p/Punch/Fallen.antt =====
-- punchLoop of tunnel.go once the direct attempts are given up: what it says, how long it tries.
use eliaukvpn.Base.{
  ℕ, ◌+◌, ◌≤◌, ◌≡◌, refl, sym, ap, ◌∙◌, ◌⊎◌, inl, inr, Bool, true, false, Option, none, some, List,
  [], ◌∷◌, append-nil, All,
}
use eliaukvpn.Base.Str.{Str}
use eliaukvpn.Base.Net.{UdpAddr}
use eliaukvpn.Base.GoMap.{get}
use eliaukvpn.P2p.Frame.{frame_hello}
use eliaukvpn.P2p.State.{failed, is_connecting, Peer, Tunnel, Effect}
use eliaukvpn.P2p.Send.{send_relay_frame}
use eliaukvpn.P2p.Punch.{
  top, relay_deadline_test, Punch, punch_timeout, hello_payload, send_hellos, enter_relay,
  punch_top, give_up_direct, punch_step, punch_run,
}
use eliaukvpn.P2p.Punch.Steps.{relay_taken, step_over, step_top, top_relay}
use eliaukvpn.P2p.Punch.Relayed.{Trying, run_goes, run_ends, relay_waits, run-Stays}

abbrev pub has_relay : Option UdpAddr → Bool
has_relay none = false
has_relay (some ra) = true

-- The peer when the direct attempts are given up: over the relay, or failed where there is none.
abbrev pub fallen : Option UdpAddr → Peer → Peer
fallen none p = record p { state = failed }
fallen (some ra) p = record p { relayed = true }

abbrev pub relay_hello : Option UdpAddr → Peer → Tunnel → List Effect
relay_hello none p t = []
relay_hello (some ra) p t = send_relay_frame frame_hello p.id (hello_payload p.handshake) t

abbrev pub StillTrying : Option UdpAddr → Str → Peer → List Effect × Option Punch × Tunnel → Type 0
StillTrying none id p r = Unit
StillTrying (some ra) id p r = Trying id (record p { relayed = true }) r

pub give_up_direct-fallen :
    (o : Option UdpAddr) (p : Peer)
    → is_connecting p.state ≡ true
    → p.relayed ≡ false
    → give_up_direct o p ≡ fallen o p
unfolding give_up_direct
give_up_direct-fallen none p trying direct = rw (give_up_direct, trying, direct) refl
give_up_direct-fallen (some ra) p trying direct = relay_taken ra p trying direct

pub direct_hellos :
    (now : ℕ) (l : Punch) (t : Tunnel) (p : Peer)
    → is_connecting p.state ≡ true
    → p.relayed ≡ false
    → (punch_top now l p t).0 ≡ send_hellos p.id (hello_payload p.handshake) t p.candidates
unfolding punch_top
direct_hellos now l t p trying direct = rw (punch_top, trying, direct) refl

relay_hellos :
    (now : ℕ) (l : Punch) (t : Tunnel) (p : Peer)
    → is_connecting p.state ≡ true
    → p.relayed ≡ true
    → (punch_top now l p t).0 ≡ send_relay_frame frame_hello p.id (hello_payload p.handshake) t
unfolding punch_top
relay_hellos now l t p trying relayed = rw (punch_top, trying, relayed) refl

some_injective : {p q : Peer} → ◌≡◌ {A = Option Peer} (some p) (some q) → p ≡ q
some_injective e = cc

failed_of :
    (p q : Peer)
    → (q.state ≡ p.state) ⊎ (q.state ≡ failed)
    → is_connecting q.state ≡ false
    → is_connecting p.state ≡ true
    → q.state ≡ failed
failed_of p q (inl same) over trying = cc (ap is_connecting same, over, trying)
failed_of p q (inr yes') over trying = yes'

pub still :
    (o : Option UdpAddr) (id : Str) (p : Peer) (r s : List Effect × Option Punch × Tunnel)
    → r.1 ≡ s.1
    → r.2 ≡ s.2
    → StillTrying o id p s
    → StillTrying o id p r
still none id p r s a b h = tt
still (some ra) id p r s a b (going, known) =
    ((going.0, a ∙ going.1), ap (λ t. get id t.peers) b ∙ known)

-- What has become of the peer at last
abbrev pub Failed : Str → Bool → Tunnel → Type 0
Failed id relayed t =
    (q : Peer) × (get id t.peers ≡ some q) × (q.state ≡ failed) × (q.relayed ≡ relayed)

-- The peer is not connecting any more.
abbrev pub Over : Str → Tunnel → Type 0
Over id t = (q : Peer) × (get id t.peers ≡ some q) × (is_connecting q.state ≡ false)

-- The loop at the top of a round, with the peer that was given up.
module _ (l : Punch) (t : Tunnel) (p : Peer) (at_top : l.phase ≡ top)
    (fresh : l.relay_deadline ≡ none) (trying : is_connecting p.state ≡ true)
    (direct : p.relayed ≡ false) where
  abbrev over_relay : Peer
  over_relay = record p { relayed = true }

  abbrev testing : ℕ → Punch
  testing now = record l {
    relay_deadline = some (now + punch_timeout);
    phase = relay_deadline_test;
  }

  stops : (now : ℕ) → get l.id t.peers ≡ some (fallen none p) → punch_step now l t ≡ ([], none, t)
  stops now known = step_over now l t (fallen none p) known at_top refl

  goes_over :
      (now : ℕ)
      → get l.id t.peers ≡ some over_relay
      → punch_step now l t ≡ ((punch_top now l over_relay t).0, some (testing now), t)
  goes_over now known =
      step_top now l t over_relay known at_top
      ∙ ap (λ o. ((punch_top now l over_relay t).0, o, t))
          (top_relay now l t over_relay trying refl)
      ∙ ap
          (λ (o : Option ℕ). (
            (punch_top now l over_relay t).0,
            some (record l {
              relay_deadline = some (enter_relay now o);
              phase = relay_deadline_test;
            }),
            t,
          ))
          fresh

  pub hello_sent :
      (o : Option UdpAddr) (now : ℕ)
      → get l.id t.peers ≡ some (fallen o p)
      → (punch_run (now ∷ []) (some l) t).0 ≡ relay_hello o p t
  unfolding punch_run
  hello_sent none now known = ap (λ r. r.0) (run_ends now [] l t t (stops now known))
  hello_sent (some ra) now known =
      ap (λ r. r.0)
        (run_goes now [] l (testing now) t t (punch_top now l over_relay t).0 (goes_over now known))
      ∙ append-nil (punch_top now l over_relay t).0
      ∙ relay_hellos now l t over_relay trying refl

  pub keeps_trying :
      (o : Option UdpAddr) (now : ℕ) (early : List ℕ)
      → get l.id t.peers ≡ some (fallen o p)
      → All (λ x. x ≤ now + punch_timeout) early
      → StillTrying o l.id p (punch_run (now ∷ early) (some l) t)
  keeps_trying none now early known in_time = tt
  keeps_trying (some ra) now early known in_time =
      rw
        (run_goes now early l (testing now) t t (punch_top now l over_relay t).0
          (goes_over now known))
        (relay_waits early (testing now) t over_relay (now + punch_timeout) known refl trying refl
          in_time (inr refl))

  pub fails_at_last :
      (o : Option UdpAddr) (now : ℕ) (times : List ℕ)
      → get l.id t.peers ≡ some (fallen o p)
      → Over l.id (punch_run (now ∷ times) (some l) t).2
      → Failed l.id (has_relay o) (punch_run (now ∷ times) (some l) t).2
  fails_at_last none now times known ended =
      rw (run_ends now times l t t (stops now known)) (fallen none p, known, refl, direct)
  fails_at_last (some ra) now times known (z, found, over) =
      let (q, known', relayed, state) = run-Stays (now ∷ times) l t over_relay known refl in
      let same : z ≡ q = some_injective (sym found ∙ known') in
      (
        q,
        known',
        failed_of p q state (ap (λ x. is_connecting x.state) (sym same) ∙ over) trying,
        relayed,
      )
