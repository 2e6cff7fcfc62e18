-- ===== src/P2p/Punch/Outcome.antt =====
-- How punchLoop of tunnel.go ends when no frame arrives: over the relay where there is one.
use eliaukvpn.Base.{
  ℕ, ◌+◌, ◌≤◌, ◌<◌, ◌≡◌, refl, sym, ap, ◌∙◌, subst, true, false, Option, none, some, List, [], ◌∷◌,
  ◌++◌, append-nil, All,
}
use eliaukvpn.Base.GoMap.{get}
use eliaukvpn.P2p.State.{is_connecting, Peer, Tunnel, Effect}
use eliaukvpn.P2p.Punch.{
  top, direct_deadline_test, Punch, punch_timeout, hello_payload, send_hellos, punch_top, with_peer,
  punch_step, punch_run,
}
use eliaukvpn.P2p.Punch.Steps.{Ended, step_top, top_direct, step_direct, with_peer_lem}
use eliaukvpn.P2p.Punch.Fallen.{
  has_relay, fallen, relay_hello, StillTrying, give_up_direct-fallen, direct_hellos, still, Failed,
  Over, hello_sent, keeps_trying, fails_at_last,
}
use eliaukvpn.P2p.Punch.Fallback.{punch_over}
use eliaukvpn.P2p.Punch.Relayed.{run_goes}

-- The last direct round: the hellos to the candidates, and the peer given up.
last_direct :
    (l : Punch) (t : Tunnel) (p : Peer) (n1 n2 : ℕ) (more : List ℕ)
    → get l.id t.peers ≡ some p
    → l.phase ≡ top
    → is_connecting p.state ≡ true
    → p.relayed ≡ false
    → l.direct_deadline < n2
    → punch_run (n1 ∷ n2 ∷ more) (some l) t ≡ (
      send_hellos p.id (hello_payload p.handshake) t p.candidates
          ++ (punch_run more
              (some (record l { phase = top }))
              (with_peer l.id (fallen t.relay_addr p) t)).0,
      (punch_run more
          (some (record l { phase = top }))
          (with_peer l.id (fallen t.relay_addr p) t)).1,
      (punch_run more
          (some (record l { phase = top }))
          (with_peer l.id (fallen t.relay_addr p) t)).2,
    )
last_direct l t p n1 n2 more known at_top trying direct late =
    let l1 : Punch = record l { phase = direct_deadline_test } in
    let l2 : Punch = record l { phase = top } in
    let t' : Tunnel = with_peer l.id (fallen t.relay_addr p) t in
    let step1 : punch_step n1 l t
        ≡ (send_hellos p.id (hello_payload p.handshake) t p.candidates, some l1, t) =
      step_top n1 l t p known at_top
      ∙ ap (λ o. ((punch_top n1 l p t).0, o, t)) (top_direct n1 l t p trying direct)
      ∙ ap (λ es. (es, some l1, t)) (direct_hellos n1 l t p trying direct) in
    let step2 : punch_step n2 l1 t ≡ ([], some l2, t') =
      step_direct n2 l1 t p known refl late
      ∙ ap (λ q. ([], some l2, with_peer l.id q t))
          (give_up_direct-fallen t.relay_addr p trying direct) in
    run_goes n1 (n2 ∷ more) l l1 t t (send_hellos p.id (hello_payload p.handshake) t p.candidates)
      step1
    ∙ ap
        (λ (r : List Effect × Option Punch × Tunnel).
          (send_hellos p.id (hello_payload p.handshake) t p.candidates ++ r.0, r.1, r.2))
        (run_goes n2 more l1 l2 t t' [] step2)

-- Without an answer, a loop that stands at the top of a round, not in relay mode, with a peer that is
-- connecting and not relayed, once a test at n2 is past the direct deadline: it has sent the hellos
-- to the candidates, and the peer goes over to the relay where there is one and fails at once where
-- there is none. Its next step, at n3, says hello over the relay where there is one and nothing
-- where there is none. With a relay it keeps trying through any steps up to 6 seconds after n3. By
-- the second step later than that the loop is over and the peer has failed, whatever steps came
-- before, and it is relayed exactly where there is a relay.
pub punch_ends :
    (l : Punch) (t : Tunnel) (p : Peer) (n1 n2 n3 : ℕ) (early times : List ℕ) (n m : ℕ)
    → get l.id t.peers ≡ some p
    → l.phase ≡ top
    → l.relay_deadline ≡ none
    → is_connecting p.state ≡ true
    → p.relayed ≡ false
    → l.direct_deadline < n2
    → All (λ x. x ≤ n3 + punch_timeout) early
    → n3 + punch_timeout < n
    → n3 + punch_timeout < m
    → (punch_run (n1 ∷ n2 ∷ []) (some l) t ≡ (
      send_hellos p.id (hello_payload p.handshake) t p.candidates,
      some (record l { phase = top }),
      with_peer l.id (fallen t.relay_addr p) t,
    ))
      × ((punch_run
            (n3 ∷ [])
            (some (record l { phase = top }))
            (with_peer l.id (fallen t.relay_addr p) t)).0
          ≡ relay_hello t.relay_addr p (with_peer l.id (fallen t.relay_addr p) t))
      × StillTrying t.relay_addr l.id p (punch_run (n1 ∷ n2 ∷ n3 ∷ early) (some l) t)
      × Ended l.id (punch_run (n1 ∷ n2 ∷ n3 ∷ (times ++ n ∷ m ∷ [])) (some l) t)
      × Failed l.id
          (has_relay t.relay_addr)
          (punch_run (n1 ∷ n2 ∷ n3 ∷ (times ++ n ∷ m ∷ [])) (some l) t).2
unfolding punch_run
punch_ends l t p n1 n2 n3 early times n m known at_top fresh trying direct late in_time late_n
      late_m =
    let ended =
      punch_over l t p n1 n2 n3 times n m known at_top fresh trying direct late late_n late_m in
    let o = t.relay_addr in
    let l2 : Punch = record l { phase = top } in
    let t' : Tunnel = with_peer l.id (fallen o p) t in
    let rest : List ℕ = times ++ n ∷ m ∷ [] in
    let kept = with_peer_lem l.id (fallen o p) t in
    let two = λ (more : List ℕ). last_direct l t p n1 n2 more known at_top trying direct late in
    (
      two []
          ∙ ap (λ es. (es, some l2, t'))
              (append-nil (send_hellos p.id (hello_payload p.handshake) t p.candidates)),
      hello_sent l2 t' p refl fresh trying direct o n3 kept,
      still o l.id p (punch_run (n1 ∷ n2 ∷ n3 ∷ early) (some l) t)
          (punch_run (n3 ∷ early) (some l2) t') (ap (λ r. r.1) (two (n3 ∷ early)))
          (ap (λ r. r.2) (two (n3 ∷ early)))
          (keeps_trying l2 t' p refl fresh trying direct o n3 early kept in_time),
      ended,
      subst (λ t''. Failed l.id (has_relay o) t'') (sym (ap (λ r. r.2) (two (n3 ∷ rest))))
          (fails_at_last l2 t' p refl fresh trying direct o n3 rest kept
            (subst (λ t''. Over l.id t'') (ap (λ r. r.2) (two (n3 ∷ rest))) ended.1)),
    )
