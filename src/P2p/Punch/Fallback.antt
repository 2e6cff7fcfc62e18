-- ===== src/P2p/Punch/Fallback.antt =====
-- punchLoop of tunnel.go, with no frame arriving: it falls back to the relay, and it ends.
use eliaukvpn.Base.{
  ℕ, ◌+◌, ◌<◌, ◌≡◌, refl, ap, ◌∙◌, ◌⊎◌, inl, inr, true, false, Option, none, some, List, [], ◌∷◌,
  ◌++◌, ltb, Bool-cases, Option-cases, lt→ltb,
}
use eliaukvpn.Base.Net.{UdpAddr}
use eliaukvpn.Base.GoMap.{get}
use eliaukvpn.P2p.State.{is_connecting, Peer, Tunnel}
use eliaukvpn.P2p.Punch.{
  top, relay_deadline_test, direct_deadline_test, Punch, punch_timeout, enter_relay, punch_top,
  punch_relay, give_up_direct, with_peer, punch_run,
}
use eliaukvpn.P2p.Punch.Steps.{
  Ended, relay_taken, no_relay, ends_here, goes_on, step_over, step_top, top_relay, top_direct,
  step_direct, step_relay, relay_early, relay_late, with_peer_lem,
}

-- In relay mode, two more steps past the deadline end the loop, whatever steps came before.
module _ (n m d : ℕ) (late_n : d < n) (late_m : d < m) where
  -- At the top of a round: over, or on to the test.
  from_top :
      (now : ℕ) (rest : List ℕ) (l : Punch) (t : Tunnel) (p : Peer)
      → get l.id t.peers ≡ some p
      → p.relayed ≡ true
      → l.relay_deadline ≡ some d
      → l.phase ≡ top
      → (Ended l.id (
          punch_run rest
            (some (record l { relay_deadline = some d; phase = relay_deadline_test }))
            t))
      → Ended l.id (punch_run (now ∷ rest) (some l) t)
  from_top now rest l t p known relayed deadline at_top next =
      elim (Bool-cases (is_connecting p.state)) [
        | inr over ↦
            ends_here now rest l t t [] p (step_over now l t p known at_top over) known over
        | inl trying ↦
            goes_on now rest l (record l { relay_deadline = some d; phase = relay_deadline_test }) t
              t (punch_top now l p t).0
              (step_top now l t p known at_top
                ∙ ap (λ o. ((punch_top now l p t).0, o, t)) (top_relay now l t p trying relayed)
                ∙ ap
                    (λ (o : Option ℕ). (
                      (punch_top now l p t).0,
                      some (record l {
                        relay_deadline = some (enter_relay now o);
                        phase = relay_deadline_test;
                      }),
                      t,
                    ))
                    deadline)
              next
      ]

  from_test :
      (now : ℕ) (rest : List ℕ) (l : Punch) (t : Tunnel) (p : Peer)
      → get l.id t.peers ≡ some p
      → l.relay_deadline ≡ some d
      → l.phase ≡ relay_deadline_test
      → (ltb d now ≡ false
          → Ended l.id (punch_run rest (some (record l { phase = top })) (with_peer l.id p t)))
      → Ended l.id (punch_run (now ∷ rest) (some l) t)
  from_test now rest l t p known deadline testing next = elim (Bool-cases (ltb d now)) [
    | inl late ↦
        let (stopped, over) =
          relay_late now l p (ap (λ o. ltb (enter_relay now o) now) deadline ∙ late) in
        ends_here now rest l t (with_peer l.id (punch_relay now l p).1 t) [] (punch_relay now l p).1
          (step_relay now l t p known testing
            ∙ ap (λ o. ([], o, with_peer l.id (punch_relay now l p).1 t)) stopped)
          (with_peer_lem l.id (punch_relay now l p).1 t) over
    | inr early ↦
        goes_on now rest l (record l { phase = top }) t (with_peer l.id p t) []
          (step_relay now l t p known testing
            ∙ ap (λ (r : Option Punch × Peer). ([], r.0, with_peer l.id r.1 t))
                (relay_early now l p (ap (λ o. ltb (enter_relay now o) now) deadline ∙ early)))
          (next early)
  ]

  not_early : (k : ℕ) → d < k → ltb d k ≡ false → ⊥
  not_early k late early = cc (lt→ltb d k late, early)

  relay_ends :
      (times : List ℕ) (l : Punch) (t : Tunnel) (p : Peer)
      → get l.id t.peers ≡ some p
      → p.relayed ≡ true
      → l.relay_deadline ≡ some d
      → (l.phase ≡ top) ⊎ (l.phase ≡ relay_deadline_test)
      → Ended l.id (punch_run (times ++ n ∷ m ∷ []) (some l) t)
  relay_ends [] l t p known relayed deadline (inl at_top) =
      let l' : Punch = record l { relay_deadline = some d; phase = relay_deadline_test } in
      from_top n (m ∷ []) l t p known relayed deadline at_top
        (from_test m [] l' t p known refl refl (λ early. absurd (not_early m late_m early)))
  relay_ends [] l t p known relayed deadline (inr testing) =
      from_test n (m ∷ []) l t p known deadline testing (λ early. absurd (not_early n late_n early))
  relay_ends (now ∷ times) l t p known relayed deadline (inl at_top) =
      from_top now (times ++ n ∷ m ∷ []) l t p known relayed deadline at_top (
        relay_ends times (record l { relay_deadline = some d; phase = relay_deadline_test }) t p
          known relayed refl (inr refl))
  relay_ends (now ∷ times) l t p known relayed deadline (inr testing) =
      from_test now (times ++ n ∷ m ∷ []) l t p known deadline testing (λ early.
        relay_ends times (record l { phase = top }) (with_peer l.id p t) p (with_peer_lem l.id p t)
          relayed deadline (inl refl))

-- Without an answer, a loop whose direct deadline has passed is over after the relay's deadline.
pub punch_over :
    (l : Punch) (t : Tunnel) (p : Peer) (n1 n2 n3 : ℕ) (times : List ℕ) (n m : ℕ)
    → get l.id t.peers ≡ some p
    → l.phase ≡ top
    → l.relay_deadline ≡ none
    → is_connecting p.state ≡ true
    → p.relayed ≡ false
    → l.direct_deadline < n2
    → n3 + punch_timeout < n
    → n3 + punch_timeout < m
    → Ended l.id (punch_run (n1 ∷ n2 ∷ n3 ∷ (times ++ n ∷ m ∷ [])) (some l) t)
punch_over l t p n1 n2 n3 times n m known at_top fresh trying direct late late_n late_m =
    goes_on n1 _ l l1 t t (punch_top n1 l p t).0
      (step_top n1 l t p known at_top
        ∙ ap (λ o. ((punch_top n1 l p t).0, o, t)) (top_direct n1 l t p trying direct))
      (goes_on n2 _ l1 l2 t t' [] (step_direct n2 l1 t p known refl late)
        (elim (Option-cases t.relay_addr) [
          | inl absent ↦ failing absent
          | inr (ra, found) ↦ relaying ra found
        ]))
  where
    rest : List ℕ
    rest = times ++ n ∷ m ∷ []

    l1 : Punch
    l1 = record l { phase = direct_deadline_test }

    l2 : Punch
    l2 = record l { phase = top }

    t' : Tunnel
    t' = with_peer l.id (give_up_direct t.relay_addr p) t

    q : Peer
    q = give_up_direct t.relay_addr p

    stored : get l.id t'.peers ≡ some q
    stored = with_peer_lem l.id q t

    failing : t.relay_addr ≡ none → Ended l.id (punch_run (n3 ∷ rest) (some l2) t')
    failing absent =
        let over : is_connecting q.state ≡ false =
          ap (λ o. is_connecting (give_up_direct o p).state) absent ∙ no_relay p trying direct in
        ends_here n3 rest l2 t' t' [] q (step_over n3 l2 t' q stored refl over) stored over

    relaying :
        (ra : UdpAddr) → t.relay_addr ≡ some ra → Ended l.id (punch_run (n3 ∷ rest) (some l2) t')
    relaying ra found =
        let taken : q ≡ record p { relayed = true } =
          ap (λ o. give_up_direct o p) found ∙ relay_taken ra p trying direct in
        let relayed : q.relayed ≡ true = ap (λ z. z.relayed) taken in
        let l3 : Punch = record l2 {
          relay_deadline = some (n3 + punch_timeout);
          phase = relay_deadline_test;
        } in
        goes_on n3 rest l2 l3 t' t' (punch_top n3 l2 q t').0
          (step_top n3 l2 t' q stored refl
            ∙ ap (λ o. ((punch_top n3 l2 q t').0, o, t'))
                (top_relay n3 l2 t' q (ap (λ z. is_connecting z.state) taken ∙ trying) relayed)
            ∙ ap
                (λ (o : Option ℕ). (
                  (punch_top n3 l2 q t').0,
                  some (record l2 {
                    relay_deadline = some (enter_relay n3 o);
                    phase = relay_deadline_test;
                  }),
                  t',
                ))
                fresh)
          (relay_ends n m (n3 + punch_timeout) late_n late_m times l3 t' q stored relayed refl
            (inr refl))
