-- ===== src/P2p/Punch/Relayed.antt =====
-- punchLoop of tunnel.go in relay mode: what its steps make of the peer, and how long they try.
use eliaukvpn.Base.{
  ℕ, ◌≤◌, ◌≡◌, refl, sym, ap, ◌∙◌, subst, ◌⊎◌, inl, inr, true, false, Option, none, some, List, [],
  ◌∷◌, ◌++◌, ltb, All, arith, Bool-cases, if◌then◌else◌,
}
use eliaukvpn.Base.Str.{Str}
use eliaukvpn.Base.GoMap.{get}
use eliaukvpn.P2p.State.{failed, is_connecting, Peer, Tunnel, Effect}
use eliaukvpn.P2p.Punch.{
  Phase, top, relay_deadline_test, direct_deadline_test, Punch, enter_relay, punch_top, punch_relay,
  punch_direct, give_up_direct, with_peer, punch_step, punch_run,
}
use eliaukvpn.P2p.Punch.Steps.{step_top, top_relay, step_relay, relay_early, with_peer_lem}

pub run_goes :
    (now : ℕ) (times : List ℕ) (l l' : Punch) (t t' : Tunnel) (es : List Effect)
    → punch_step now l t ≡ (es, some l', t')
    → punch_run (now ∷ times) (some l) t ≡ (
      es ++ (punch_run times (some l') t').0,
      (punch_run times (some l') t').1,
      (punch_run times (some l') t').2,
    )
unfolding punch_run
run_goes now times l l' t t' es stepped = rw (punch_run, stepped) refl

pub run_ends :
    (now : ℕ) (times : List ℕ) (l : Punch) (t t' : Tunnel)
    → punch_step now l t ≡ ([], none, t')
    → punch_run (now ∷ times) (some l) t ≡ ([], none, t')
unfolding punch_run
run_ends now times l t t' stepped = rw (punch_run, stepped) refl

-- The loop goes on, with the peer as it was.
abbrev pub Trying : Str → Peer → List Effect × Option Punch × Tunnel → Type 0
Trying id p r = ((l : Punch) × (r.1 ≡ some l)) × (get id r.2.peers ≡ some p)

-- Up to the deadline of the relay mode, the loop keeps trying.
pub relay_waits :
    (times : List ℕ) (l : Punch) (t : Tunnel) (p : Peer) (d : ℕ)
    → get l.id t.peers ≡ some p
    → p.relayed ≡ true
    → is_connecting p.state ≡ true
    → l.relay_deadline ≡ some d
    → All (λ now. now ≤ d) times
    → (l.phase ≡ top) ⊎ (l.phase ≡ relay_deadline_test)
    → Trying l.id p (punch_run times (some l) t)
unfolding punch_run
relay_waits [] l t p d known relayed trying deadline early phase = ((l, refl), known)
relay_waits (now ∷ times) l t p d known relayed trying deadline early (inl at_top) =
    let l' : Punch = record l {
      relay_deadline = some (enter_relay now l.relay_deadline);
      phase = relay_deadline_test;
    } in
    let step : punch_step now l t ≡ ((punch_top now l p t).0, some l', t) =
      step_top now l t p known at_top
      ∙ ap (λ o. ((punch_top now l p t).0, o, t)) (top_relay now l t p trying relayed) in
    rw (run_goes now times l l' t t (punch_top now l p t).0 step) (
      relay_waits times l' t p d known relayed trying (ap (λ o. some (enter_relay now o)) deadline)
        early.1 (inr refl))
relay_waits (now ∷ times) l t p d known relayed trying deadline early (inr testing) =
    let l' : Punch = record l { phase = top } in
    let before : ltb (enter_relay now l.relay_deadline) now ≡ false =
      ap (λ o. ltb (enter_relay now o) now) deadline ∙ ground (arith, early.0) in
    let step : punch_step now l t ≡ ([], some l', with_peer l.id p t) =
      step_relay now l t p known testing
      ∙ ap (λ (r : Option Punch × Peer). ([], r.0, with_peer l.id r.1 t))
          (relay_early now l p before) in
    rw (run_goes now times l l' t (with_peer l.id p t) [] step) (
      relay_waits times l' (with_peer l.id p t) p d (with_peer_lem l.id p t) relayed trying deadline
        early.1 (inl refl))

-- A relayed peer stays relayed, and its state changes to failure only.
abbrev pub Stays : Str → Peer → Tunnel → Type 0
Stays id p t =
    (q : Peer) × (get id t.peers ≡ some q)
    × (q.relayed ≡ true)
    × ((q.state ≡ p.state) ⊎ (q.state ≡ failed))

abbrev NextIs : Str → Option Punch → Type 0
NextIs id none = Unit
NextIs id (some l) = l.id ≡ id

-- A step and the loop after it
abbrev StepStays : Str → Peer → List Effect × Option Punch × Tunnel → Type 0
StepStays id p r = Stays id p r.2 × NextIs id r.1

top-NextIs : (now : ℕ) (l : Punch) (t : Tunnel) (p : Peer) → NextIs l.id (punch_top now l p t).1
unfolding punch_top
top-NextIs now l t p = elim (Bool-cases (is_connecting p.state)) [
  | inr over ↦ rw (punch_top, over) tt
  | inl trying ↦ elim (Bool-cases p.relayed) [
    | inl relayed ↦ rw (punch_top, trying, relayed) refl
    | inr direct ↦ rw (punch_top, trying, direct) refl
  ]
]

-- What a deadline's test makes of the peer, stored again
stored :
    (l : Punch) (t : Tunnel) (p q : Peer) (next : Option Punch)
    → q.relayed ≡ true
    → (q.state ≡ p.state) ⊎ (q.state ≡ failed)
    → NextIs l.id next
    → StepStays l.id p ([], next, with_peer l.id q t)
stored l t p q next relayed state is = ((q, with_peer_lem l.id q t, relayed, state), is)

relay_test :
    (now : ℕ) (l : Punch) (t : Tunnel) (p : Peer)
    → p.relayed ≡ true
    → StepStays l.id p ([], (punch_relay now l p).0, with_peer l.id (punch_relay now l p).1 t)
unfolding punch_relay
relay_test now l t p relayed = elim (Bool-cases (ltb (enter_relay now l.relay_deadline) now)) [
  | inr early ↦
      rw (punch_relay, early)
        (stored l t p p (some (record l { phase = top })) relayed (inl refl) refl)
  | inl late ↦ elim (Bool-cases (is_connecting p.state)) [
    | inl trying ↦
        rw (punch_relay, late, trying)
          (stored l t p (record p { state = failed }) none relayed (inr refl) tt)
    | inr over ↦ rw (punch_relay, late, over) (stored l t p p none relayed (inl refl) tt)
  ]
]

direct_test :
    (now : ℕ) (l : Punch) (t : Tunnel) (p : Peer)
    → get l.id t.peers ≡ some p
    → l.phase ≡ direct_deadline_test
    → p.relayed ≡ true
    → StepStays l.id p (punch_step now l t)
unfolding punch_step punch_direct give_up_direct
direct_test now l t p known testing relayed =
    let same : (if ltb l.direct_deadline now then give_up_direct t.relay_addr p else p) ≡ p =
      ground (arith, relayed) in
    rw (punch_step, known, testing)
      (subst (λ q. StepStays l.id p ([], some (record l { phase = top }), with_peer l.id q t))
        (sym same) (stored l t p p (some (record l { phase = top })) relayed (inl refl) refl))

step-StepStays :
    (ph : Phase) (now : ℕ) (l : Punch) (t : Tunnel) (p : Peer)
    → l.phase ≡ ph
    → get l.id t.peers ≡ some p
    → p.relayed ≡ true
    → StepStays l.id p (punch_step now l t)
step-StepStays top now l t p phase known relayed =
    rw (step_top now l t p known phase) ((p, known, relayed, inl refl), top-NextIs now l t p)
step-StepStays relay_deadline_test now l t p phase known relayed =
    rw (step_relay now l t p known phase) (relay_test now l t p relayed)
step-StepStays direct_deadline_test now l t p phase known relayed =
    direct_test now l t p known phase relayed

then-Stays :
    (id : Str) (p q : Peer) (t : Tunnel)
    → (q.state ≡ p.state) ⊎ (q.state ≡ failed)
    → Stays id q t
    → Stays id p t
then-Stays id p q t before (z, known, relayed, inr now') = (z, known, relayed, inr now')
then-Stays id p q t (inl same) (z, known, relayed, inl after) =
    (z, known, relayed, inl (after ∙ same))
then-Stays id p q t (inr over) (z, known, relayed, inl after) =
    (z, known, relayed, inr (after ∙ over))

-- After a step, what the rest of the run keeps
rest-Stays :
    (times : List ℕ) (id : Str) (p : Peer)
    → ((l : Punch) (t : Tunnel) (q : Peer)
        → get l.id t.peers ≡ some q
        → q.relayed ≡ true
        → Stays l.id q (punch_run times (some l) t).2)
    → (o : Option Punch) (t : Tunnel) → StepStays id p ([], o, t)
    → Stays id p (punch_run times o t).2
unfolding punch_run
rest-Stays times id p rest none t (stays, is) = stays
rest-Stays times id p rest (some l) t (stays, is) =
    let (q, known, relayed, state) = stays in
    then-Stays id p q (punch_run times (some l) t).2 state (
      subst (λ i. Stays i q (punch_run times (some l) t).2) is
        (rest l t q (ap (λ i. get i t.peers) is ∙ known) relayed))

-- However long the loop runs.
pub run-Stays :
    (times : List ℕ) (l : Punch) (t : Tunnel) (p : Peer)
    → get l.id t.peers ≡ some p
    → p.relayed ≡ true
    → Stays l.id p (punch_run times (some l) t).2
unfolding punch_run
run-Stays [] l t p known relayed = (p, known, relayed, inl refl)
run-Stays (now ∷ times) l t p known relayed =
    rest-Stays times l.id p (λ l' t' q. run-Stays times l' t' q) (punch_step now l t).1
      (punch_step now l t).2 (step-StepStays l.phase now l t p refl known relayed)
