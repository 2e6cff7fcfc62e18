-- ===== src/Agent/Routes/Replay.antt =====
-- The system's routes after the actions of autoConnect.
use eliaukvpn.Base.{
  ℕ, suc, ◌≡◌, refl, ap, ◌∙◌, false, not, ◌&&◌, ◌||◌, some, List, [], ◌∷◌, ◌++◌, arith, is_empty,
  flat_map, if◌then◌else◌,
}
use eliaukvpn.Base.Str.{Str, str_eq_iff}
use eliaukvpn.Base.GoMap.{GoMap, get, put, delete, get-put, get-delete}
use eliaukvpn.Protocol.{Peer, connect_request}
use eliaukvpn.Agent.State.{
  Agent, Action, ask, add_route, delete_route, transmit, punch, write_adapter,
}
use eliaukvpn.Agent.Rooms.{remove_peer_route}
use eliaukvpn.Agent.Routes.{ensure_peer_route}
use eliaukvpn.Agent.Routes.Table.{is_some, contains}

-- The system's routes, by address with the interface, after the agent's actions.
abbrev pub after_action : Action → GoMap ℕ → GoMap ℕ
after_action (add_route vip i) os = put vip i os
after_action (delete_route vip i) os = delete vip os
after_action (ask _) os = os
after_action (transmit _) os = os
after_action (punch _) os = os
after_action (write_adapter _) os = os

pub replay : List Action → GoMap ℕ → GoMap ℕ
replay [] os = os
replay (x ∷ xs) os = replay xs (after_action x os)

replay-append :
    (xs ys : List Action) (os : GoMap ℕ) → replay (xs ++ ys) os ≡ replay ys (replay xs os)
unfolding replay
replay-append [] ys os = refl
replay-append (x ∷ xs) ys os = replay-append xs ys (after_action x os)

module _ (a : Agent) (i : ℕ) (up : a.adapter ≡ some (suc i)) (v : Str)
    (h : is_empty v ≡ false) where
  one_added :
      (vip : Str)
      → ensure_peer_route a vip ≡ (if is_empty vip then [] else add_route vip (suc i) ∷ [])
  unfolding ensure_peer_route
  one_added vip = rw up

  one_removed :
      (vip : Str)
      → remove_peer_route a vip ≡ (if is_empty vip then [] else delete_route vip (suc i) ∷ [])
  unfolding remove_peer_route
  one_removed vip = rw up

  replay-ensure :
      (vips : List Str) (os : GoMap ℕ)
      → is_some (get v (replay (flat_map (ensure_peer_route a) vips) os))
        ≡ (contains v vips || is_some (get v os))
  unfolding replay
  replay-ensure [] os = refl
  replay-ensure ([] ∷ vips) os =
      rw (one_added []) (ground (arith, str_eq_iff [] v, replay-ensure vips os))
  replay-ensure ((c ∷ s) ∷ vips) os =
      rw (one_added (c ∷ s))
        (ground (arith, replay-ensure vips (put (c ∷ s) (suc i) os), get-put (c ∷ s) v (suc i) os))

  replay-remove :
      (vips : List Str) (os : GoMap ℕ)
      → is_some (get v (replay (flat_map (remove_peer_route a) vips) os))
        ≡ (not (contains v vips) && is_some (get v os))
  unfolding replay
  replay-remove [] os = refl
  replay-remove ([] ∷ vips) os =
      rw (one_removed []) (ground (arith, str_eq_iff [] v, replay-remove vips os))
  replay-remove ((c ∷ s) ∷ vips) os =
      rw (one_removed (c ∷ s))
        (ground (arith, replay-remove vips (delete (c ∷ s) os), get-delete (c ∷ s) v os))

replay-ask :
    (vips : List Peer) (os : GoMap ℕ) (f : Peer → Action)
    → ((p : Peer) (os : GoMap ℕ) → after_action (f p) os ≡ os)
    → replay (flat_map (λ p. f p ∷ []) vips) os ≡ os
unfolding replay
replay-ask [] os f h = refl
replay-ask (p ∷ ps) os f h =
    ap (replay (flat_map (λ p. f p ∷ []) ps)) (h p os) ∙ replay-ask ps os f h

-- The actions of autoConnect, in their three parts
module _ (a : Agent) (i : ℕ) (up : a.adapter ≡ some (suc i)) (v : Str) (h : is_empty v ≡ false)
    (added dropped : List Str) (fresh : List Peer) where
  pub replay_parts :
      (os : GoMap ℕ)
      → is_some (
          get v (
            replay
              (flat_map (ensure_peer_route a) added
                ++ (flat_map (remove_peer_route a) dropped
                    ++ flat_map (λ p. ask (connect_request (some p.id)) ∷ []) fresh))
              os))
        ≡ (not (contains v dropped) && (contains v added || is_some (get v os)))
  replay_parts os =
      let adds : List Action = flat_map (ensure_peer_route a) added in
      let drops : List Action = flat_map (remove_peer_route a) dropped in
      let asks : List Action = flat_map (λ p. ask (connect_request (some p.id)) ∷ []) fresh in
      ap (λ o. is_some (get v o))
        (replay-append adds (drops ++ asks) os
          ∙ replay-append drops asks (replay adds os)
          ∙ replay-ask fresh (replay drops (replay adds os))
              (λ p. ask (connect_request (some p.id))) (λ p o. refl))
      ∙ replay-remove a i up v h dropped (replay adds os)
      ∙ ap (λ b. not (contains v dropped) && b) (replay-ensure a i up v h added os)

flat_map-nothing :
    (f : Str → List Action) (vips : List Str) → ((vip : Str) → f vip ≡ []) → flat_map f vips ≡ []
flat_map-nothing f [] h = refl
flat_map-nothing f (vip ∷ vips) h = rw (h vip, flat_map-nothing f vips h) refl

pub replay_down :
    (a : Agent) (v : Str)
    → ((vip : Str) → ensure_peer_route a vip ≡ [])
    → ((vip : Str) → remove_peer_route a vip ≡ [])
    → (added dropped : List Str) (fresh : List Peer) (os : GoMap ℕ)
    → is_some (
        get v (
          replay
            (flat_map (ensure_peer_route a) added
              ++ (flat_map (remove_peer_route a) dropped
                  ++ flat_map (λ p. ask (connect_request (some p.id)) ∷ []) fresh))
            os))
      ≡ is_some (get v os)
replay_down a v adds drops added dropped fresh os =
    rw
      (
        flat_map-nothing (ensure_peer_route a) added adds,
        flat_map-nothing (remove_peer_route a) dropped drops,
      )
      (ap (λ o. is_some (get v o))
        (replay-ask fresh os (λ p. ask (connect_request (some p.id))) (λ p o. refl)))
