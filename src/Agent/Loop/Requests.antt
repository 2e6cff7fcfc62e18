-- ===== src/Agent/Loop/Requests.antt =====
-- The agent's requests for a connection, counted.
use eliaukvpn.Base.{
  ℕ, ◌+◌, ◌≡◌, refl, Bool, true, false, not, ◌&&◌, some, List, [], ◌∷◌, ◌++◌, map, arith, is_empty,
  flat_map, if◌then◌else◌, In, inl, inr,
}
use eliaukvpn.Base.Str.{Str, str_eq, str_eq_iff}
use eliaukvpn.Base.GoMap.{GoMap, put, get-put, get-put_self}
use eliaukvpn.P2p.State.{Effect}
use eliaukvpn.P2p.Tunnel.{flag}
use eliaukvpn.Protocol.{Peer, connect_request}
use eliaukvpn.Agent.State.{Agent, Action, ask, transmit}
use eliaukvpn.Agent.Rooms.{remove_peer_route}
use eliaukvpn.Agent.Routes.{ensure_peer_route, pick_fresh}

abbrev pub bit_of : Bool → ℕ
bit_of true = 1
bit_of false = 0

abbrev pub is_request_for : Str → Action → Bool
is_request_for id (ask (connect_request (some p))) = str_eq p id
is_request_for id _ = false

-- How many of the actions ask the server to connect us to `id`
unfoldable pub requests : Str → List Action → ℕ
requests id [] = 0
requests id (x ∷ xs) = bit_of (is_request_for id x) + requests id xs

pub requests-append :
    (id : Str) (xs ys : List Action) → requests id (xs ++ ys) ≡ requests id xs + requests id ys
unfolding requests
requests-append id [] ys = omega arith
requests-append id (x ∷ xs) ys = omega (arith, requests-append id xs ys)

-- A peer is asked for where it was not tried, and is tried from then on.
pub requests-pick_fresh :
    (id : Str) (ps : List Peer) (tried : GoMap Bool)
    → requests id (flat_map (λ p. ask (connect_request (some p.id)) ∷ []) (pick_fresh ps tried).0)
        + bit_of (flag id tried)
      ≡ bit_of (flag id (pick_fresh ps tried).1)
unfolding requests pick_fresh
requests-pick_fresh id [] tried = omega arith
requests-pick_fresh id (p ∷ ps) tried = ground (
  arith,
  requests-pick_fresh id ps tried,
  requests-pick_fresh id ps (put p.id true tried),
  get-put p.id id true tried,
  str_eq_iff p.id id,
)

pub pick_fresh-keeps :
    (id : Str) (ps : List Peer) (tried : GoMap Bool)
    → flag id tried ≡ true
    → flag id (pick_fresh ps tried).1 ≡ true
pick_fresh-keeps id ps tried h = ground (arith, requests-pick_fresh id ps tried)

abbrev after_pick : Peer → GoMap Bool → GoMap Bool
after_pick q tried =
    if not (is_empty q.public_ip) && not (flag q.id tried) then put q.id true tried else tried

pub pick_fresh-tries :
    (p : Peer) (ps : List Peer) (tried : GoMap Bool)
    → In p ps
    → is_empty p.public_ip ≡ false
    → flag p.id (pick_fresh ps tried).1 ≡ true
unfolding pick_fresh
pick_fresh-tries p [] tried i h = absurd i.1
pick_fresh-tries p (q ∷ ps) tried (inl e) h = rw e (
    pick_fresh-keeps q.id ps (after_pick q tried)
      (ground (arith, rw e at h, get-put_self q.id true tried)))
pick_fresh-tries p (q ∷ ps) tried (inr i) h = pick_fresh-tries p ps (after_pick q tried) i h

-- No other action is such a request.
pub requests-ensure_one : (id : Str) (a : Agent) (v : Str) → requests id (ensure_peer_route a v) ≡ 0
unfolding requests ensure_peer_route
requests-ensure_one id a v = ground arith

pub requests-remove_one : (id : Str) (a : Agent) (v : Str) → requests id (remove_peer_route a v) ≡ 0
unfolding requests remove_peer_route
requests-remove_one id a v = ground arith

pub requests-ensure :
    (id : Str) (a : Agent) (vips : List Str) → requests id (flat_map (ensure_peer_route a) vips) ≡ 0
unfolding requests
requests-ensure id a [] = refl
requests-ensure id a (v ∷ vips) = omega (
  arith,
  requests-append id (ensure_peer_route a v) (flat_map (ensure_peer_route a) vips),
  requests-ensure id a vips,
  requests-ensure_one id a v,
)

pub requests-remove :
    (id : Str) (a : Agent) (vips : List Str) → requests id (flat_map (remove_peer_route a) vips) ≡ 0
unfolding requests
requests-remove id a [] = refl
requests-remove id a (v ∷ vips) = omega (
  arith,
  requests-append id (remove_peer_route a v) (flat_map (remove_peer_route a) vips),
  requests-remove id a vips,
  requests-remove_one id a v,
)

pub requests-transmit : (id : Str) (xs : List Effect) → requests id (map transmit xs) ≡ 0
unfolding requests
requests-transmit id [] = refl
requests-transmit id (x ∷ xs) = omega (arith, requests-transmit id xs)
