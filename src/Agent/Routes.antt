-- ===== src/Agent/Routes.antt =====
-- internal/agent/agent.go: the routes to the peers' virtual addresses, and the connections that the
-- agent asks for.
pub mod Table
pub mod Replay
pub mod System
use eliaukvpn.Base.{
  zero, suc, Bool, true, Option, none, some, List, [], ◌∷◌, ◌++◌, not, if◌then◌else◌, flat_map,
  is_empty, ◌&&◌,
}
use eliaukvpn.Base.Str.{Str, str_eq}
use eliaukvpn.Base.GoMap.{GoMap, get, put, or_empty}
use eliaukvpn.P2p.Tunnel.{flag}
use eliaukvpn.Protocol.{Peer, connect_request}
use eliaukvpn.Agent.State.{Agent, Action, ask, add_route}
use eliaukvpn.Agent.Rooms.{remove_peer_route}

-- ensurePeerRoute
unfoldable pub ensure_peer_route : Agent → Str → List Action
ensure_peer_route a vip = elim a.adapter [
  | none ↦ []
  | some zero ↦ []
  | some (suc i) ↦ if is_empty vip then [] else add_route vip (suc i) ∷ []
]

-- The map `want` of autoConnect
unfoldable pub want_from : GoMap Str → List Peer → GoMap Str
want_from m [] = m
want_from m (p ∷ ps) = want_from (if is_empty p.virtual_ip then m else put p.virtual_ip p.id m) ps

-- The loop over `want`: the routes that are new or have changed, and the table after it.
unfoldable pub add_routes : GoMap Str → GoMap Str → List Str × GoMap Str
add_routes [] routes = ([], routes)
add_routes ((vip, id) ∷ want) routes =
    let same = str_eq (or_empty (get vip routes)) id in
    let (added, routes') = add_routes want (if same then routes else put vip id routes) in
    (if same then added else vip ∷ added, routes')

-- The loop over the routes: those that are not wanted, and the table after it.
unfoldable pub drop_routes : GoMap Str → GoMap Str → List Str × GoMap Str
drop_routes want [] = ([], [])
drop_routes want ((vip, id) ∷ routes) =
    let (dropped, kept) = drop_routes want routes in
    if str_eq (or_empty (get vip want)) id
    then (dropped, (vip, id) ∷ kept)
    else (vip ∷ dropped, kept)

-- The loop over the peers: those to connect to, and the map of those that were tried.
unfoldable pub pick_fresh : List Peer → GoMap Bool → List Peer × GoMap Bool
pick_fresh [] attempted = ([], attempted)
pick_fresh (p ∷ ps) attempted =
    let try = not (is_empty p.public_ip) && not (flag p.id attempted) in
    let (fresh, attempted') = pick_fresh ps (if try then put p.id true attempted else attempted) in
    (if try then p ∷ fresh else fresh, attempted')

-- autoConnect
unfoldable pub auto_connect : List Peer → Agent → List Action × Agent
auto_connect peers a =
    let want = want_from [] peers in
    let (added, with_new) = add_routes want a.routes in
    let (dropped, routes) = drop_routes want with_new in
    let (fresh, attempted) = pick_fresh peers a.attempted in
    (
      flat_map (ensure_peer_route a) added
          ++ (flat_map (remove_peer_route a) dropped
              ++ flat_map (λ p. ask (connect_request (some p.id)) ∷ []) fresh),
      record a { routes = routes; attempted = attempted },
    )

-- The loop of mergePeersLocked
unfoldable pub merge_from : List Peer → GoMap Peer → GoMap Peer → GoMap Peer × GoMap Peer
merge_from [] by_id by_name = (by_id, by_name)
merge_from (p ∷ ps) by_id by_name = merge_from ps (put p.id p by_id) (put p.name p by_name)

-- mergePeers
unfoldable pub merge_peers : List Peer → Agent → Agent
merge_peers peers a =
    let (by_id, by_name) = merge_from peers a.by_id a.by_name in
    record a { by_id = by_id; by_name = by_name }

-- resolvePeer
unfoldable pub resolve_peer : GoMap Peer → GoMap Peer → Str → Option Peer
resolve_peer by_id by_name key = elim (get key by_id) [ some p ↦ some p | none ↦ get key by_name ]

-- Connect; `none` for a peer that is not known.
unfoldable pub connect : Str → Agent → Option (List Action)
connect name_or_id a = elim (resolve_peer a.by_id a.by_name name_or_id) [
  | none ↦ none
  | some p ↦ some (ask (connect_request (some p.id)) ∷ [])
]
