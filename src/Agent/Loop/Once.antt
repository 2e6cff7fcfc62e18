-- ===== src/Agent/Loop/Once.antt =====
-- How often the agent asks the server for a connection to a peer.
use eliaukvpn.Base.{
  ℕ, ◌+◌, ◌≤◌, ◌≡◌, refl, ap, ◌∙◌, Bool, true, false, Option, none, some, List, [], Option-cases,
  Bool-cases, ◌∷◌, ◌++◌, arith, is_empty, flat_map, In, inl, inr,
}
use eliaukvpn.Base.Str.{Str, Bytes}
use eliaukvpn.Base.GoMap.{GoMap, get}
use eliaukvpn.Base.Result.{Result, ok, err}
use eliaukvpn.Crypto.Handshake.{Kex}
use eliaukvpn.Stun.Detect.{Detected}
use eliaukvpn.P2p.State.{Tunnel, new_tunnel, set_identity, set_friends, set_relay}
use eliaukvpn.P2p.Send.{announce}
use eliaukvpn.P2p.Tunnel.{flag}
use eliaukvpn.Protocol.{
  Peer, RoomMember, Candidate, Message, registered, peers_list, connect_candidates, room_created,
  room_joined, room_update, room_left, error, connect_request,
}
use eliaukvpn.Agent.State.{Library, Agent, Action, ask, new_agent}
use eliaukvpn.Agent.Rooms.{
  remove_peer_route, clear_room, set_room, update_room_members, sync_whitelist,
}
use eliaukvpn.Agent.Routes.{
  ensure_peer_route, want_from, add_routes, drop_routes, pick_fresh, auto_connect, merge_peers,
}
use eliaukvpn.Agent.Loop.{
  Host, Event, report, open_adapter, join_relay, start_tunnel, set_up, on_registered, on_candidates,
  on_message, message_loop,
}
use eliaukvpn.Agent.Loop.Requests.{
  bit_of, requests, requests-append, requests-pick_fresh, pick_fresh-tries, requests-ensure,
  requests-remove, requests-remove_one, requests-transmit,
}

-- What a message makes the agent ask is counted by its map of tried peers.
abbrev Counts : Str → List Action × Agent → Agent → Type 0
Counts id r a = requests id r.0 + bit_of (flag id a.attempted) ≡ bit_of (flag id r.1.attempted)

auto_connect-Counts : (id : Str) (ps : List Peer) (a : Agent) → Counts id (auto_connect ps a) a
unfolding auto_connect
auto_connect-Counts id ps a =
    let added : List Str = (add_routes (want_from [] ps) a.routes).0 in
    let dropped : List Str =
      (drop_routes (want_from [] ps) (add_routes (want_from [] ps) a.routes).1).0 in
    let adds : List Action = flat_map (ensure_peer_route a) added in
    let drops : List Action = flat_map (remove_peer_route a) dropped in
    let asks : List Action =
      flat_map (λ p. ask (connect_request (some p.id)) ∷ []) (pick_fresh ps a.attempted).0 in
    omega (
      arith,
      requests-append id adds (drops ++ asks),
      requests-append id drops asks,
      requests-ensure id a added,
      requests-remove id a dropped,
      requests-pick_fresh id ps a.attempted,
    )

merge_peers-attempted : (ps : List Peer) (a : Agent) → (merge_peers ps a).attempted ≡ a.attempted
unfolding merge_peers
merge_peers-attempted ps a = refl

open_adapter-attempted :
    (o : Option (Result Str ℕ)) (a : Agent) → (open_adapter o a).attempted ≡ a.attempted
unfolding open_adapter
open_adapter-attempted none a = refl
open_adapter-attempted (some (err e)) a = refl
open_adapter-attempted (some (ok i)) a = refl

requests-join_relay :
    (id : Str) (lib : Library) (addr : Str) (t : Tunnel) → requests id (join_relay lib addr t).0 ≡ 0
unfolding join_relay
requests-join_relay id lib addr t = elim (Option-cases (lib.resolve addr)) [
  | inl bad ↦ rw (bad, join_relay) (unfold requests in refl)
  | inr (ra, good) ↦ rw (good, join_relay) (requests-transmit id (announce (set_relay (some ra) t)))
]

requests-start_tunnel :
    (id : Str) (lib : Library) (relay_addr : Str) (a : Agent)
    → requests id (start_tunnel lib relay_addr a).0 ≡ 0
unfolding start_tunnel
requests-start_tunnel id lib relay_addr a =
    let t : Tunnel =
      set_friends lib.encode a.friends (set_identity a.identity (new_tunnel a.my_id)) in
    elim (Bool-cases (is_empty relay_addr)) [
      | inl local ↦ rw local (unfold requests in refl)
      | inr relayed ↦ rw relayed (requests-join_relay id lib relay_addr t)
    ]

requests-report :
    (id : Str) (lib : Library) (h : Host) (a : Agent) → requests id (report lib h a) ≡ 0
unfolding requests report
requests-report id lib h a = refl

set_up-attempted :
    (lib : Library) (h : Host) (client vip relay_addr : Str) (ps : List Peer) (a : Agent)
    → (set_up lib h client vip relay_addr ps a).attempted ≡ a.attempted
unfolding set_up merge_peers
set_up-attempted lib h client vip relay_addr ps a = open_adapter-attempted h.opened _

on_registered-Counts :
    (id : Str) (lib : Library) (h : Host) (client vip relay_addr : Str) (ps : List Peer) (a : Agent)
    → Counts id (on_registered lib h client vip relay_addr ps a) a
unfolding on_registered
on_registered-Counts id lib h client vip relay_addr ps a =
    let ready : Agent = set_up lib h client vip relay_addr ps a in
    let sent : List Action = (start_tunnel lib relay_addr (record a { my_id = client })).0 in
    let (actions, a') : List Action × Agent = auto_connect ps ready in
    omega (
      arith,
      requests-append id sent (actions ++ report lib h a'),
      requests-append id actions (report lib h a'),
      requests-start_tunnel id lib relay_addr (record a { my_id = client }),
      requests-report id lib h a',
      auto_connect-Counts id ps ready,
      ap (λ m. bit_of (flag id m)) (set_up-attempted lib h client vip relay_addr ps a),
    )

-- An operation that asks for no connection and keeps the map
quiet :
    (id : Str) (xs : List Action) (a a' : Agent)
    → requests id xs ≡ 0
    → a'.attempted ≡ a.attempted
    → Counts id (xs, a') a
quiet id xs a a' none_asked kept = omega (arith, ap (λ m. bit_of (flag id m)) kept)

nothing : (id : Str) → requests id [] ≡ 0
unfolding requests
nothing id = refl

requests-leave :
    (id : Str) (a : Agent) (m : GoMap Str)
    → requests id (flat_map (λ e. remove_peer_route a e.0) m) ≡ 0
unfolding requests
requests-leave id a [] = refl
requests-leave id a (e ∷ m) = omega (
  arith,
  requests-append id (remove_peer_route a e.0) (flat_map (λ x. remove_peer_route a x.0) m),
  requests-remove_one id a e.0,
  requests-leave id a m,
)

update-attempted :
    (k : Kex) (lib : Library) (members : List RoomMember) (a : Agent)
    → (update_room_members k lib members a).attempted ≡ a.attempted
unfolding update_room_members sync_whitelist
update-attempted k lib members a = elim (Option-cases a.room) [
  | inl outside ↦ rw (outside, update_room_members) refl
  | inr (r, inside) ↦ rw (inside, update_room_members) refl
]

on_candidates-quiet :
    (id : Str) (k : Kex) (lib : Library) (generated : Option Bytes) (peer name : Str)
    (cs : List Candidate) (a : Agent)
    → Counts id (on_candidates k lib generated peer name cs a) a
unfolding on_candidates requests
on_candidates-quiet id k lib generated peer name cs a = ground arith

on_message-Counts :
    (id : Str) (k : Kex) (lib : Library) (h : Host) (generated : Option Bytes) (m : Message)
    (a : Agent)
    → Counts id (on_message k lib h generated m a) a
unfolding on_message
on_message-Counts id k lib h generated (registered client vip relay_addr ps code) a =
    on_registered-Counts id lib h client vip relay_addr ps a
on_message-Counts id k lib h generated (peers_list ps) a = omega (
  arith,
  auto_connect-Counts id ps (merge_peers ps a),
  ap (λ m. bit_of (flag id m)) (merge_peers-attempted ps a),
)
on_message-Counts id k lib h generated (connect_candidates peer name cs) a =
    on_candidates-quiet id k lib generated peer name cs a
on_message-Counts id k lib h generated (room_created code) a = quiet id [] a a (nothing id) refl
on_message-Counts id k lib h generated (room_joined code members) a =
    quiet id [] a (set_room k lib code members a) (nothing id) (unfold set_room in refl)
on_message-Counts id k lib h generated (room_update members) a =
    quiet id [] a (update_room_members k lib members a) (nothing id)
      (update-attempted k lib members a)
on_message-Counts id k lib h generated (room_left code) a =
    quiet id (clear_room lib a).0 a (clear_room lib a).1
      (unfold clear_room in requests-leave id a a.routes) (unfold clear_room in refl)
on_message-Counts id k lib h generated (error e) a =
    quiet id [] a (record a { err_note = some e }) (nothing id) refl

message_loop-Counts :
    (id : Str) (k : Kex) (lib : Library) (es : List Event) (a : Agent)
    → Counts id (message_loop k lib es a) a
unfolding message_loop
message_loop-Counts id k lib [] a = quiet id [] a a (nothing id) refl
message_loop-Counts id k lib (e ∷ es) a =
    let (now, a') : List Action × Agent = on_message k lib e.host e.generated e.message a in
    omega (
      arith,
      requests-append id now (message_loop k lib es a').0,
      on_message-Counts id k lib e.host e.generated e.message a,
      message_loop-Counts id k lib es a',
    )

bit_of-le : (b : Bool) → bit_of b ≤ 1
bit_of-le true = omega arith
bit_of-le false = omega arith

new_agent-tries_none :
    (force_relay : Bool) (identity : Bytes) (probe : Detected) (id : Str)
    → flag id (new_agent force_relay identity probe).attempted ≡ false
unfolding new_agent get
new_agent-tries_none force_relay identity probe id = refl

listing-tries :
    (k : Kex) (lib : Library) (h : Host) (generated : Option Bytes) (ps : List Peer) (a : Agent)
    (p : Peer)
    → In p ps
    → is_empty p.public_ip ≡ false
    → flag p.id (on_message k lib h generated (peers_list ps) a).1.attempted ≡ true
unfolding on_message auto_connect
listing-tries k lib h generated ps a p i shown =
    pick_fresh-tries p ps (merge_peers ps a).attempted i shown

-- Whatever messages a new agent has seen, when the server then lists peers, the agent has asked for
-- a connection to any id at most once, and exactly once, then or before, for each listed peer that
-- has an endpoint.
pub asked_once :
    (k : Kex) (lib : Library) (force_relay : Bool) (identity : Bytes) (probe : Detected)
    (es : List Event) (h : Host) (generated : Option Bytes) (ps : List Peer) (p : Peer) (id : Str)
    → In p ps
    → is_empty p.public_ip ≡ false
    → let (before, a) = message_loop k lib es (new_agent force_relay identity probe) in
      let then' = (on_message k lib h generated (peers_list ps) a).0 in
      (requests id before + requests id then' ≤ 1)
      × (requests p.id before + requests p.id then' ≡ 1)
asked_once k lib force_relay identity probe es h generated ps p id i shown = (
  omega (arith, total id, bit_of-le (flag id last.1.attempted)),
  total p.id ∙ ap bit_of (listing-tries k lib h generated ps seen.1 p i shown),
)
  where
    fresh : Agent
    fresh = new_agent force_relay identity probe

    seen : List Action × Agent
    seen = message_loop k lib es fresh

    last : List Action × Agent
    last = on_message k lib h generated (peers_list ps) seen.1

    total : (x : Str) → requests x seen.0 + requests x last.0 ≡ bit_of (flag x last.1.attempted)
    total x = omega (
      arith,
      message_loop-Counts x k lib es fresh,
      on_message-Counts x k lib h generated (peers_list ps) seen.1,
      ap bit_of (new_agent-tries_none force_relay identity probe x),
    )
