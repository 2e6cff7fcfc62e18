-- ===== src/Agent/Loop.antt =====
-- internal/agent/agent.go: what the agent does with a message of the server. `Host` is what the
-- machine answers meanwhile: the outcome of opening the virtual adapter (`none` without UseVnic),
-- the socket's port, and the interfaces' addresses, each with whether it is a loopback address.
pub mod Requests
pub mod Once
use eliaukvpn.Base.{
  ℕ, Bool, true, false, Option, none, some, List, [], ◌∷◌, ◌++◌, map, not, if◌then◌else◌, is_empty,
}
use eliaukvpn.Base.Str.{Str, Bytes, text}
use eliaukvpn.Base.Net.{UdpAddr}
use eliaukvpn.Base.Result.{Result, ok, err}
use eliaukvpn.Crypto.Handshake.{Kex}
use eliaukvpn.Stun.{MappedAddress}
use eliaukvpn.Stun.Detect.{
  NatType, Detected, nat_unknown, nat_full_cone, nat_restricted_cone, nat_symmetric,
  nat_unreachable,
}
use eliaukvpn.P2p.State.{
  Tunnel, new_tunnel, set_identity, set_friends, set_relay, set_force_relay, set_data_sink,
  begin_connect, has_peer,
}
use eliaukvpn.P2p.Send.{announce}
use eliaukvpn.Protocol.{
  Candidate, Peer, Message, registered, peers_list, connect_candidates, room_created, room_joined,
  room_update, room_left, error, report_endpoint, ErrorText,
}
use eliaukvpn.Agent.State.{Library, Agent, Action, ask, transmit, punch, fingerprint}
use eliaukvpn.Agent.Rooms.{set_room, update_room_members, clear_room}
use eliaukvpn.Agent.Routes.{auto_connect, merge_peers}

pub record Host : Type 0 where
  pub opened : Option (Result Str ℕ)
  pub port : ℕ
  pub interfaces : List (Bool × Option Bytes)

-- string(probe.NAT)
abbrev pub nat_text : NatType → Str
nat_text nat_unknown = text "unknown"
nat_text nat_full_cone = text "full_cone"
nat_text nat_restricted_cone = text "restricted_cone"
nat_text nat_symmetric = text "symmetric"
nat_text nat_unreachable = text "unreachable"

-- toUDPAddrs
unfoldable pub to_udp_addrs : Library → List Candidate → List UdpAddr
to_udp_addrs lib [] = []
to_udp_addrs lib (c ∷ cs) =
    let rest = to_udp_addrs lib cs in
    elim (lib.parse_ip c.ip) [ none ↦ rest | some ip ↦ record { ip = ip; port = c.port } ∷ rest ]

-- The loop of gatherCandidates
unfoldable pub lan_candidates : Library → ℕ → List (Bool × Option Bytes) → List Candidate
lan_candidates lib port [] = []
lan_candidates lib port ((true, _) ∷ rest) = lan_candidates lib port rest
lan_candidates lib port ((false, none) ∷ rest) = lan_candidates lib port rest
lan_candidates lib port ((false, some ip4) ∷ rest) =
    record { ip = lib.ip_string ip4; port = port; type = text "lan" } ∷ lan_candidates lib port rest

-- gatherCandidates
unfoldable pub gather_candidates : Library → Host → Detected → List Candidate
unfolding lan_candidates
gather_candidates lib h probe =
    (elim probe.mapped [
      | none ↦ []
      | some m ↦ record { ip = lib.ip_string m.ip; port = m.port; type = text "public" } ∷ []
    ])
    ++ lan_candidates lib h.port h.interfaces

-- reportEndpoint
unfoldable pub report : Library → Host → Agent → List Action
unfolding gather_candidates
report lib h a =
    ask (
      report_endpoint (
        some (record {
          public_ip = elim a.probe.mapped [ none ↦ [] | some m ↦ lib.ip_string m.ip ];
          public_port = elim a.probe.mapped [ none ↦ 0 | some m ↦ m.port ];
          nat_type = nat_text a.probe.nat;
          candidates = gather_candidates lib h a.probe;
        })))
    ∷ []

-- The adapter of onRegistered
unfoldable pub open_adapter : Option (Result Str ℕ) → Agent → Agent
open_adapter none a = a
open_adapter (some (err e)) a = record a { vnic_err = e }
open_adapter (some (ok index)) a = record a { adapter = some index; vnic_err = [] }

-- SetRelay and Announce of onRegistered
unfoldable pub join_relay : Library → Str → Tunnel → List Action × Tunnel
join_relay lib addr t = elim (lib.resolve addr) [
  | none ↦ ([], t)
  | some ra ↦ (map transmit (announce (set_relay (some ra) t)), set_relay (some ra) t)
]

-- The tunnel of onRegistered
unfoldable pub start_tunnel : Library → Str → Agent → List Action × Tunnel
unfolding join_relay
start_tunnel lib relay_addr a =
    let t = set_friends lib.encode a.friends (set_identity a.identity (new_tunnel a.my_id)) in
    let (sent, t') = if is_empty relay_addr then ([], t) else join_relay lib relay_addr t in
    (sent, set_data_sink (if a.force_relay then set_force_relay true t' else t'))

-- The agent of onRegistered before it prints and connects to the peers
unfoldable pub set_up : Library → Host → Str → Str → Str → List Peer → Agent → Agent
unfolding start_tunnel open_adapter
set_up lib h client_id virtual_ip relay_addr peers a =
    let named = record a { my_id = client_id; my_vip = virtual_ip; err_note = none } in
    open_adapter h.opened
      (merge_peers peers (record named { tunnel = some (start_tunnel lib relay_addr named).1 }))

-- onRegistered
unfoldable pub on_registered :
    Library → Host → Str → Str → Str → List Peer → Agent → List Action × Agent
on_registered lib h client_id virtual_ip relay_addr peers a =
    let sent = (start_tunnel lib relay_addr (record a { my_id = client_id })).0 in
    let (actions, a') = auto_connect peers (set_up lib h client_id virtual_ip relay_addr peers a) in
    (sent ++ (actions ++ report lib h a'), a')

-- The case of connect_candidates: BeginConnect starts a loop for a peer that is new.
unfoldable pub on_candidates :
    Kex → Library → Option Bytes → Str → Str → List Candidate → Agent → List Action × Agent
on_candidates k lib generated id name candidates a = elim a.tunnel [
  | none ↦ ([], a)
  | some t ↦ (
    if has_peer id t then [] else punch id ∷ [],
    record a { tunnel = some (begin_connect k id name (to_udp_addrs lib candidates) generated t) },
  )
]

-- messageLoop, for one message
unfoldable pub on_message :
    Kex → Library → Host → Option Bytes → Message → Agent → List Action × Agent
on_message k lib h generated (registered id vip relay_addr peers code) a =
    on_registered lib h id vip relay_addr peers a
on_message k lib h generated (peers_list peers) a = auto_connect peers (merge_peers peers a)
on_message k lib h generated (connect_candidates id name candidates) a =
    on_candidates k lib generated id name candidates a
on_message k lib h generated (room_created code) a = ([], a)
on_message k lib h generated (room_joined code members) a = ([], set_room k lib code members a)
on_message k lib h generated (room_update members) a = ([], update_room_members k lib members a)
on_message k lib h generated (room_left code) a = clear_room lib a
on_message k lib h generated (error e) a = ([], record a { err_note = some e })

-- Status
pub record Status : Type 0 where
  pub id : Str
  pub virtual_ip : Str
  pub public : Option MappedAddress
  pub nat : Str
  pub identity : Str
  pub registered : Bool
  pub vnic_msg : Str
  pub last_err : Option ErrorText
  pub room_name : Str

unfoldable pub status : Kex → Library → Agent → Status
status k lib a = record {
  id = a.my_id;
  virtual_ip = a.my_vip;
  public = a.probe.mapped;
  nat = nat_text a.probe.nat;
  identity = fingerprint k lib a;
  registered = not (is_empty a.my_id);
  vnic_msg = a.vnic_err;
  last_err = a.err_note;
  room_name = elim a.room [ none ↦ [] | some r ↦ r.code ];
}

-- A message with what the machine answers to it
pub record Event : Type 0 where
  pub host : Host
  pub generated : Option Bytes
  pub message : Message

-- messageLoop
unfoldable pub message_loop : Kex → Library → List Event → Agent → List Action × Agent
message_loop k lib [] a = ([], a)
message_loop k lib (e ∷ es) a =
    let (now, a') = on_message k lib e.host e.generated e.message a in
    let (later, a'') = message_loop k lib es a' in (now ++ later, a'')
