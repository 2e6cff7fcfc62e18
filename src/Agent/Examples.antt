-- ===== src/Agent/Examples.antt =====
-- An agent in a room with one other member, and the theorems on agent.go applied to it.
use eliaukvpn.Base.{
  ℕ, ◌+◌, ◌≤◌, ◌≡◌, refl, ◌↔◌, ◌⊎◌, inl, true, false, Option, none, some, List, [], ◌∷◌, map, arith,
  replicate, length, ◌==◌, if◌then◌else◌,
}
use eliaukvpn.Base.Str.{Str, Bytes, text, str_eq}
use eliaukvpn.Base.Trim.{trim_space}
use eliaukvpn.Base.GoMap.{get}
use eliaukvpn.Base.Result.{ok}
use eliaukvpn.Crypto.Examples.{toy_aead}
use eliaukvpn.Crypto.Handshake.Examples.{toy_kex}
use eliaukvpn.Stun.Detect.{Detected, nat_full_cone}
use eliaukvpn.P2p.State.{Tunnel, new_tunnel}
use eliaukvpn.P2p.Send.{send_data_broadcast}
use eliaukvpn.P2p.Tunnel.{check_peer_static}
use eliaukvpn.Protocol.{Peer, RoomMember, registered, peers_list, room_joined}
use eliaukvpn.Agent.State.{
  Library, RoomState, Agent, transmit, new_agent, fingerprint, parse_fingerprint,
}
use eliaukvpn.Agent.Rooms.{set_room}
use eliaukvpn.Agent.Rooms.Whitelist.{IsMember}
use eliaukvpn.Agent.Routes.{auto_connect, merge_peers}
use eliaukvpn.Agent.Routes.Table.{is_some}
use eliaukvpn.Agent.Routes.Replay.{replay}
use eliaukvpn.Agent.Routes.System.{RoutesOk, auto_connect_routes}
use eliaukvpn.Agent.Forward.{forward_discovery, forward_from_vnic}
use eliaukvpn.Agent.Forward.Echo.{no_echo}
use eliaukvpn.Agent.Loop.{
  Host, Event, on_message, on_registered, set_up, start_tunnel, open_adapter, message_loop,
}
use eliaukvpn.Agent.Loop.Requests.{requests}
use eliaukvpn.Agent.Loop.Once.{asked_once}
use eliaukvpn.Agent.Members.Reach.{Reach, started, next, message, admitted_iff, open_to_all}

abbrev toy_parse_ip : Str → Option Bytes
toy_parse_ip s = if length s == 4 then some s else none

toy_parse_ip_lem : (b : Bytes) → length b ≡ 4 → toy_parse_ip b ≡ some b
toy_parse_ip_lem b h = ground arith

-- Texts are the bytes themselves.
abbrev toy_library : Library
toy_library = record {
  encode = λ b. b;
  decode = λ s. some s;
  parse_ip = toy_parse_ip;
  ip_string = λ b. b;
  resolve = λ s. none;
  decode-encode = λ b. refl;
  parse-string = toy_parse_ip_lem;
}

abbrev probed : Detected
probed = record { mapped = none; nat = nat_full_cone }

abbrev machine : Host
machine = record { opened = some (ok 7); port = 4000; interfaces = [] }

abbrev address : ℕ → Str
address d = 10 ∷ 0 ∷ 0 ∷ d ∷ []

abbrev key_b : Bytes
key_b = replicate 32 66

abbrev member_b : RoomMember
member_b = record { username = text "b"; key_fp = key_b; virtual_ip = address 3; host = false }

abbrev peer_b : Peer
peer_b = record {
  id = text "2";
  name = text "b";
  virtual_ip = address 3;
  public_ip = text "8.8.8.8";
  public_port = 5000;
  nat_type = text "full_cone";
  online = true;
}

abbrev new_one : Agent
new_one = new_agent false (3 ∷ []) probed

abbrev registered_one : Agent
registered_one =
    (on_message toy_kex toy_library machine none (registered (text "1") (address 2) [] [] [])
      new_one).1

abbrev joined : Agent
joined =
    (on_message toy_kex toy_library machine none (room_joined (text "AAAAA") (member_b ∷ []))
      registered_one).1

abbrev reach_registered : Reach toy_kex toy_aead toy_library registered_one
reach_registered =
    next (started false (3 ∷ []) probed)
      (message machine none (registered (text "1") (address 2) [] [] []) new_one)

abbrev reach_joined : Reach toy_kex toy_aead toy_library joined
reach_joined =
    next reach_registered
      (message machine none (room_joined (text "AAAAA") (member_b ∷ [])) registered_one)

abbrev room_of_two : RoomState
room_of_two = record { code = text "AAAAA"; members = member_b ∷ [] }

abbrev the_tunnel : Agent → Tunnel
the_tunnel a = elim a.tunnel [ none ↦ new_tunnel [] | some t ↦ t ]

is_member : IsMember toy_library (fingerprint toy_kex toy_library joined) (member_b ∷ []) key_b
unfolding parse_fingerprint trim_space str_eq on_message on_registered set_up start_tunnel
    open_adapter merge_peers auto_connect set_room new_agent
is_member = record { member = member_b; present = inl refl; another = refl; parsed = refl }

admitted_iff_example :
    (check_peer_static toy_kex toy_aead toy_library.encode key_b (the_tunnel joined) ≡ ok tt)
    ↔ IsMember toy_library (fingerprint toy_kex toy_library joined) (member_b ∷ []) key_b
unfolding on_message on_registered set_up start_tunnel open_adapter merge_peers auto_connect
    set_room new_agent
admitted_iff_example =
    admitted_iff toy_kex toy_aead toy_library joined (the_tunnel joined) room_of_two key_b key_b
      reach_joined refl refl is_member refl

open_to_all_example :
    check_peer_static toy_kex toy_aead toy_library.encode key_b (the_tunnel registered_one) ≡ ok tt
unfolding on_message on_registered set_up start_tunnel open_adapter merge_peers auto_connect
    set_room new_agent
open_to_all_example =
    open_to_all toy_kex toy_aead toy_library registered_one (the_tunnel registered_one) key_b
      reach_registered refl refl refl

abbrev listing : List Peer
listing = peer_b ∷ []

abbrev first_event : Event
first_event = record {
  host = machine;
  generated = none;
  message = registered (text "1") (address 2) [] [] [];
}

asked_once_example :
    let (before, a) = message_loop toy_kex toy_library (first_event ∷ []) new_one in
    let then' = (on_message toy_kex toy_library machine none (peers_list listing) a).0 in
    (requests (text "9") before + requests (text "9") then' ≤ 1)
    × (requests (text "2") before + requests (text "2") then' ≡ 1)
asked_once_example =
    asked_once toy_kex toy_library false (3 ∷ []) probed (first_event ∷ []) machine none listing
      peer_b (text "9") (inl refl) refl

-- The agent with its adapter up and no route yet, and one with a route.
abbrev online : Agent
online = record new_one {
  adapter = some 7;
  my_vip = address 2;
  tunnel = some (new_tunnel (text "1"));
}

auto_connect_routes_example :
    RoutesOk (auto_connect listing online).1.routes
    × (get (address 3) (auto_connect listing online).1.routes ≡ some (text "2"))
    × (is_some (get (address 3) (replay (auto_connect listing online).0 [])) ≡ true)
unfolding new_agent get str_eq
auto_connect_routes_example =
    auto_connect_routes listing online [] (address 3) (refl, tt)
      (record { is_map = tt; is_named = tt }) (λ v h. refl) refl

no_echo_example :
    (forward_discovery toy_aead toy_library true none (text "[MOTD]hi[/MOTD]") online
      ≡ ([], online))
    ⊎ (out : Bytes) × ((forward_discovery toy_aead toy_library true none
          (text "[MOTD]hi[/MOTD]")
          online).0
        ≡ map transmit (send_data_broadcast toy_aead out (new_tunnel (text "1"))).0)
      × (forward_from_vnic toy_aead toy_library out joined ≡ ([], joined))
no_echo_example =
    no_echo toy_aead toy_library true none (text "[MOTD]hi[/MOTD]") 2 online joined
      (new_tunnel (text "1")) refl refl (λ h. cc)
