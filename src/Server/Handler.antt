-- ===== src/Server/Handler.antt =====
-- internal/server/handler.go: the requests of one connection. Messages that the server sends are a
-- list, each with the id of the client that it goes to; a write that fails is ignored, as in the
-- source. The upgrade, the heartbeat and the JSON are left out.
pub mod Gate
pub mod Notify
pub mod Serving
mod Examples
use eliaukvpn.Base.{
  ℕ, Bool, true, false, ◌||◌, Option, none, some, List, [], ◌∷◌, ◌++◌, if◌then◌else◌, is_empty,
}
use eliaukvpn.Base.Str.{Str, Bytes, str_eq}
use eliaukvpn.Base.GoMap.{GoMap, get, delete}
use eliaukvpn.Base.Result.{Result, ok, err}
use eliaukvpn.Protocol.{
  Candidate, RegisterRequest, ReportEndpoint, Request, register, report_endpoint, list_peers,
  connect_request, room_create, room_join, room_leave, other, ErrorText, first_message,
  malformed_register, no_name, no_public_key, bad_connect_request, cannot_connect_to_yourself,
  peer_not_in_room, no_candidates, bad_room_join, not_in_room, peer_not_found, Message, registered,
  peers_list, connect_candidates, room_created, room_joined, room_update, room_left, error,
  RoomMember,
}
use eliaukvpn.Server.State.{Client, Room, Registry, room_code, client_by_fp}
use eliaukvpn.Server.Rooms.{
  create_room, join_room, remove_from_room, room_of, room_members, room_members_list,
}
use eliaukvpn.Server.Registry.{
  add, remove, update_endpoint, visible_peers, visible_to, candidates_of,
}

abbrev pub Sent : Type 0
Sent = Str × Message

-- The loop of broadcastPeers, over All
unfoldable pub broadcast_from : Registry → GoMap Client → List Sent
broadcast_from r [] = []
broadcast_from r ((id, c) ∷ clients) =
    (id, peers_list (visible_peers c.id c.key_fp r)) ∷ broadcast_from r clients

-- broadcastPeers
unfoldable pub broadcast_peers : Registry → List Sent
unfolding broadcast_from
broadcast_peers r = broadcast_from r r.clients

-- The loop of notifyRoom
unfoldable pub notify_from : Registry → List RoomMember → GoMap Bool → List Sent
notify_from r members [] = []
notify_from r members ((fp, _) ∷ fps) =
    let rest = notify_from r members fps in
    elim (client_by_fp fp r) [ none ↦ rest | some mc ↦ (mc.id, room_update members) ∷ rest ]

-- notifyRoom
unfoldable pub notify_room : Registry → Room → List Sent
unfolding notify_from
notify_room r room = notify_from r (room_members_list r room) room.members

-- handleConnectRequest, once the target is found
unfoldable pub connect_to : Client → Client → Registry → List Sent
connect_to c target r =
    if str_eq target.id c.id
    then (c.id, error cannot_connect_to_yourself) ∷ []
    else if visible_to c target r
    then (let src = candidates_of c.id r in
        let dst = candidates_of target.id r in
        if is_empty src || is_empty dst
        then (c.id, error no_candidates) ∷ []
        else (c.id, connect_candidates target.id target.name dst)
          ∷ (target.id, connect_candidates c.id c.name src)
          ∷ [])
    else (c.id, error peer_not_in_room) ∷ []

-- handleConnectRequest
unfoldable pub handle_connect_request : Option Str → Client → Registry → List Sent
handle_connect_request none c r = (c.id, error bad_connect_request) ∷ []
handle_connect_request (some peer_id) c r = elim (get peer_id r.clients) [
  | none ↦ (c.id, error (peer_not_found peer_id)) ∷ []
  | some target ↦ connect_to c target r
]

-- handleRoomCreate
unfoldable pub handle_room_create : List Bytes → Client → Registry → List Sent × Registry
handle_room_create draws c r =
    let (result, r') = create_room draws c.key_fp r in
    (
      elim result [
        | err e ↦ (c.id, error e) ∷ []
        | ok code ↦
            (c.id, room_created code) ∷ (c.id, room_joined code (room_members c.key_fp r')) ∷ []
      ],
      r',
    )

-- handleRoomJoin
unfoldable pub handle_room_join : Option Str → Client → Registry → List Sent × Registry
handle_room_join none c r = ((c.id, error bad_room_join) ∷ [], r)
handle_room_join (some code) c r =
    let (result, r') = join_room c.key_fp code r in
    (
      elim result [
        | err e ↦ (c.id, error e) ∷ []
        | ok room ↦
            (c.id, room_joined room.code (room_members_list r' room))
            ∷ (notify_room r' room ++ broadcast_peers r')
      ],
      r',
    )

-- handleRoomLeave
unfoldable pub handle_room_leave : Client → Registry → List Sent × Registry
handle_room_leave c r =
    let (left, r') = remove_from_room c.key_fp r in
    (
      elim left [
        | none ↦ (c.id, error not_in_room) ∷ []
        | some room ↦ (c.id, room_left room.code) ∷ (notify_room r' room ++ broadcast_peers r')
      ],
      r',
    )

-- The loop of HandleWS, for one message. `draws` are the random codes, should it make a room.
unfoldable pub dispatch : List Bytes → Request → Client → Registry → List Sent × Registry
dispatch draws (report_endpoint none) c r = ([], r)
dispatch draws (report_endpoint (some ep)) c r =
    let r' = update_endpoint c.id ep.public_ip ep.public_port ep.nat_type ep.candidates r in
    (broadcast_peers r', r')
dispatch draws list_peers c r = ((c.id, peers_list (visible_peers c.id c.key_fp r)) ∷ [], r)
dispatch draws (connect_request peer_id) c r = (handle_connect_request peer_id c r, r)
dispatch draws room_create c r = handle_room_create draws c r
dispatch draws (room_join code) c r = handle_room_join code c r
dispatch draws room_leave c r = handle_room_leave c r
dispatch draws (register req) c r = ([], r)
dispatch draws other c r = ([], r)

-- The register handshake of HandleWS up to Add. An error is sent and the connection closed.
unfoldable pub register_client :
    Request → Option Str → Registry → Result ErrorText Client × Registry
register_client (register none) random_id r = (err malformed_register, r)
register_client (register (some req)) random_id r =
    let added = add req.name req.public_key random_id r in
    if str_eq req.name []
    then (err no_name, r)
    else if str_eq req.public_key []
    then (err no_public_key, r)
    else added
register_client _ random_id r = (err first_message, r)

-- What HandleWS sends to a new client, and then to all.
unfoldable pub welcome : Str → Client → Registry → List Sent
welcome relay_addr c r =
    (
      c.id,
      registered c.id c.virtual_ip relay_addr (visible_peers c.id c.key_fp r)
          (room_code c.key_fp r),
    )
    ∷ broadcast_peers r

-- The room that was captured before Remove, as it is after: the source holds a pointer to it.
unfoldable pub room_after : Str → Room → Registry → Room
room_after fp room r = elim (get room.code r.rooms) [
  | some kept ↦ kept
  | none ↦ record room { members = delete fp room.members }
]

-- The deferred cleanup of HandleWS
unfoldable pub disconnect : Client → Registry → List Sent × Registry
disconnect c r =
    let r' = remove c.id r in
    (
      elim (room_of c.key_fp r) [
        | none ↦ broadcast_peers r'
        | some room ↦ notify_room r' (room_after c.key_fp room r') ++ broadcast_peers r'
      ],
      r',
    )
