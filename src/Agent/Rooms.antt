-- ===== src/Agent/Rooms.antt =====
-- internal/agent/agent.go: the agent's room and the whitelist that it makes of the members.
pub mod Whitelist
use eliaukvpn.Base.{
  zero, suc, Bool, true, Option, none, some, List, [], ◌∷◌, if◌then◌else◌, flat_map, is_empty,
}
use eliaukvpn.Base.Str.{Str, Bytes, str_eq}
use eliaukvpn.Base.Trim.{trim_space, to_upper}
use eliaukvpn.Base.GoMap.{GoMap, put}
use eliaukvpn.Crypto.Handshake.{Kex}
use eliaukvpn.P2p.State.{set_friends}
use eliaukvpn.P2p.Tunnel.{flag}
use eliaukvpn.Protocol.{RoomMember, room_create, room_join, room_leave}
use eliaukvpn.Agent.State.{
  Library, Agent, Action, ask, delete_route, fingerprint, parse_fingerprint,
}

-- The inner loop of dedupFP, with the map of what was seen
unfoldable pub dedup_from : (Bytes → Str) → GoMap Bool → List Bytes → List Bytes
dedup_from encode seen [] = []
dedup_from encode seen (k ∷ ks) =
    let rest = dedup_from encode (put (encode k) true seen) ks in
    let skipped = dedup_from encode seen ks in if flag (encode k) seen then skipped else k ∷ rest

-- dedupFP: the two loops are one over the lists end to end.
unfoldable pub dedup_fp : (Bytes → Str) → List (List Bytes) → List Bytes
unfolding dedup_from
dedup_fp encode lists = dedup_from encode [] (flat_map (λ l. l) lists)

-- memberFPs
unfoldable pub member_fps : Library → Str → List RoomMember → List Bytes
member_fps lib self [] = []
member_fps lib self (m ∷ ms) =
    let rest = member_fps lib self ms in
    if str_eq m.key_fp self
    then rest
    else (elim (parse_fingerprint lib m.key_fp) [ none ↦ rest | some raw ↦ raw ∷ rest ])

-- removePeerRoute
unfoldable pub remove_peer_route : Agent → Str → List Action
remove_peer_route a vip = elim a.adapter [
  | none ↦ []
  | some zero ↦ []
  | some (suc i) ↦ if is_empty vip then [] else delete_route vip (suc i) ∷ []
]

-- syncWhitelistLocked
unfoldable pub sync_whitelist : Library → Agent → Agent
sync_whitelist lib a =
    let friends = dedup_fp lib.encode (a.room_fp ∷ []) in
    record a {
      friends = friends;
      tunnel = elim a.tunnel [ none ↦ none | some t ↦ some (set_friends lib.encode friends t) ];
    }

module _ (k : Kex) (lib : Library) where
  -- setRoom
  unfoldable pub set_room : Str → List RoomMember → Agent → Agent
  unfolding sync_whitelist
  set_room code members a = sync_whitelist lib (record a {
    room = some (record { code = code; members = members });
    room_fp = member_fps lib (fingerprint k lib a) members;
  })

  -- updateRoomMembers
  unfoldable pub update_room_members : List RoomMember → Agent → Agent
  unfolding sync_whitelist
  update_room_members members a = elim a.room [
    | none ↦ a
    | some r ↦ sync_whitelist lib (record a {
      room = some (record r { members = members });
      room_fp = member_fps lib (fingerprint k lib a) members;
    })
  ]

-- clearRoom
unfoldable pub clear_room : Library → Agent → List Action × Agent
unfolding sync_whitelist
clear_room lib a = (
  flat_map (λ e. remove_peer_route a e.0) a.routes,
  sync_whitelist lib (record a { room = none; room_fp = []; routes = [] }),
)

-- CreateRoom
unfoldable pub create_room : List Action
create_room = ask room_create ∷ []

-- JoinRoom; `none` for its error.
unfoldable pub join_room : Str → Option (List Action)
join_room code =
    let cleaned = to_upper (trim_space code) in
    if is_empty cleaned then none else some (ask (room_join (some cleaned)) ∷ [])

-- LeaveRoom
unfoldable pub leave_room : List Action
leave_room = ask room_leave ∷ []
